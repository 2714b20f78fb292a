-- ===== src/Certificates.antt =====
-- global/ChainBuilder.h, card/base/asn1/CVCertificateChain.cpp and CVCertificateChainBuilder.cpp: the
-- chains of the certificates that a card is given.
pub mod ChainBuilder
pub mod Chain
mod Examples

-- ===== src/Access.antt =====
-- card/base/asn1/Chat.cpp, card/base/asn1/AccessRoleAndRight.cpp and
-- workflows/base/context/AccessRightManager.cpp: the rights that a terminal gets on a card.
pub mod Rights
pub mod Chat
pub mod Manager
mod Examples

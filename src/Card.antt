-- ===== src/Card.antt =====
-- card/base: the APDUs, the length-value encoding, the PACE messages and secure messaging.
pub mod CommandApdu
pub mod ReturnCode
pub mod ResponseApdu
pub mod LengthValue
pub mod PasswordId
pub mod PaceInput
pub mod PaceOutput
pub mod Crypto
pub mod SymmetricCipher
pub mod SecureMessaging
pub mod Commands
pub mod Connection
pub mod Transmission
pub mod ECardApi
mod Examples

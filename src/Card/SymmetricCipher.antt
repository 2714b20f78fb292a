-- ===== src/Card/SymmetricCipher.antt =====
-- card/base/pace/SymmetricCipher.cpp and card/base/pace/CipherMac.cpp, over the calls of OpenSSL.
-- The constructors choose AES by the PACE algorithm and check the key's size; their outcome is
-- the field `initialized`.
use ausweis_app.Prelude.{
  ◌%◌, Bool, true, false, not, Option, none, some, [], ◌==◌, if◌then◌else◌, length,
}
use ausweis_app.Bytes.{Bytes}
use ausweis_app.Card.Crypto.{Crypto}

pub record SymmetricCipher : Type 0 where
  pub initialized : Bool
  pub iv : Bytes

-- `QByteArray()` where there is no value.
abbrev pub bytes_or_empty : Option Bytes → Bytes
bytes_or_empty none = []
bytes_or_empty (some bytes) = bytes

module _ (k : Crypto) where
  -- The result and the new state.
  unfoldable pub set_iv : SymmetricCipher → Bytes → Bool × SymmetricCipher
  set_iv cipher iv =
      if length iv == k.iv_length then (true, record cipher { iv = iv }) else (false, cipher)

  unfoldable pub encrypt_blocks : SymmetricCipher → Bytes → Bytes
  encrypt_blocks cipher plain =
      if not cipher.initialized
      then []
      else if not (length plain % k.block_size == 0)
      then []
      else bytes_or_empty (k.evp_encrypt cipher.iv plain)

  unfoldable pub decrypt_blocks : SymmetricCipher → Bytes → Bytes
  decrypt_blocks cipher secret =
      if not cipher.initialized
      then []
      else if not (length secret % k.block_size == 0)
      then []
      else bytes_or_empty (k.evp_decrypt cipher.iv secret)

  -- `CipherMac::generate`
  unfoldable pub generate_mac : Bool → Bytes → Bytes
  generate_mac initialized message = if not initialized then [] else bytes_or_empty (k.cmac message)

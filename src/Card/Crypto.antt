-- ===== src/Card/Crypto.antt =====
-- What card/base takes from OpenSSL: AES in CBC mode without padding, the CMAC, and the DER
-- encoding of an octet string under a context tag. None of it is under src/.
use ausweis_app.Prelude.{ℕ, ◌≤◌, ◌≡◌, ◌≢◌, Option, none, some, ◌++◌, length, is_empty, false}
use ausweis_app.Bytes.{Bytes}

pub record Crypto : Type 0 where
  -- `EVP_CIPHER_block_size` and `EVP_CIPHER_iv_length`
  pub block_size : ℕ
  pub iv_length : ℕ
  -- The `EVP_Encrypt…` and `EVP_Decrypt…` calls under the cipher key, from an initialization
  -- vector and the data; `none` if one of them fails.
  pub evp_encrypt : Bytes → Bytes → Option Bytes
  pub evp_decrypt : Bytes → Bytes → Option Bytes
  -- The `EVP_DigestSign…` calls under the MAC key, cut to eight bytes; `none` if one fails.
  pub cmac : Bytes → Option Bytes
  -- `i2d` and `d2i` of an octet string with the tag; `none` if they fail.
  pub encode_octets : ℕ → Bytes → Option Bytes
  pub decode_octets : ℕ → Bytes → Option Bytes

-- The documented behaviour that the theorems rely on.
pub record IsLawful (k : Crypto) : Type 0 where
  -- A block holds the send sequence counter.
  pub block_size_min : 4 ≤ k.block_size
  -- In CBC mode the vector has the size of a block.
  pub iv_length_block : k.iv_length ≡ k.block_size
  -- Whole blocks are encrypted to as many bytes, and decrypted under the same vector.
  pub length-encrypt :
      (iv plain secret : Bytes)
      → k.evp_encrypt iv plain ≡ some secret
      → length secret ≡ length plain
  pub decrypt-encrypt :
      (iv plain secret : Bytes)
      → k.evp_encrypt iv plain ≡ some secret
      → k.evp_decrypt iv secret ≡ some plain
  pub length-cmac : (message mac : Bytes) → k.cmac message ≡ some mac → length mac ≡ 8
  -- A decoder reads the object at the head of its input and leaves what follows.
  pub decode-encode :
      (tag : ℕ) (value object rest : Bytes)
      → k.encode_octets tag value ≡ some object
      → k.decode_octets tag (object ++ rest) ≡ some value
  pub decode-encode_ne :
      (tag other : ℕ) (value object rest : Bytes)
      → tag ≢ other
      → k.encode_octets tag value ≡ some object
      → k.decode_octets other (object ++ rest) ≡ none
  pub encode_nonempty :
      (tag : ℕ) (value object : Bytes)
      → k.encode_octets tag value ≡ some object
      → is_empty object ≡ false

-- ===== src/Card/SecureMessaging/Examples.antt =====
-- Runs of secure messaging on a small lawful cipher.
use ausweis_app.Prelude.{
  ℕ, ◌+◌, ◌*◌, ◌%◌, ◌≡◌, ◌≢◌, ◌<◌, refl, sym, ap, subst, true, false, Option, none, some, [], ◌∷◌,
  ◌++◌, arith, ltb, ◌==◌, ==_iff, le→ltb, if◌then◌else◌, length, length-append, is_empty, take,
  take-append,
}
use ausweis_app.Bytes.{Bytes, at}
use ausweis_app.Card.Crypto.{Crypto, IsLawful}
use ausweis_app.Card.ResponseApdu
use ausweis_app.Card.ResponseApdu.{status_codes, is_value, hex_value_from}
use ausweis_app.Card.SecureMessaging.{SecureMessaging, is_initialized, encrypt, decrypt}
use ausweis_app.Card.SecureMessaging.Standard.{counter_block, next_counter, iso_padded}
use ausweis_app.Card.SecureMessaging.Carried.{object, Carries, protected_data}
use ausweis_app.Card.SecureMessaging.Padding.{pad, unpad, unpad-pad}
use ausweis_app.Card.SecureMessaging.Checks.{counter_lem, decrypt-cmac}
use ausweis_app.Card.SecureMessaging.Protected.{
  ProtectedResponse, response_bytes, vector_left, decrypt-ProtectedResponse,
}

-- The tag, the length and the value of an object.
abbrev pub decode_small : ℕ → Bytes → Option Bytes
decode_small tag [] = none
decode_small tag (t ∷ []) = none
decode_small tag (t ∷ n ∷ rest) =
    if t == tag then (if ltb (length rest) n then none else some (take n rest)) else none

abbrev pub small_crypto : Crypto
small_crypto = record {
  block_size = 4;
  iv_length = 4;
  evp_encrypt = λ iv plain. some plain;
  evp_decrypt = λ iv secret. some secret;
  cmac = λ message. some (length message % 256 ∷ 1 ∷ 2 ∷ 3 ∷ 4 ∷ 5 ∷ 6 ∷ 7 ∷ []);
  encode_octets = λ tag value. some (tag ∷ length value ∷ value);
  decode_octets = decode_small;
}

decode_small-encode :
    (tag : ℕ) (value rest : Bytes)
    → decode_small tag (tag ∷ length value ∷ (value ++ rest)) ≡ some value
decode_small-encode tag value rest = rw ((==_iff tag tag).1 refl) (
    rw (length-append value rest) (
      rw (le→ltb (length value + length rest) (length value) (omega arith))
        (ap some (take-append value rest))))

decode_small-encode_ne :
    (tag other : ℕ) (value rest : Bytes)
    → tag ≢ other
    → decode_small other (tag ∷ length value ∷ (value ++ rest)) ≡ none
decode_small-encode_ne tag other value rest ne = ground arith

object_of :
    (value object : Bytes) → ◌≡◌ {A = Option Bytes} (some value) (some object) → value ≡ object
object_of value object h = ground arith

small_crypto-IsLawful : IsLawful small_crypto
small_crypto-IsLawful = record {
  block_size_min = omega arith;
  iv_length_block = refl;
  length-encrypt = λ iv plain secret h. ap length (sym (object_of plain secret h));
  decrypt-encrypt = λ iv plain secret h. sym h;
  length-cmac = λ message mac h.
      ap length (sym (object_of (length message % 256 ∷ 1 ∷ 2 ∷ 3 ∷ 4 ∷ 5 ∷ 6 ∷ 7 ∷ []) mac h));
  decode-encode = λ tag value object rest h.
      subst (λ o. decode_small tag (o ++ rest) ≡ some value)
        (object_of (tag ∷ length value ∷ value) object h) (decode_small-encode tag value rest);
  decode-encode_ne = λ tag other value object rest ne h.
      subst (λ o. decode_small other (o ++ rest) ≡ none)
        (object_of (tag ∷ length value ∷ value) object h)
        (decode_small-encode_ne tag other value rest ne);
  encode_nonempty =
      λ tag value object h. ap is_empty (sym (object_of (tag ∷ length value ∷ value) object h));
}

abbrev pub ready_state : SecureMessaging
ready_state = record {
  cipher = record { initialized = true; iv = 0 ∷ 0 ∷ 0 ∷ 0 ∷ [] };
  mac_initialized = true;
  send_sequence_counter = 4294967295;
}

-- A command that reads eight bytes: 00 B0 00 00 08.
abbrev read_command : Bytes
read_command = 0x00 ∷ 0xb0 ∷ 0x00 ∷ 0x00 ∷ 0x08 ∷ []

-- What the card makes of the bytes 1 2 3 and the status 90 00, and of the status alone, in its first
-- message after the counter has wrapped.
protected_response :
    ProtectedResponse small_crypto (next_counter 4294967295) (1 ∷ 2 ∷ 3 ∷ []) (0x90 ∷ 0x00 ∷ [])
unfolding iso_padded
protected_response = record {
  data_object = 0x87 ∷ 5 ∷ 0x01 ∷ 1 ∷ 2 ∷ 3 ∷ 0x80 ∷ [];
  status_object = 0x99 ∷ 2 ∷ 0x90 ∷ 0x00 ∷ [];
  mac = 16 ∷ 1 ∷ 2 ∷ 3 ∷ 4 ∷ 5 ∷ 6 ∷ 7 ∷ [];
  mac_object = 0x8e ∷ 8 ∷ 16 ∷ 1 ∷ 2 ∷ 3 ∷ 4 ∷ 5 ∷ 6 ∷ 7 ∷ [];
  data_made = record {
    iv = 0 ∷ 0 ∷ 0 ∷ 0 ∷ [];
    secret = 1 ∷ 2 ∷ 3 ∷ 0x80 ∷ [];
    iv_made = refl;
    secret_made = refl;
    data_made = refl;
  };
  status_made = refl;
  mac_made = refl;
  mac_object_made = refl;
}

status_response : ProtectedResponse small_crypto (next_counter 4294967295) [] (0x90 ∷ 0x00 ∷ [])
unfolding iso_padded
status_response = record {
  data_object = [];
  status_object = 0x99 ∷ 2 ∷ 0x90 ∷ 0x00 ∷ [];
  mac = 12 ∷ 1 ∷ 2 ∷ 3 ∷ 4 ∷ 5 ∷ 6 ∷ 7 ∷ [];
  mac_object = 0x8e ∷ 8 ∷ 12 ∷ 1 ∷ 2 ∷ 3 ∷ 4 ∷ 5 ∷ 6 ∷ 7 ∷ [];
  data_made = refl;
  status_made = refl;
  mac_made = refl;
  mac_object_made = refl;
}

abbrev card_response : Bytes
card_response =
    response_bytes small_crypto (next_counter 4294967295) (1 ∷ 2 ∷ 3 ∷ []) 0x90 0x00
      protected_response

ready : is_initialized ready_state ≡ true
unfolding is_initialized
ready = refl

success_known : is_value status_codes (hex_value_from 0 (0x90 ∷ 0x00 ∷ [])) ≡ true
unfolding is_value status_codes hex_value_from
success_known = refl

decrypt-ProtectedResponse_example : decrypt small_crypto ready_state card_response ≡ (
  1 ∷ 2 ∷ 3 ∷ 0x90 ∷ 0x00 ∷ [],
  record ready_state {
    cipher = record ready_state.cipher {
      iv =
          vector_left small_crypto
            (next_counter 4294967295)
            (1 ∷ 2 ∷ 3 ∷ [])
            protected_response.data_object
            (0 ∷ 0 ∷ 0 ∷ 0 ∷ [])
            protected_response.data_made;
    };
    send_sequence_counter = 0;
  },
)
decrypt-ProtectedResponse_example =
    decrypt-ProtectedResponse small_crypto small_crypto-IsLawful ready_state (1 ∷ 2 ∷ 3 ∷ []) 0x90
      0x00 protected_response ready success_known

status_alone :
    (decrypt small_crypto ready_state
      (response_bytes small_crypto (next_counter 4294967295) [] 0x90 0x00 status_response)).0
    ≡ 0x90 ∷ 0x00 ∷ []
status_alone =
    ap (λ result. result.0)
      (decrypt-ProtectedResponse small_crypto small_crypto-IsLawful ready_state [] 0x90 0x00
        status_response ready success_known)

counter_lem_example :
    ((encrypt small_crypto ready_state read_command).1.send_sequence_counter ≡ 0)
    × ((decrypt small_crypto ready_state card_response).1.send_sequence_counter ≡ 0)
counter_lem_example = counter_lem small_crypto ready_state read_command card_response ready

decrypt_filled : is_empty (decrypt small_crypto ready_state card_response).0 ≡ false
decrypt_filled = ap (λ result. is_empty result.0) decrypt-ProtectedResponse_example

decrypt-cmac_example :
    (value : Option Bytes) × (status mac : Bytes) × Carries small_crypto
      (ResponseApdu.get_data card_response)
      value
      status
      mac
    × (small_crypto.cmac (
          counter_block small_crypto 0
          ++ iso_padded 4 (protected_data small_crypto value ++ object small_crypto 0x99 status))
        ≡ some mac)
    × (at status 0 * 256 + at status 1 ≡ ResponseApdu.get_return_code card_response)
decrypt-cmac_example = decrypt-cmac small_crypto ready_state card_response decrypt_filled

unpad-pad_example :
    (length (pad 16 (1 ∷ 2 ∷ 0 ∷ [])) % 16 ≡ 0)
    × (3 < length (pad 16 (1 ∷ 2 ∷ 0 ∷ [])))
    × (unpad 16 (pad 16 (1 ∷ 2 ∷ 0 ∷ [])) ≡ 1 ∷ 2 ∷ 0 ∷ [])
unpad-pad_example = unpad-pad 16 (1 ∷ 2 ∷ 0 ∷ []) (omega arith)

-- ===== src/Card/SecureMessaging/Objects.antt =====
-- The objects of a protected response, one behind the other, and what SecureMessagingResponse reads of
-- them.
use ausweis_app.Prelude.{
  ℕ, ◌+◌, ◌-◌, ◌≡◌, refl, sym, ap, ◌∙◌, subst, Bool, true, false, not, some, [], ◌∷◌, ◌++◌, arith,
  ◌==◌, ==_iff, le→ltb, if◌then◌else◌, length, is_empty, drop, drop-append, length-append, &&-split,
  take-append, take,
}
use mathlib.Core.List.{append-nil}
use ausweis_app.Bytes.{Bytes, same_bytes, same_bytes_refl}
use ausweis_app.Card.Crypto.{Crypto, IsLawful}
use ausweis_app.Card.ResponseApdu
use ausweis_app.Card.ResponseApdu.{status_codes, is_value, hex_value_from}
use ausweis_app.Card.SymmetricCipher.{bytes_or_empty, generate_mac}
use ausweis_app.Card.SecureMessaging.{
  SecureMessaging, SecureMessagingResponse, is_initialized, count, decrypt, tag_processing_status,
  tag_checksum, decrypt_data, secure_response, read_status, read_checksum, response_to_mac, get_mac,
  get_secured_status_code, get_secured_status_code_bytes,
}

pub append-nonempty : (xs ys : Bytes) → is_empty ys ≡ false → is_empty (xs ++ ys) ≡ false
append-nonempty [] ys h = h
append-nonempty (x ∷ xs) ys h = refl

length_two : (content : Bytes) (a b : ℕ) → length (content ++ a ∷ b ∷ []) ≡ length content + 2
length_two content a b = length-append content (a ∷ b ∷ [])

pub append-nonempty_left : (xs ys : Bytes) → is_empty xs ≡ false → is_empty (xs ++ ys) ≡ false
append-nonempty_left [] ys h = ground arith
append-nonempty_left (x ∷ xs) ys h = refl

pub get_data_lem :
    (content : Bytes) (a b : ℕ) → ResponseApdu.get_data (content ++ a ∷ b ∷ []) ≡ content
unfolding ResponseApdu.get_data
get_data_lem content a b = rw (length_two content a b) (
    rw (le→ltb (length content + 2) 2 (omega arith))
      (ap (λ n. take n (content ++ a ∷ b ∷ [])) (omega arith) ∙ take-append content (a ∷ b ∷ [])))

pub get_return_code_lem :
    (content : Bytes) (a b : ℕ)
    → is_value status_codes (hex_value_from 0 (a ∷ b ∷ [])) ≡ true
    → ResponseApdu.get_return_code (content ++ a ∷ b ∷ []) ≡ hex_value_from 0 (a ∷ b ∷ [])
unfolding ResponseApdu.get_return_code
get_return_code_lem content a b known = rw (append-nonempty content (a ∷ b ∷ []) refl) (
    rw (length_two content a b) (
      rw
        (ap (λ n. drop n (content ++ a ∷ b ∷ [])) (add_sub (length content))
          ∙ drop-append content (a ∷ b ∷ []))
        (rw known refl)))
  where
    add_sub : (n : ℕ) → n + 2 - 2 ≡ n
    add_sub n = omega arith

-- The status and the checksum behind the data.
module _ (k : Crypto) (law : IsLawful k) (sw1 sw2 : ℕ)
    (status_object message mac mac_object : Bytes)
    (status_made : k.encode_octets tag_processing_status (sw1 ∷ sw2 ∷ []) ≡ some status_object)
    (mac_made : k.cmac message ≡ some mac)
    (mac_object_made : k.encode_octets tag_checksum mac ≡ some mac_object) where
  read_checksum_lem :
      (response : SecureMessagingResponse)
      → read_checksum k response (mac_object ++ [])
        ≡ record response { checksum = some mac; invalid = false }
  unfolding read_checksum
  read_checksum_lem response =
      let read = law.decode-encode tag_checksum mac mac_object [] mac_object_made in
      let size = law.length-cmac message mac mac_made in ground arith

  read_checksum-mac :
      (response : SecureMessagingResponse)
      → read_checksum k response mac_object
        ≡ record response { checksum = some mac; invalid = false }
  read_checksum-mac response =
      subst
        (λ xs.
          read_checksum k response xs ≡ record response { checksum = some mac; invalid = false })
        (append-nil mac_object) (read_checksum_lem response)

  pub read_status_lem :
      (response : SecureMessagingResponse)
      → read_status k response (status_object ++ mac_object) ≡ record response {
        processing_status = some (sw1 ∷ sw2 ∷ []);
        checksum = some mac;
        invalid = false;
      }
  unfolding read_status
  read_status_lem response =
      let read =
        law.decode-encode tag_processing_status (sw1 ∷ sw2 ∷ []) status_object mac_object
          status_made in
      let left = drop-append status_object mac_object in
      let rest =
        read_checksum-mac (record response { processing_status = some (sw1 ∷ sw2 ∷ []) }) in
      ground arith

-- Four guards that let a computation pass.
guards_passed {ℓ} :
    {A : Type ℓ} (ready invalid same right : Bool) (x y z w result : A)
    → ready ≡ true
    → invalid ≡ false
    → same ≡ true
    → right ≡ true
    → (if not ready
        then x
        else if invalid
        then y
        else if not same
        then z
        else if not right
        then w
        else result)
      ≡ result
guards_passed ready invalid same right x y z w result a b c d = rw (a, b, c, d) refl

-- `decrypt` where every check succeeds.
decrypt_passed :
    (k : Crypto) (sm : SecureMessaging) (buffer : Bytes)
    → is_initialized sm ≡ true
    → (secure_response k buffer).invalid ≡ false
    → (get_secured_status_code (secure_response k buffer) == ResponseApdu.get_return_code buffer)
      ≡ true
    → same_bytes
        (generate_mac k sm.mac_initialized
          (response_to_mac k (count sm) (secure_response k buffer)))
        (get_mac (secure_response k buffer))
      ≡ true
    → decrypt k sm buffer ≡ (
      (decrypt_data k (count sm) (secure_response k buffer)).0
          ++ get_secured_status_code_bytes (secure_response k buffer),
      (decrypt_data k (count sm) (secure_response k buffer)).1,
    )
unfolding decrypt
decrypt_passed k sm buffer ready valid same right =
    guards_passed (is_initialized sm) (secure_response k buffer).invalid
      (get_secured_status_code (secure_response k buffer) == ResponseApdu.get_return_code buffer)
      (same_bytes
        (generate_mac k sm.mac_initialized
          (response_to_mac k (count sm) (secure_response k buffer)))
        (get_mac (secure_response k buffer)))
      ([], sm) ([], count sm) ([], count sm) ([], count sm)
      (
        (decrypt_data k (count sm) (secure_response k buffer)).0
            ++ get_secured_status_code_bytes (secure_response k buffer),
        (decrypt_data k (count sm) (secure_response k buffer)).1,
      )
      ready valid same right

-- A response whose objects are read, whose checksum is that of the bytes under it, and whose status
-- the reader knows.
pub decrypt-objects :
    (k : Crypto) (sm : SecureMessaging) (content : Bytes) (sw1 sw2 : ℕ)
    (objects : SecureMessagingResponse) (message mac : Bytes)
    → is_initialized sm ≡ true
    → is_value status_codes (hex_value_from 0 (sw1 ∷ sw2 ∷ [])) ≡ true
    → secure_response k (content ++ sw1 ∷ sw2 ∷ []) ≡ objects
    → objects.invalid ≡ false
    → objects.processing_status ≡ some (sw1 ∷ sw2 ∷ [])
    → objects.checksum ≡ some mac
    → response_to_mac k (count sm) objects ≡ message
    → k.cmac message ≡ some mac
    → decrypt k sm (content ++ sw1 ∷ sw2 ∷ []) ≡ (
      (decrypt_data k (count sm) objects).0 ++ sw1 ∷ sw2 ∷ [],
      (decrypt_data k (count sm) objects).1,
    )
unfolding is_initialized generate_mac get_mac get_secured_status_code get_secured_status_code_bytes
    response_to_mac
decrypt-objects k sm content sw1 sw2 objects message mac ready known read valid status checksum
      covered made =
    let (cipher_ready, mac_ready) = &&-split sm.cipher.initialized sm.mac_initialized ready in
    let buffer = content ++ sw1 ∷ sw2 ∷ [] in
    let code : (get_secured_status_code objects ≡ hex_value_from 0 (sw1 ∷ sw2 ∷ [])) =
      rw valid (ap (λ o. hex_value_from 0 (bytes_or_empty o)) status) in
    let right : (generate_mac k sm.mac_initialized (response_to_mac k (count sm) objects)
        ≡ get_mac objects) =
      rw mac_ready (
        ap (λ m. bytes_or_empty (k.cmac m)) covered
        ∙ ap bytes_or_empty made
        ∙ sym (ap bytes_or_empty checksum)) in
    decrypt_passed k sm buffer ready (ap (λ o. o.invalid) read ∙ valid)
      ((==_iff (get_secured_status_code (secure_response k buffer))
          (ResponseApdu.get_return_code buffer)).1
        (ap get_secured_status_code read ∙ code ∙ sym (get_return_code_lem content sw1 sw2 known)))
      (subst
        (λ o.
          same_bytes (generate_mac k sm.mac_initialized (response_to_mac k (count sm) o))
            (get_mac o)
          ≡ true)
        (sym read)
        (subst (λ m. same_bytes m (get_mac objects) ≡ true) (sym right)
          (same_bytes_refl (get_mac objects))))
    ∙ ap
        (λ o. (
          (decrypt_data k (count sm) o).0 ++ get_secured_status_code_bytes o,
          (decrypt_data k (count sm) o).1,
        ))
        read
    ∙ ap
        (λ o. (
          (decrypt_data k (count sm) objects).0 ++ bytes_or_empty o,
          (decrypt_data k (count sm) objects).1,
        ))
        status

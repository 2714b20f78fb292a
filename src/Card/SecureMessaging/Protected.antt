-- ===== src/Card/SecureMessaging/Protected.antt =====
-- A response that a card protects in the way of TR-03110 part 3, and SecureMessaging::decrypt on it.
use ausweis_app.Prelude.{
  ℕ, ◌%◌, ◌≡◌, ◌<◌, refl, sym, ap, ◌∙◌, subst, true, false, not, Option, none, some, [], ◌∷◌, ◌++◌,
  arith, ==_iff, &&-split, if◌then◌else◌, length, is_empty, drop-append, replicate,
}
use ausweis_app.Bytes.{Bytes}
use ausweis_app.Card.Crypto.{Crypto, IsLawful}
use ausweis_app.Card.ResponseApdu.{status_codes, is_value, hex_value_from}
use ausweis_app.Card.SymmetricCipher.{bytes_or_empty, decrypt_blocks}
use ausweis_app.Card.SecureMessaging.{
  SecureMessaging, SecureMessagingResponse, is_initialized, count, decrypt, decrypt_data,
  secure_response, read_objects, read_status, encode_stored, get_send_sequence_counter,
  response_to_mac, get_encrypted_data,
}
use ausweis_app.Card.SecureMessaging.Standard.{
  counter_block, next_counter, iso_padded, pad-iso_padded, set_encrypted_iv_lem,
}
use ausweis_app.Card.SecureMessaging.Objects.{
  append-nonempty, append-nonempty_left, get_data_lem, read_status_lem, decrypt-objects,
}
use ausweis_app.Card.SecureMessaging.Padding.{pad, unpad, unpad-pad}

-- The object 87 of data: a vector that is the encrypted block of the counter, the padded data
-- encrypted under it, and 01 in front.
pub record EncryptedObject (k : Crypto) (counter : ℕ) (plain data_object : Bytes) : Type 0 where
  pub iv : Bytes
  pub secret : Bytes
  pub iv_made : k.evp_encrypt (replicate k.block_size 0x00) (counter_block k counter) ≡ some iv
  pub secret_made : k.evp_encrypt iv (iso_padded k.block_size plain) ≡ some secret
  pub data_made : k.encode_octets 0x87 (0x01 ∷ secret) ≡ some data_object

-- A response without data has no such object.
abbrev pub IsDataObject : Crypto → ℕ → Bytes → Bytes → Type 0
IsDataObject k counter [] data_object = data_object ≡ []
IsDataObject k counter (x ∷ xs) data_object = EncryptedObject k counter (x ∷ xs) data_object

-- The objects that the card makes of plain data and a status, for a counter.
pub record ProtectedResponse (k : Crypto) (counter : ℕ) (plain status : Bytes) : Type 0 where
  pub data_object : Bytes
  pub status_object : Bytes
  pub mac : Bytes
  pub mac_object : Bytes
  pub data_made : IsDataObject k counter plain data_object
  pub status_made : k.encode_octets 0x99 status ≡ some status_object
  pub mac_made :
      k.cmac (counter_block k counter ++ iso_padded k.block_size (data_object ++ status_object))
      ≡ some mac
  pub mac_object_made : k.encode_octets 0x8e mac ≡ some mac_object

-- The whole response, the status last.
abbrev pub response_bytes :
    (k : Crypto) (counter : ℕ) (plain : Bytes) (sw1 sw2 : ℕ)
    → ProtectedResponse k counter plain (sw1 ∷ sw2 ∷ [])
    → Bytes
response_bytes k counter plain sw1 sw2 r =
    (r.data_object ++ (r.status_object ++ r.mac_object)) ++ sw1 ∷ sw2 ∷ []

-- The vector that is left: the one of the response, or the old one where it has no data.
abbrev pub vector_left :
    (k : Crypto) (counter : ℕ) (plain data_object old : Bytes)
    → IsDataObject k counter plain data_object
    → Bytes
vector_left k counter [] data_object old made = old
vector_left k counter (x ∷ xs) data_object old made = made.iv

abbrev objects_of : Bytes → Option Bytes → ℕ → ℕ → Bytes → SecureMessagingResponse
objects_of buffer value sw1 sw2 mac = record {
  buffer = buffer;
  invalid = false;
  encrypted_data = value;
  processing_status = some (sw1 ∷ sw2 ∷ []);
  checksum = some mac;
}

filled : (bytes : Bytes) → 0 < length bytes → is_empty bytes ≡ false
filled [] h = ground arith
filled (x ∷ xs) h = refl

block_size_pos : (k : Crypto) → IsLawful k → 0 < k.block_size
block_size_pos k law = omega (arith, law.block_size_min)

-- The encrypted data.
module _ (k : Crypto) (law : IsLawful k) (sm : SecureMessaging) (plain data_object : Bytes)
    (e : EncryptedObject k sm.send_sequence_counter plain data_object)
    (ready : sm.cipher.initialized ≡ true) where
  with_vector : SecureMessaging
  with_vector = record sm { cipher = record sm.cipher { iv = e.iv } }

  length-secret : length e.secret ≡ length (pad k.block_size plain)
  length-secret =
      law.length-encrypt e.iv (iso_padded k.block_size plain) e.secret e.secret_made
      ∙ ap length (sym (pad-iso_padded k.block_size plain))

  secret-filled : is_empty e.secret ≡ false
  secret-filled = filled e.secret (
      subst (λ n. 0 < n) (sym length-secret)
        (longer (unpad-pad k.block_size plain (block_size_pos k law)).1))
    where
      longer : {m n : ℕ} → m < n → 0 < n
      longer {m = m} {n = n} h = omega arith

  decrypt_blocks_lem : decrypt_blocks k with_vector.cipher e.secret ≡ pad k.block_size plain
  unfolding decrypt_blocks with_vector
  decrypt_blocks_lem = rw ready (
      rw
        ((==_iff (length e.secret % k.block_size) 0).1 (
          ap (λ n. n % k.block_size) length-secret
          ∙ (unpad-pad k.block_size plain (block_size_pos k law)).0))
        (ap bytes_or_empty
            (law.decrypt-encrypt e.iv (iso_padded k.block_size plain) e.secret e.secret_made)
          ∙ sym (pad-iso_padded k.block_size plain)))

  decrypt_data_lem :
      (buffer mac : Bytes) (sw1 sw2 : ℕ)
      → decrypt_data k sm (objects_of buffer (some (0x01 ∷ e.secret)) sw1 sw2 mac)
        ≡ (plain, with_vector)
  unfolding decrypt_data get_encrypted_data with_vector
  decrypt_data_lem buffer mac sw1 sw2 = rw secret-filled (
      ap (λ after. (unpad k.block_size (decrypt_blocks k after.cipher e.secret), after))
        (set_encrypted_iv_lem k law sm e.iv ready e.iv_made)
      ∙ ap (λ bytes. (unpad k.block_size bytes, with_vector)) decrypt_blocks_lem
      ∙ ap (λ bytes. (bytes, with_vector)) (unpad-pad k.block_size plain (block_size_pos k law)).2)

-- What is read of a response, with data and without.
module _ (k : Crypto) (law : IsLawful k) (counter : ℕ) (plain : Bytes) (sw1 sw2 : ℕ)
    (r : ProtectedResponse k counter plain (sw1 ∷ sw2 ∷ [])) where
  empty_response : Bytes → SecureMessagingResponse
  empty_response buffer = record {
    buffer = buffer;
    invalid = true;
    encrypted_data = none;
    processing_status = none;
    checksum = none;
  }

  behind_data :
      (response : SecureMessagingResponse)
      → read_status k response (r.status_object ++ r.mac_object) ≡ record response {
        processing_status = some (sw1 ∷ sw2 ∷ []);
        checksum = some r.mac;
        invalid = false;
      }
  behind_data response =
      read_status_lem k law sw1 sw2 r.status_object
        (counter_block k counter ++ iso_padded k.block_size (r.data_object ++ r.status_object))
        r.mac r.mac_object r.status_made r.mac_made r.mac_object_made response

  status-filled : is_empty (r.status_object ++ r.mac_object) ≡ false
  status-filled =
      append-nonempty_left r.status_object r.mac_object
        (law.encode_nonempty 0x99 (sw1 ∷ sw2 ∷ []) r.status_object r.status_made)

  secure_response_lem :
      (value : Option Bytes)
      → read_objects k
          (empty_response (response_bytes k counter plain sw1 sw2 r))
          (r.data_object ++ (r.status_object ++ r.mac_object))
        ≡ objects_of (response_bytes k counter plain sw1 sw2 r) value sw1 sw2 r.mac
      → secure_response k (response_bytes k counter plain sw1 sw2 r)
        ≡ objects_of (response_bytes k counter plain sw1 sw2 r) value sw1 sw2 r.mac
  unfolding secure_response empty_response
  secure_response_lem value read =
      rw (get_data_lem (r.data_object ++ (r.status_object ++ r.mac_object)) sw1 sw2)
        (rw (append-nonempty r.data_object (r.status_object ++ r.mac_object) status-filled) read)

  -- Without data: no object 87 is decoded at the head.
  read_objects-none :
      (response : SecureMessagingResponse)
      → read_objects k response (r.status_object ++ r.mac_object) ≡ record response {
        processing_status = some (sw1 ∷ sw2 ∷ []);
        checksum = some r.mac;
        invalid = false;
      }
  unfolding read_objects
  read_objects-none response =
      let absent =
        law.decode-encode_ne 0x99 0x87 (sw1 ∷ sw2 ∷ []) r.status_object r.mac_object (ground arith)
          r.status_made in
      rw (absent, read_objects) (behind_data response)

  read_objects-some :
      (secret : Bytes)
      → k.encode_octets 0x87 (0x01 ∷ secret) ≡ some r.data_object
      → (response : SecureMessagingResponse)
      → read_objects k response (r.data_object ++ (r.status_object ++ r.mac_object))
        ≡ record response {
          encrypted_data = some (0x01 ∷ secret);
          processing_status = some (sw1 ∷ sw2 ∷ []);
          checksum = some r.mac;
          invalid = false;
        }
  unfolding read_objects
  read_objects-some secret made response =
      let read =
        law.decode-encode 0x87 (0x01 ∷ secret) r.data_object (r.status_object ++ r.mac_object)
          made in
      let left = drop-append r.data_object (r.status_object ++ r.mac_object) in
      let rest = behind_data (record response { encrypted_data = some (0x01 ∷ secret) }) in
      ground arith

  -- The bytes under the checksum.
  covered :
      (sm : SecureMessaging) (value : Option Bytes) (buffer : Bytes)
      → sm.send_sequence_counter ≡ counter
      → (if not (is_empty (get_encrypted_data (objects_of buffer value sw1 sw2 r.mac)))
          then encode_stored k 0x87 value
          else [])
        ≡ r.data_object
      → response_to_mac k sm (objects_of buffer value sw1 sw2 r.mac)
        ≡ counter_block k counter ++ iso_padded k.block_size (r.data_object ++ r.status_object)
  unfolding response_to_mac get_send_sequence_counter
  covered sm value buffer at_counter kept =
      ap (λ o. counter_block k sm.send_sequence_counter ++ pad k.block_size o)
        (ap (λ d. d ++ encode_stored k 0x99 (some (sw1 ∷ sw2 ∷ []))) kept
          ∙ ap (λ o. r.data_object ++ bytes_or_empty o) r.status_made)
      ∙ ap (λ n. counter_block k n ++ pad k.block_size (r.data_object ++ r.status_object))
          at_counter
      ∙ ap (λ padded. counter_block k counter ++ padded)
          (pad-iso_padded k.block_size (r.data_object ++ r.status_object))

-- For lawful cryptography and initialized keys, take a response that the card protects as the
-- standard says: for the counter behind that of the state, modulo 2 ^ 32, the data padded and
-- encrypted under a vector that is the encrypted counter block, no data object where there is
-- no data, and a checksum over the counter block, the data object and the status object. If the
-- reader knows the status, decrypt returns the data and the status, and leaves that counter
-- and, where there was data, that vector.
pub decrypt-ProtectedResponse :
    (k : Crypto) (law : IsLawful k) (sm : SecureMessaging) (plain : Bytes) (sw1 sw2 : ℕ)
    (r : ProtectedResponse k (next_counter sm.send_sequence_counter) plain (sw1 ∷ sw2 ∷ []))
    → is_initialized sm ≡ true
    → is_value status_codes (hex_value_from 0 (sw1 ∷ sw2 ∷ [])) ≡ true
    → let next = next_counter sm.send_sequence_counter in
      decrypt k sm (response_bytes k next plain sw1 sw2 r) ≡ (
        plain ++ sw1 ∷ sw2 ∷ [],
        record sm {
          cipher = record sm.cipher {
            iv = vector_left k next plain r.data_object sm.cipher.iv r.data_made;
          };
          send_sequence_counter = next;
        },
      )
unfolding is_initialized get_encrypted_data decrypt_data empty_response with_vector
decrypt-ProtectedResponse k law sm [] sw1 sw2 r ready known =
    let next = next_counter sm.send_sequence_counter in
    let buffer = response_bytes k next [] sw1 sw2 r in
    let read = secure_response_lem k law next [] sw1 sw2 r none (
      ap
        (λ head.
          read_objects k (empty_response k law next [] sw1 sw2 r buffer)
            (head ++ (r.status_object ++ r.mac_object)))
        r.data_made
      ∙ read_objects-none k law next [] sw1 sw2 r
          (empty_response k law next [] sw1 sw2 r buffer)) in
    decrypt-objects k sm (r.data_object ++ (r.status_object ++ r.mac_object)) sw1 sw2
      (objects_of buffer none sw1 sw2 r.mac)
      (counter_block k next ++ iso_padded k.block_size (r.data_object ++ r.status_object)) r.mac
      ready known read refl refl refl
      (covered k law next [] sw1 sw2 r (count sm) none buffer refl (sym r.data_made)) r.mac_made
decrypt-ProtectedResponse k law sm (x ∷ xs) sw1 sw2 r ready known =
    let next = next_counter sm.send_sequence_counter in
    let buffer = response_bytes k next (x ∷ xs) sw1 sw2 r in
    let (cipher_ready, mac_ready) = &&-split sm.cipher.initialized sm.mac_initialized ready in
    let secret = r.data_made.secret in
    let read = secure_response_lem k law next (x ∷ xs) sw1 sw2 r (some (0x01 ∷ secret)) (
      read_objects-some k law next (x ∷ xs) sw1 sw2 r secret r.data_made.data_made
        (empty_response k law next (x ∷ xs) sw1 sw2 r buffer)) in
    let some_secret =
      secret-filled k law (count sm) (x ∷ xs) r.data_object r.data_made cipher_ready in
    decrypt-objects k sm (r.data_object ++ (r.status_object ++ r.mac_object)) sw1 sw2
      (objects_of buffer (some (0x01 ∷ secret)) sw1 sw2 r.mac)
      (counter_block k next ++ iso_padded k.block_size (r.data_object ++ r.status_object)) r.mac
      ready known read refl refl refl
      (covered k law next (x ∷ xs) sw1 sw2 r (count sm) (some (0x01 ∷ secret)) buffer refl
        (rw some_secret (ap bytes_or_empty r.data_made.data_made)))
      r.mac_made
    ∙ ap (λ result. (result.0 ++ sw1 ∷ sw2 ∷ [], result.1))
        (decrypt_data_lem k law (count sm) (x ∷ xs) r.data_object r.data_made cipher_ready buffer
          r.mac sw1 sw2)

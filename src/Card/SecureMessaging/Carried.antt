-- ===== src/Card/SecureMessaging/Carried.antt =====
-- What SecureMessagingResponse reads of a response: the objects that it carries, one behind the other,
-- and the bytes under the checksum of these.
use ausweis_app.Prelude.{
  ℕ, ◌+◌, ◌*◌, ◌≡◌, refl, sym, ap, ◌∙◌, subst, Bool, true, false, Option, none, some, [], ◌∷◌, ◌++◌,
  drop, arith, if◌then◌else◌, length, is_empty,
}
use ausweis_app.Bytes.{Bytes, at}
use ausweis_app.Card.Crypto.{Crypto}
use ausweis_app.Card.ResponseApdu
use ausweis_app.Card.SymmetricCipher.{bytes_or_empty}
use ausweis_app.Card.SecureMessaging.{
  SecureMessaging, SecureMessagingResponse, secure_response, read_objects, read_status,
  read_checksum, response_to_mac, get_send_sequence_counter, get_encrypted_data,
}
use ausweis_app.Card.SecureMessaging.Standard.{counter_block, iso_padded, pad-iso_padded}

module _ (k : Crypto) where
  -- The encoding of an object.
  abbrev pub object : ℕ → Bytes → Bytes
  object tag value = bytes_or_empty (k.encode_octets tag value)

  -- An object 99 of two bytes at the head, and behind it an object 8E of eight.
  abbrev pub CarriesStatus : Bytes → Bytes → Bytes → Type 0
  CarriesStatus rest status mac =
      (k.decode_octets 0x99 rest ≡ some status)
      × (length status ≡ 2)
      × (k.decode_octets 0x8e (drop (length (object 0x99 status)) rest) ≡ some mac)
      × (length mac ≡ 8)

  -- These two, or in front of them an object 87 that begins with 01.
  abbrev pub Carries : Bytes → Option Bytes → Bytes → Bytes → Type 0
  Carries content none status mac =
      (k.decode_octets 0x87 content ≡ none) × CarriesStatus content status mac
  Carries content (some value) status mac =
      (k.decode_octets 0x87 content ≡ some value)
      × ((secret : Bytes) × (value ≡ 0x01 ∷ secret))
      × CarriesStatus (drop (length (object 0x87 value)) content) status mac

  -- The data object under the checksum; one without an encrypted byte is not.
  abbrev pub protected_data : Option Bytes → Bytes
  protected_data none = []
  protected_data (some []) = []
  protected_data (some (x ∷ [])) = []
  protected_data (some (x ∷ y ∷ ys)) = object 0x87 (x ∷ y ∷ ys)

  read_checksum-read :
      (response : SecureMessagingResponse) (rest : Bytes)
      → response.invalid ≡ true
      → (read_checksum k response rest).invalid ≡ false
      → (mac : Bytes) × (k.decode_octets 0x8e rest ≡ some mac)
        × (length mac ≡ 8)
        × (read_checksum k response rest ≡ record response { checksum = some mac; invalid = false })
  unfolding read_checksum
  read_checksum-read response rest h e = by_mac (k.decode_octets 0x8e rest) refl
    where
      by_mac :
          (o : Option Bytes)
          → k.decode_octets 0x8e rest ≡ o
          → (mac : Bytes) × (k.decode_octets 0x8e rest ≡ some mac)
            × (length mac ≡ 8)
            × (read_checksum k response rest
                ≡ record response { checksum = some mac; invalid = false })
      by_mac none d = absurd (ground arith)
      by_mac (some mac) d =
          let eight : (length mac ≡ 8) = ground arith in (mac, d, eight, ground arith)

  read_status-read :
      (response : SecureMessagingResponse) (rest : Bytes)
      → response.invalid ≡ true
      → (read_status k response rest).invalid ≡ false
      → (status mac : Bytes) × CarriesStatus rest status mac
        × (read_status k response rest ≡ record response {
          processing_status = some status;
          checksum = some mac;
          invalid = false;
        })
  unfolding read_status
  read_status-read response rest h e = by_status (k.decode_octets 0x99 rest) refl
    where
      by_status :
          (o : Option Bytes)
          → k.decode_octets 0x99 rest ≡ o
          → (status mac : Bytes) × CarriesStatus rest status mac
            × (read_status k response rest ≡ record response {
              processing_status = some status;
              checksum = some mac;
              invalid = false;
            })
      by_status none d = absurd (ground arith)
      by_status (some status) d =
          let with_status = record response { processing_status = some status } in
          let two : (length status ≡ 2) = ground arith in
          let opened : (read_status k response rest
              ≡ read_checksum k with_status (drop (length (object 0x99 status)) rest)) =
            ground arith in
          let (mac, found, eight, read) =
            read_checksum-read with_status (drop (length (object 0x99 status)) rest) h
              (ap (λ r. r.invalid) (sym opened) ∙ e) in
          (status, mac, (d, two, found, eight), opened ∙ read)

  start : Bytes → SecureMessagingResponse
  start buffer = record {
    buffer = buffer;
    invalid = true;
    encrypted_data = none;
    processing_status = none;
    checksum = none;
  }

  unfoldable pub Reads : Bytes → Bytes → SecureMessagingResponse → Type 0
  Reads buffer content read =
      (value : Option Bytes) × (status mac : Bytes) × Carries content value status mac
      × (read ≡ record {
        buffer = buffer;
        invalid = false;
        encrypted_data = value;
        processing_status = some status;
        checksum = some mac;
      })

  read_objects-Reads :
      (buffer content : Bytes)
      → (read_objects k (start buffer) content).invalid ≡ false
      → Reads buffer content (read_objects k (start buffer) content)
  unfolding read_objects start Reads
  read_objects-Reads buffer content e = by_data (k.decode_octets 0x87 content) refl
    where
      by_data :
          (o : Option Bytes)
          → k.decode_octets 0x87 content ≡ o
          → Reads buffer content (read_objects k (start buffer) content)
      by_data none d =
          let opened : (read_objects k (start buffer) content
              ≡ read_status k (start buffer) content) =
            ground arith in
          let (status, mac, carries, read) =
            read_status-read (start buffer) content refl (ap (λ r. r.invalid) (sym opened) ∙ e) in
          subst (Reads buffer content) (sym opened) (none, status, mac, (d, carries), read)
      by_data (some []) d = absurd (ground arith)
      by_data (some (x ∷ xs)) d =
          let with_data = record (start buffer) { encrypted_data = some (x ∷ xs) } in
          let one : (x ≡ 0x01) = ground arith in
          let opened : (read_objects k (start buffer) content
              ≡ read_status k with_data (drop (length (object 0x87 (x ∷ xs))) content)) =
            ground arith in
          let (status, mac, carries, read) =
            read_status-read with_data (drop (length (object 0x87 (x ∷ xs))) content) refl
              (ap (λ r. r.invalid) (sym opened) ∙ e) in
          subst (Reads buffer content) (sym opened)
            (some (x ∷ xs), status, mac, (d, (xs, ap (λ y. y ∷ xs) one), carries), read)

  pub secure_response-Reads :
      (buffer : Bytes)
      → (secure_response k buffer).invalid ≡ false
      → Reads buffer (ResponseApdu.get_data buffer) (secure_response k buffer)
  unfolding secure_response start
  secure_response-Reads buffer e = with_content (is_empty (ResponseApdu.get_data buffer)) e
    where
      objects : SecureMessagingResponse
      objects = read_objects k (start buffer) (ResponseApdu.get_data buffer)

      with_content :
          (b : Bool)
          → (if b then start buffer else objects).invalid ≡ false
          → Reads buffer (ResponseApdu.get_data buffer) (if b then start buffer else objects)
      with_content true e = absurd (ground arith)
      with_content false e = read_objects-Reads buffer (ResponseApdu.get_data buffer) e

  -- The bytes under the checksum of what was read.
  pub response_to_mac-objects :
      (sm : SecureMessaging) (buffer status mac : Bytes) (value : Option Bytes)
      → response_to_mac k sm (record {
        buffer = buffer;
        invalid = false;
        encrypted_data = value;
        processing_status = some status;
        checksum = some mac;
      })
        ≡ counter_block k sm.send_sequence_counter
          ++ iso_padded k.block_size (protected_data value ++ object 0x99 status)
  unfolding response_to_mac get_send_sequence_counter get_encrypted_data
  response_to_mac-objects sm buffer status mac none =
      ap (λ padded. counter_block k sm.send_sequence_counter ++ padded)
        (pad-iso_padded k.block_size (object 0x99 status))
  response_to_mac-objects sm buffer status mac (some []) =
      ap (λ padded. counter_block k sm.send_sequence_counter ++ padded)
        (pad-iso_padded k.block_size (object 0x99 status))
  response_to_mac-objects sm buffer status mac (some (x ∷ [])) =
      ap (λ padded. counter_block k sm.send_sequence_counter ++ padded)
        (pad-iso_padded k.block_size (object 0x99 status))
  response_to_mac-objects sm buffer status mac (some (x ∷ y ∷ ys)) =
      ap (λ padded. counter_block k sm.send_sequence_counter ++ padded)
        (pad-iso_padded k.block_size (object 0x87 (x ∷ y ∷ ys) ++ object 0x99 status))

  pub two_bytes :
      (status : Bytes)
      → length status ≡ 2
      → ResponseApdu.hex_value_from 0 status ≡ at status 0 * 256 + at status 1
  unfolding ResponseApdu.hex_value_from
  two_bytes [] h = absurd (ground arith)
  two_bytes (x ∷ []) h = absurd (ground arith)
  two_bytes (x ∷ y ∷ []) h = omega arith
  two_bytes (x ∷ y ∷ z ∷ zs) h = absurd (ground arith)

  pub carried_status :
      (content status mac : Bytes) (value : Option Bytes)
      → Carries content value status mac
      → (length status ≡ 2) × (length mac ≡ 8)
  carried_status content status mac none (absent, (found, two, behind, eight)) = (two, eight)
  carried_status content status mac (some value) (there, one, (found, two, behind, eight)) =
      (two, eight)

-- ===== src/Card/SecureMessaging/Checks.antt =====
-- SecureMessaging::encrypt and SecureMessaging::decrypt: the send sequence counter, and the checks
-- that an accepted response has passed.
use ausweis_app.Prelude.{
  ◌+◌, ◌*◌, ◌%◌, ◌^◌, ◌≡◌, sym, ap, ◌∙◌, Bool, true, false, Option, some, ◌++◌, arith, ◌==◌, ==_iff,
  Bool-cases, inl, inr, length, is_empty,
}
use ausweis_app.Bytes.{Bytes, at, same_bytes, same_bytes_lem}
use ausweis_app.Card.Crypto.{Crypto}
use ausweis_app.Card.CommandApdu
use ausweis_app.Card.ResponseApdu
use ausweis_app.Card.SymmetricCipher.{generate_mac}
use ausweis_app.Card.SecureMessaging.{
  SecureMessaging, SecureMessagingResponse, is_initialized, count, encrypt, encrypt_data, decrypt,
  decrypt_data, set_encrypted_iv, secure_response, response_to_mac, get_mac,
  get_secured_status_code, get_secured_status_code_bytes,
}
use ausweis_app.Card.SecureMessaging.Standard.{counter_block, next_counter, iso_padded}
use ausweis_app.Card.SecureMessaging.Carried.{
  object, Carries, protected_data, Reads, secure_response-Reads, response_to_mac-objects, two_bytes,
  carried_status,
}

module _ (k : Crypto) where
  encrypt_data-counter :
      (sm : SecureMessaging) (plain : Bytes)
      → (encrypt_data k sm plain).1.send_sequence_counter ≡ sm.send_sequence_counter
  unfolding encrypt_data set_encrypted_iv
  encrypt_data-counter sm plain = elim (Bool-cases (is_empty plain)) [ inl e ↦ rw e | inr e ↦ rw e ]

  decrypt_data-counter :
      (sm : SecureMessaging) (response : SecureMessagingResponse)
      → (decrypt_data k sm response).1.send_sequence_counter ≡ sm.send_sequence_counter
  unfolding decrypt_data set_encrypted_iv
  decrypt_data-counter sm response = ground arith

  decrypt-counter :
      (sm : SecureMessaging) (buffer : Bytes)
      → is_initialized sm ≡ true
      → (decrypt k sm buffer).1.send_sequence_counter ≡ (sm.send_sequence_counter + 1) % 2 ^ 32
  unfolding decrypt
  decrypt-counter sm buffer h = ground arith

  -- Once both keys are set, every encrypt and every decrypt moves the send sequence counter by
  -- one modulo 2 ^ 32, whatever its outcome.
  pub counter_lem :
      (sm : SecureMessaging) (command response : Bytes)
      → is_initialized sm ≡ true
      → ((encrypt k sm command).1.send_sequence_counter ≡ (sm.send_sequence_counter + 1) % 2 ^ 32)
        × ((decrypt k sm response).1.send_sequence_counter
            ≡ (sm.send_sequence_counter + 1) % 2 ^ 32)
  unfolding encrypt
  counter_lem sm command response h = (
    rw h (encrypt_data-counter (count sm) (CommandApdu.get_data command)),
    decrypt-counter sm response h,
  )

  -- The tests that `decrypt` makes before it decrypts.
  decrypt-tests :
      (sm : SecureMessaging) (buffer : Bytes)
      → is_empty (decrypt k sm buffer).0 ≡ false
      → ((secure_response k buffer).invalid ≡ false)
        × ((get_secured_status_code (secure_response k buffer)
              == ResponseApdu.get_return_code buffer)
            ≡ true)
        × (same_bytes
              (generate_mac k sm.mac_initialized
                (response_to_mac k (count sm) (secure_response k buffer)))
              (get_mac (secure_response k buffer))
            ≡ true)
  unfolding decrypt
  decrypt-tests sm buffer h = ground arith

  generate_mac-some :
      (initialized : Bool) (message mac : Bytes)
      → generate_mac k initialized message ≡ mac
      → length mac ≡ 8
      → k.cmac message ≡ some mac
  unfolding generate_mac
  generate_mac-some initialized message mac h e = ground arith

  -- A response is decrypted to something only if it carries, one behind the other, at most an
  -- encrypted data object that begins with 01, a status of two bytes and a checksum of eight;
  -- if the checksum is the MAC of the block of the counter behind that of the state, modulo 2 ^
  -- 32, and of the padded data object, left out where it holds nothing encrypted, and status
  -- object; and if that status is the return code of the response.
  pub decrypt-cmac :
      (sm : SecureMessaging) (buffer : Bytes)
      → is_empty (decrypt k sm buffer).0 ≡ false
      → (value : Option Bytes) × (status mac : Bytes) × Carries k
          (ResponseApdu.get_data buffer)
          value
          status
          mac
        × (k.cmac (
              counter_block k (next_counter sm.send_sequence_counter)
              ++ iso_padded k.block_size (protected_data k value ++ object k 0x99 status))
            ≡ some mac)
        × (at status 0 * 256 + at status 1 ≡ ResponseApdu.get_return_code buffer)
  unfolding Reads get_secured_status_code get_secured_status_code_bytes get_mac
  decrypt-cmac sm buffer h =
      let (valid, same_status, checksum) = decrypt-tests sm buffer h in
      let (value, status, mac, carries, read) = secure_response-Reads k buffer valid in
      let (two, eight) = carried_status k (ResponseApdu.get_data buffer) status mac value carries in
      let message =
        counter_block k (next_counter sm.send_sequence_counter)
        ++ iso_padded k.block_size (protected_data k value ++ object k 0x99 status) in
      let covered : (response_to_mac k (count sm) (secure_response k buffer) ≡ message) =
        ap (response_to_mac k (count sm)) read
        ∙ response_to_mac-objects k (count sm) buffer status mac value in
      let right : (generate_mac k sm.mac_initialized message ≡ mac) =
        ap (generate_mac k sm.mac_initialized) (sym covered)
        ∙ same_bytes_lem
            (generate_mac k sm.mac_initialized
              (response_to_mac k (count sm) (secure_response k buffer)))
            (get_mac (secure_response k buffer)) checksum
        ∙ ap get_mac read in
      (
        value,
        status,
        mac,
        carries,
        generate_mac-some sm.mac_initialized message mac right eight,
        sym (two_bytes k status two)
            ∙ ap get_secured_status_code (sym read)
            ∙ (==_iff (get_secured_status_code (secure_response k buffer))
                  (ResponseApdu.get_return_code buffer)).0
                same_status,
      )

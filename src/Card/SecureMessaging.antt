-- ===== src/Card/SecureMessaging.antt =====
-- card/base/pace/SecureMessaging.cpp and card/base/SecureMessagingResponse.cpp: the protection of
-- commands and responses of TR-03110 part 3. A `QByteArray` that may be null is an `Option`.
pub mod Padding
pub mod Standard
pub mod Objects
pub mod Carried
pub mod Checks
pub mod Protected
pub mod Examples
use ausweis_app.Prelude.{
  ℕ, ◌+◌, ◌-◌, ◌*◌, ◌/◌, ◌%◌, ◌^◌, Bool, true, false, not, ◌&&◌, Option, none, some, List, [], ◌∷◌,
  ◌++◌, ltb, ◌==◌, if◌then◌else◌, length, is_empty, replicate, drop,
}
use ausweis_app.Bytes.{Bytes, at, same_bytes, to_big_endian32}
use ausweis_app.Card.Crypto.{Crypto}
use ausweis_app.Card.CommandApdu
use ausweis_app.Card.CommandApdu.{no_le, short_max_le, extended_max_le, cla_secure_messaging}
use ausweis_app.Card.ResponseApdu
use ausweis_app.Card.ResponseApdu.StatusCode
use ausweis_app.Card.SymmetricCipher.{
  SymmetricCipher, bytes_or_empty, set_iv, encrypt_blocks, decrypt_blocks, generate_mac,
}
use ausweis_app.Card.SecureMessaging.Padding.{pad, unpad}

pub record SecureMessaging : Type 0 where
  pub cipher : SymmetricCipher
  pub mac_initialized : Bool
  pub send_sequence_counter : ℕ  -- quint32

-- The tags of the data objects.
abbrev pub tag_encrypted_data : ℕ
tag_encrypted_data = 0x87

abbrev pub tag_protected_le : ℕ
tag_protected_le = 0x97

abbrev pub tag_processing_status : ℕ
tag_processing_status = 0x99

abbrev pub tag_checksum : ℕ
tag_checksum = 0x8e

unfoldable pub is_initialized : SecureMessaging → Bool
is_initialized sm = sm.cipher.initialized && sm.mac_initialized

-- `++mSendSequenceCounter`, which wraps at 2 ^ 32.
abbrev pub count : SecureMessaging → SecureMessaging
count sm = record sm { send_sequence_counter = (sm.send_sequence_counter + 1) % 2 ^ 32 }

-- `(CLA & 0xF0) | 0x0c` is the high half of the byte with 12 in the low half.
unfoldable pub create_secured_header : Bytes → Bytes
create_secured_header command =
    (CommandApdu.get_cla command / 16 % 16 * 16 + cla_secure_messaging)
    ∷ CommandApdu.get_ins command
    ∷ CommandApdu.get_p1 command
    ∷ CommandApdu.get_p2 command
    ∷ []

unfoldable pub create_secured_le : ℕ → Bytes
create_secured_le le =
    if ltb no_le le
    then if ltb short_max_le le then le / 256 % 256 ∷ le % 256 ∷ [] else le % 256 ∷ []
    else []

unfoldable pub create_new_le : Bytes → ℕ → ℕ
create_new_le secured_data old_le =
    if CommandApdu.is_extended_length secured_data old_le then extended_max_le else short_max_le

abbrev pub is_null : Option Bytes → Bool
is_null none = true
is_null (some bytes) = false

-- The objects of a protected response, as the constructor leaves them.
pub record SecureMessagingResponse : Type 0 where
  pub buffer : Bytes
  pub invalid : Bool
  pub encrypted_data : Option Bytes
  pub processing_status : Option Bytes
  pub checksum : Option Bytes

-- `Asn1OctetStringUtil::getValue(mEncryptedData).mid(1)`
unfoldable pub get_encrypted_data : SecureMessagingResponse → Bytes
get_encrypted_data response = drop 1 (bytes_or_empty response.encrypted_data)

unfoldable pub get_mac : SecureMessagingResponse → Bytes
get_mac response = bytes_or_empty response.checksum

unfoldable pub get_secured_status_code_bytes : SecureMessagingResponse → Bytes
get_secured_status_code_bytes response = bytes_or_empty response.processing_status

unfoldable pub get_secured_status_code : SecureMessagingResponse → ℕ
unfolding get_secured_status_code_bytes
get_secured_status_code response =
    if response.invalid
    then StatusCode.invalid_sm_objects
    else ResponseApdu.hex_value_from 0 (get_secured_status_code_bytes response)

module _ (k : Crypto) where
  -- `encodeObject(mObject.data())`, which is empty for a null object.
  abbrev pub encode_stored : ℕ → Option Bytes → Bytes
  encode_stored tag none = []
  encode_stored tag (some value) = bytes_or_empty (k.encode_octets tag value)

  -- The last part of the constructor: the checksum at the head of what is left.
  unfoldable pub read_checksum : SecureMessagingResponse → Bytes → SecureMessagingResponse
  read_checksum response rest = elim (k.decode_octets tag_checksum rest) [
    | none ↦ response
    | some mac ↦ record response { checksum = some mac; invalid = not (length mac == 8) }
  ]

  unfoldable pub read_status : SecureMessagingResponse → Bytes → SecureMessagingResponse
  unfolding read_checksum
  read_status response rest = elim (k.decode_octets tag_processing_status rest) [
    | none ↦ response
    | some status ↦
        let with_status = record response { processing_status = some status } in
        if length status == 2
        then read_checksum with_status
            (drop (length (encode_stored tag_processing_status (some status))) rest)
        else with_status
  ]

  unfoldable pub read_objects : SecureMessagingResponse → Bytes → SecureMessagingResponse
  unfolding read_status
  read_objects response rest = elim (k.decode_octets tag_encrypted_data rest) [
    | none ↦ read_status response rest
    | some value ↦
        let with_data = record response { encrypted_data = some value } in
        if is_empty value
        then with_data
        else if not (at value 0 == 0x01)
        then with_data
        else read_status with_data
            (drop (length (encode_stored tag_encrypted_data (some value))) rest)
  ]

  -- `SecureMessagingResponse::SecureMessagingResponse`
  unfoldable pub secure_response : Bytes → SecureMessagingResponse
  unfolding read_objects
  secure_response buffer =
      let response : SecureMessagingResponse = record {
        buffer = buffer;
        invalid = true;
        encrypted_data = none;
        processing_status = none;
        checksum = none;
      } in
      let content = ResponseApdu.get_data buffer in
      if is_empty content then response else read_objects response content

  unfoldable pub get_send_sequence_counter : SecureMessaging → Bytes
  get_send_sequence_counter sm =
      replicate (k.block_size - 4) 0x00 ++ to_big_endian32 sm.send_sequence_counter

  -- `mCipher.setIv(getEncryptedIv())`: the counter is encrypted under a vector of zeros.
  unfoldable pub set_encrypted_iv : SecureMessaging → SecureMessaging
  unfolding set_iv encrypt_blocks get_send_sequence_counter
  set_encrypted_iv sm =
      let zeroed = (set_iv k sm.cipher (replicate k.block_size 0x00)).1 in
      let iv = encrypt_blocks k zeroed (get_send_sequence_counter sm) in
      record sm { cipher = (set_iv k zeroed iv).1 }

  unfoldable pub create_mac : SecureMessaging → Bytes → Option Bytes → Option Bytes → Bytes
  unfolding pad generate_mac get_send_sequence_counter
  create_mac sm header encrypted le =
      let joined = pad k.block_size header ++ bytes_or_empty encrypted ++ bytes_or_empty le in
      let padded =
        if not (is_null encrypted && is_null le) then pad k.block_size joined else joined in
      bytes_or_empty (
        k.encode_octets tag_checksum
          (generate_mac k sm.mac_initialized (get_send_sequence_counter sm ++ padded)))

  -- The protected data object of a command, with the state after the cipher was used.
  unfoldable pub encrypt_data : SecureMessaging → Bytes → Option Bytes × SecureMessaging
  unfolding pad set_encrypted_iv encrypt_blocks
  encrypt_data sm plain =
      if is_empty plain
      then (none, sm)
      else (let ready = set_encrypted_iv sm in
          (
            k.encode_octets tag_encrypted_data
                (0x01 ∷ encrypt_blocks k ready.cipher (pad k.block_size plain)),
            ready,
          ))

  -- `encrypt`: the protected command, which is empty without initialization, and the new state.
  unfoldable pub encrypt : SecureMessaging → Bytes → Bytes × SecureMessaging
  unfolding encrypt_data create_mac
  encrypt sm command =
      if not (is_initialized sm)
      then ([], sm)
      else (let (encrypted, sm') = encrypt_data (count sm) (CommandApdu.get_data command) in
          let header = create_secured_header command in
          let le : Option Bytes =
            if ltb no_le (CommandApdu.get_le command)
            then k.encode_octets tag_protected_le (create_secured_le (CommandApdu.get_le command))
            else none in
          let secured =
            bytes_or_empty encrypted ++ bytes_or_empty le ++ create_mac sm' header encrypted le in
          (
            CommandApdu.build_from_header header secured
                (create_new_le secured (CommandApdu.get_le command)),
            sm',
          ))

  -- The bytes under the checksum of a response.
  unfoldable pub response_to_mac : SecureMessaging → SecureMessagingResponse → Bytes
  unfolding pad get_send_sequence_counter
  response_to_mac sm response =
      let encrypted =
        if not (is_empty (get_encrypted_data response))
        then encode_stored tag_encrypted_data response.encrypted_data
        else [] in
      get_send_sequence_counter sm
      ++ pad k.block_size
          (encrypted ++ encode_stored tag_processing_status response.processing_status)

  -- The plain data of a response whose checksum is right, and the state after the cipher was used.
  unfoldable pub decrypt_data : SecureMessaging → SecureMessagingResponse → Bytes × SecureMessaging
  unfolding unpad set_encrypted_iv decrypt_blocks
  decrypt_data sm response =
      if is_empty (get_encrypted_data response)
      then ([], sm)
      else (let ready = set_encrypted_iv sm in
          (unpad k.block_size (decrypt_blocks k ready.cipher (get_encrypted_data response)), ready))

  -- `decrypt`: the plain response, which is empty where a check fails, and the new state.
  unfoldable pub decrypt : SecureMessaging → Bytes → Bytes × SecureMessaging
  unfolding response_to_mac decrypt_data same_bytes
  decrypt sm buffer =
      if not (is_initialized sm)
      then ([], sm)
      else (let response = secure_response buffer in
          if response.invalid
          then ([], count sm)
          else if not (get_secured_status_code response == ResponseApdu.get_return_code buffer)
          then ([], count sm)
          else if not (
              same_bytes (generate_mac k sm.mac_initialized (response_to_mac (count sm) response))
                (get_mac response))
          then ([], count sm)
          else (let (plain, sm') = decrypt_data (count sm) response in
              (plain ++ get_secured_status_code_bytes response, sm')))

-- ===== src/Card/PaceInput/RoundTrip.antt =====
-- EstablishPaceChannel.cpp: the input data that one side writes is what the other reads.
use mathlib.Core.List.{append-nil}
use ausweis_app.Prelude.{
  ℕ, ◌+◌, ◌≤◌, ◌≡◌, refl, sym, ◌∙◌, true, [], ◌∷◌, ◌++◌, arith, le→ltb, ==_iff, length,
  length-append, drop,
}
use ausweis_app.Bytes.{Bytes}
use ausweis_app.Card.PasswordId.{PacePasswordId, password_value, password_of_value-password_value}
use ausweis_app.Card.LengthValue.{
  to_little_endian, field, read_byte_array-field, drop-field, length-field,
}
use ausweis_app.Card.PaceInput.{
  EstablishPaceChannel, from_input_fields, from_input_data, create_input_data,
}

module _ (channel : EstablishPaceChannel) where
  open channel use {password_id, chat, certificate_description, password}

  abbrev behind_password : Bytes
  behind_password = field 2 certificate_description

  abbrev behind_chat : Bytes
  behind_chat = field 1 password ++ behind_password

  abbrev fields : Bytes
  fields = password_value password_id ∷ (field 1 chat ++ behind_chat)

  create_input_data-fields :
      length chat ≤ 0xff
      → length certificate_description ≤ 0xffff
      → create_input_data channel ≡ fields
  unfolding create_input_data to_little_endian
  create_input_data-fields hc hd =
      rw (le→ltb 0xff (length chat) hc) (rw (le→ltb 0xffff (length certificate_description) hd))

  module _ (hc : length chat ≤ 0xff) (hp : length password ≤ 0xff)
      (hd : length certificate_description ≤ 0xffff) where
    after_chat : ℕ
    after_chat = 1 + 1 + length chat

    after_password : ℕ
    after_password = after_chat + 1 + length password

    from_input_fields_any :
        (old : EstablishPaceChannel)
        → from_input_fields old password_id fields
          ≡ (true, record channel { password = old.password })
    unfolding from_input_fields after_chat after_password
    from_input_fields_any old =
        let e1 : drop 1 fields ≡ field 1 chat ++ behind_chat = refl in
        let e2 = drop-field 1 1 fields chat behind_chat (omega arith) (omega arith) e1 in
        let e3 =
          drop-field 1 after_chat fields password behind_password (omega arith) (omega arith) e2 in
        let e4 : drop after_password fields ≡ field 2 certificate_description ++ [] =
          e3 ∙ sym (append-nil _) in
        rw (read_byte_array-field 1 1 fields chat behind_chat (omega arith) (omega arith) e1) (
          rw
            (read_byte_array-field 1 after_chat fields password behind_password (omega arith)
              (omega arith) e2)
            (rw
              (read_byte_array-field 2 after_password fields certificate_description []
                (omega arith) (omega arith) e4)
              (rw (
                (==_iff (length fields) (after_password + 2 + length certificate_description)).1 (
                  omega (
                    arith,
                    length-field 2 after_password fields certificate_description [] (omega arith)
                        (omega arith) e4,
                  ))))))

    long_enough : 5 ≤ length fields
    unfolding to_little_endian
    long_enough = omega (
      arith,
      length-field 1 1 fields chat behind_chat (omega arith) (omega arith) refl,
      length-append (field 1 password) behind_password,
      length-append (to_little_endian 1 (length password)) password,
      length-append (to_little_endian 2 (length certificate_description)) certificate_description,
    )

    from_input_data-fields :
        (old : EstablishPaceChannel)
        → from_input_data old fields ≡ (true, record channel { password = old.password })
    unfolding from_input_data
    from_input_data-fields old = rw (le→ltb (length fields) 5 long_enough) (
        rw (password_of_value-password_value password_id) (
          from_input_fields_any (record old {
            password_id = PacePasswordId.unknown;
            chat = [];
            certificate_description = [];
          })))

-- If the chat and the password have at most 0xFF bytes and the certificate description at most
-- 0xFFFF, then the input data that createInputData made is accepted by fromInputData with the
-- same password id, chat and certificate description.
pub from_input_data-create_input_data :
    (channel old : EstablishPaceChannel)
    → length channel.chat ≤ 0xff
    → length channel.password ≤ 0xff
    → length channel.certificate_description ≤ 0xffff
    → from_input_data old (create_input_data channel)
      ≡ (true, record channel { password = old.password })
from_input_data-create_input_data channel old hc hp hd =
    rw (create_input_data-fields channel hc hd) (from_input_data-fields channel hc hp hd old)

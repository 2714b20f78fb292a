-- ===== src/Card/Connection.antt =====
-- card/base/CardConnectionWorker.cpp, and the retry counter of card/base/Reader.cpp: the commands that go through a connection, and the state of its
-- secure messaging. The card behind the driver, `Card::transmit`, is the parameter `send`: from its
-- state and a command to the answer and its next state. `none` in place of it is a reader without one.
pub mod Reading
pub mod Secured
mod Examples
use ausweis_app.Prelude.{
  ℕ, zero, suc, ◌+◌, Bool, true, false, not, ◌&&◌, ◌||◌, Option, none, some, List, [], ◌∷◌, ◌++◌,
  if◌then◌else◌, is_empty, length, ◌==◌,
}
use ausweis_app.Bytes.{Bytes}
use ausweis_app.Card.ReturnCode.{CardReturnCode}
use ausweis_app.Card.ResponseApdu.StatusCode
use ausweis_app.Card.ResponseApdu.{get_return_code, get_retry_counter, get_data}
use ausweis_app.Card.Crypto.{Crypto}
use ausweis_app.Card.SecureMessaging.{SecureMessaging, encrypt, decrypt}
use ausweis_app.Card.PasswordId.{PacePasswordId}
use ausweis_app.Workflow.Reader.{ReaderInfo}
use ausweis_app.Card.Commands.{
  FileRef, select, read_binary, reset_retry_counter, mse_builder, set_oid, set_public_key_of,
  set_private_key, manage_security_environment,
}

pub record ResponseApduResult : Type 0 where
  pub return_code : CardReturnCode
  pub response : Bytes

abbrev pub failed : CardReturnCode → ResponseApduResult
failed code = record { return_code = code; response = [] }

pub record CardConnectionWorker (C : Type 0) : Type 0 where
  pub card : Option C
  pub secure_messaging : Option SecureMessaging

-- A connection without secure messaging.
abbrev pub plain_connection : {C : Type 0} → C → CardConnectionWorker C
plain_connection card = record { card = some card; secure_messaging = none }

abbrev pub is_ok : CardReturnCode → Bool
is_ok code = elim code [ CardReturnCode.ok ↦ true | _ ↦ false ]

unfoldable pub stop_secure_messaging :
    {C : Type 0} → CardConnectionWorker C → Bool × CardConnectionWorker C
stop_secure_messaging worker = elim worker.secure_messaging [
  | none ↦ (false, worker)
  | some sm ↦ (true, record worker { secure_messaging = none })
]

-- The password that a wrong one is reported as.
unfoldable pub invalid_password_code : PacePasswordId → CardReturnCode
invalid_password_code id = elim id [
  | PacePasswordId.pace_can ↦ CardReturnCode.invalid_can
  | PacePasswordId.pace_pin ↦ CardReturnCode.invalid_pin
  | PacePasswordId.pace_puk ↦ CardReturnCode.invalid_puk
  | _ ↦ CardReturnCode.unknown
]

module _ {C : Type 0} (k : Crypto) (send : C → Bytes → ResponseApduResult × C) where
  -- `transmit` under secure messaging.
  unfoldable pub transmit_secured :
      C → SecureMessaging → Bytes → ResponseApduResult × CardConnectionWorker C
  transmit_secured card sm command =
      let (secured, sent) = encrypt k sm command in
      if is_empty secured
      then (
        failed CardReturnCode.command_failed,
        record { card = some card; secure_messaging = some sent },
      )
      else (let (result, card') = send card secured in
          let (plain, received) = decrypt k sent result.response in
          if is_empty plain
          then (
            failed CardReturnCode.command_failed,
            record { card = some card'; secure_messaging = none },
          )
          else (
            record result { response = plain },
            record { card = some card'; secure_messaging = some received },
          ))

  unfoldable pub transmit :
      CardConnectionWorker C → Bytes → ResponseApduResult × CardConnectionWorker C
  unfolding transmit_secured
  transmit worker command = elim worker.card [
    | none ↦ (failed CardReturnCode.card_not_found, worker)
    | some card ↦ elim worker.secure_messaging [
      | some sm ↦ transmit_secured card sm command
      | none ↦
          (let (result, card') = send card command in (result, record worker { card = some card' }))
    ]
  ]

  -- One turn of the loop of `readFile`, with the rest of the loop.
  unfoldable pub after_block :
      (CardConnectionWorker C → Bytes → Option (CardReturnCode × Bytes × CardConnectionWorker C))
      → ResponseApduResult
      → CardConnectionWorker C
      → Bytes
      → Option (CardReturnCode × Bytes × CardConnectionWorker C)
  after_block again result worker content =
      let longer = content ++ get_data result.response in
      let status = get_return_code result.response in
      if not (is_ok result.return_code)
      then some (CardReturnCode.command_failed, content, worker)
      else if status == 0x6282
      then some (CardReturnCode.ok, longer, worker)
      else elim (status == StatusCode.success) [
        | true ↦ again worker longer
        | false ↦ some (CardReturnCode.command_failed, longer, worker)
      ]

  -- The loop, with fuel, and the content so far.
  unfoldable pub read_loop :
      ℕ → CardConnectionWorker C → Bytes → Option (CardReturnCode × Bytes × CardConnectionWorker C)
  read_loop zero worker content = none
  read_loop (suc fuel) worker content =
      let (result, worker') = transmit worker (read_binary (length content) 0xff) in
      after_block (read_loop fuel) result worker' content

  unfoldable pub read_file :
      ℕ
      → CardConnectionWorker C
      → FileRef
      → Bytes
      → Option (CardReturnCode × Bytes × CardConnectionWorker C)
  unfolding read_loop
  read_file fuel worker file content = elim worker.card [
    | none ↦ some (CardReturnCode.card_not_found, content, worker)
    | some card ↦
        (let (result, worker') = transmit worker (select file) in
          if not (is_ok result.return_code)
            || not (get_return_code result.response == StatusCode.success)
          then some (CardReturnCode.command_failed, content, worker')
          else read_loop fuel worker' content)
  ]

  -- `destroyPaceChannel` of a basic reader: a command that the card refuses ends the channel.
  unfoldable pub destroy_pace_channel :
      CardConnectionWorker C → CardReturnCode × CardConnectionWorker C
  destroy_pace_channel worker = elim worker.card [
    | none ↦ (CardReturnCode.card_not_found, worker)
    | some card ↦
        (let (stopped, worker') = stop_secure_messaging worker in
          let (result, card') = send card (manage_security_environment (mse_builder 0xf4 0x01)) in
          (result.return_code, record worker' { card = some card' }))
  ]

  -- `setEidPin` of a basic reader.
  unfoldable pub set_eid_pin :
      CardConnectionWorker C → Bytes → ResponseApduResult × CardConnectionWorker C
  unfolding transmit
  set_eid_pin worker new_pin = elim worker.card [
    | none ↦ (failed CardReturnCode.card_not_found, worker)
    | some card ↦
        (let (result, worker') = transmit worker (reset_retry_counter (some new_pin)) in
          if is_ok result.return_code && not (get_return_code result.response == StatusCode.success)
          then (failed CardReturnCode.command_failed, worker')
          else (result, worker'))
  ]

  -- `Reader::getRetryCounter`, with the protocol and the parameter of the first PACE info of the card,
  -- and `Asn1Util::encode`.
  unfoldable pub read_retry_counter :
      (ℕ → Bytes → Bytes)
      → Option (Bytes × Bytes)
      → CardConnectionWorker C
      → CardReturnCode × Option (ℕ × Bool) × CardConnectionWorker C
  unfolding transmit
  read_retry_counter encode none worker = (CardReturnCode.command_failed, none, worker)
  read_retry_counter encode (some (protocol, parameter)) worker =
      let builder = set_private_key encode parameter (
        set_public_key_of encode PacePasswordId.pace_pin
          (set_oid encode protocol (mse_builder 0xc1 0xa4))) in
      let (result, worker') = transmit worker (manage_security_environment builder) in
      if not (is_ok result.return_code)
      then (result.return_code, none, worker')
      else elim (get_retry_counter result.response) [
        | none ↦ (CardReturnCode.command_failed, none, worker')
        | some counter ↦ (
          CardReturnCode.ok,
          some (counter, get_return_code result.response == StatusCode.pin_deactivated),
          worker',
        )
      ]

  -- `updateRetryCounter` of the worker and of its reader, on the counter and the flag of its card.
  unfoldable pub update_retry_counter :
      (ℕ → Bytes → Bytes)
      → Option (Bytes × Bytes)
      → CardConnectionWorker C
      → ReaderInfo
      → CardReturnCode × ReaderInfo × CardConnectionWorker C
  unfolding read_retry_counter
  update_retry_counter encode pace_info worker info = elim worker.card [
    | none ↦ (CardReturnCode.card_not_found, info, worker)
    | some card ↦
        (let (code, found, worker') = read_retry_counter encode pace_info worker in
          elim found [
            | none ↦ (code, info, worker')
            | some (counter, deactivated) ↦ (
              code,
              record info { retry_counter = some counter; pin_deactivated = deactivated },
              worker',
            )
          ])
  ]

-- ===== src/Card/Connection/Secured.antt =====
-- Commands under secure messaging.
use ausweis_app.Prelude.{
  ◌≡◌, ◌⊎◌, inl, inr, refl, false, none, some, [], ◌∷◌, if◌then◌else◌, is_empty, Bool-cases,
}
use ausweis_app.Bytes.{Bytes}
use ausweis_app.Card.ReturnCode.{CardReturnCode}
use ausweis_app.Card.Crypto.{Crypto}
use ausweis_app.Card.SecureMessaging.{SecureMessaging, encrypt, decrypt}
use ausweis_app.Card.Connection.{
  ResponseApduResult, CardConnectionWorker, failed, transmit, transmit_secured,
}

module _ {C : Type 0} (k : Crypto) (send : C → Bytes → ResponseApduResult × C) (card : C)
    (sm : SecureMessaging) (command : Bytes) where
  -- Nothing is sent, or the encrypted command.
  abbrev pub SentSecured : CardConnectionWorker C → Type 0
  SentSecured worker =
      (worker.card ≡ some card) ⊎ (worker.card ≡ some (send card (encrypt k sm command).0).1)

  -- The call fails, or its answer was decrypted to something and the channel goes on.
  abbrev pub Protected : ResponseApduResult → CardConnectionWorker C → Type 0
  Protected result worker =
      (result ≡ failed CardReturnCode.command_failed)
      ⊎ (((received : SecureMessaging) × (worker.secure_messaging ≡ some received))
          × (is_empty result.response ≡ false)
          × (result.response
              ≡ (decrypt k (encrypt k sm command).1
                  (send card (encrypt k sm command).0).0.response).0))

  -- The two outcomes of the decryption.
  received :
      ResponseApduResult → C → Bytes → SecureMessaging → ResponseApduResult × CardConnectionWorker C
  received result after plain sm' =
      if is_empty plain
      then (
        failed CardReturnCode.command_failed,
        record { card = some after; secure_messaging = none },
      )
      else (
        record result { response = plain },
        record { card = some after; secure_messaging = some sm' },
      )

  received-outcome :
      (result : ResponseApduResult) (after : C) (plain : Bytes) (sm' : SecureMessaging)
      → ((received result after plain sm').1.card ≡ some after)
        × (((received result after plain sm').0 ≡ failed CardReturnCode.command_failed)
            ⊎ (((now : SecureMessaging) × ((received result after plain sm').1.secure_messaging
                    ≡ some now))
                × (is_empty (received result after plain sm').0.response ≡ false)
                × ((received result after plain sm').0.response ≡ plain)))
  unfolding received
  received-outcome result after [] sm' = (refl, inl refl)
  received-outcome result after (x ∷ xs) sm' = (refl, inr ((sm', refl), refl, refl))

  -- Under secure messaging, whatever the card answers, transmit sends it nothing but the
  -- encrypted command, and either fails with COMMAND_FAILED and an empty response, or returns
  -- what the answer was decrypted to, which is not empty, and keeps secure messaging.
  pub transmit-Protected :
      let (result, worker) =
        transmit k send (record { card = some card; secure_messaging = some sm }) command in
      SentSecured worker × Protected result worker
  unfolding transmit transmit_secured received
  transmit-Protected = elim (Bool-cases (is_empty (encrypt k sm command).0)) [
    | inl nothing ↦ rw nothing (inl refl, inl refl)
    | inr something ↦
        let answer = send card (encrypt k sm command).0 in
        let decrypted = decrypt k (encrypt k sm command).1 answer.0.response in
        let (sent, outcome) = received-outcome answer.0 answer.1 decrypted.0 decrypted.1 in
        rw something (inr sent, outcome)
  ]

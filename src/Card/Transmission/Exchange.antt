-- ===== src/Card/Transmission/Exchange.antt =====
-- A batch of commands, run to its end.
use ausweis_app.Prelude.{◌≡◌, sym, ap, subst, ◌∙◌, true, List, [], ◌∷◌, ◌++◌, arith}
use mathlib.Core.List.{append-nil, append_assoc}
use ausweis_app.Bytes.{Bytes}
use ausweis_app.Card.ReturnCode.{CardReturnCode}
use ausweis_app.Card.Crypto.{Crypto}
use ausweis_app.Card.Connection.{ResponseApduResult, CardConnectionWorker, is_ok, transmit}
use ausweis_app.Card.Transmission.{InputApduInfo, to_hex, is_acceptable, after_answer, transmit_all}

module _ {C : Type 0} (k : Crypto) (send : C → Bytes → ResponseApduResult × C) where
  -- Every command was answered, each answer acceptable to its command, in the order of the batch.
  data Exchanged
      : List InputApduInfo
        → CardConnectionWorker C
        → List Bytes
        → CardConnectionWorker C
        → Type 0 where
    done : {worker : CardConnectionWorker C} → Exchanged [] worker [] worker
    next :
        (info : InputApduInfo) (infos : List InputApduInfo) (worker after : CardConnectionWorker C)
        (answers : List Bytes)
        → is_ok (transmit k send worker info.input_apdu).0.return_code ≡ true
        → is_acceptable info (transmit k send worker info.input_apdu).0.response ≡ true
        → Exchanged infos (transmit k send worker info.input_apdu).1 answers after
        → Exchanged
            (info ∷ infos)
            worker
            (to_hex (transmit k send worker info.input_apdu).0.response ∷ answers)
            after

  Completed :
      List InputApduInfo
      → CardConnectionWorker C
      → List Bytes
      → CardReturnCode × List Bytes × CardConnectionWorker C
      → Type 0
  Completed infos worker output result =
      (answers : List Bytes) × (result.1 ≡ output ++ answers)
      × Exchanged infos worker answers result.2

  -- The batch goes on after an acceptable answer only.
  after_answer-going_on :
      (again : CardConnectionWorker C
        → List Bytes
        → CardReturnCode × List Bytes × CardConnectionWorker C)
      (info : InputApduInfo) (result : ResponseApduResult) (worker : CardConnectionWorker C)
      (output : List Bytes)
      → is_ok (after_answer k send again info result worker output).0 ≡ true
      → (is_ok result.return_code ≡ true)
        × (is_acceptable info result.response ≡ true)
        × (after_answer k send again info result worker output
            ≡ again worker (output ++ (to_hex result.response ∷ [])))
  unfolding after_answer
  after_answer-going_on again info result worker output h = ground arith

  -- A batch that ends with success has had an acceptable answer to every command, in order, and
  -- returns exactly these answers.
  transmit_all-Completed :
      (infos : List InputApduInfo) (worker : CardConnectionWorker C) (output : List Bytes)
      → is_ok (transmit_all k send infos worker output).0 ≡ true
      → Completed infos worker output (transmit_all k send infos worker output)
  unfolding transmit_all after_answer Completed
  transmit_all-Completed [] worker output h = ([], sym (append-nil output), done)
  transmit_all-Completed (info ∷ infos) worker output h =
      let (result, worker') = transmit k send worker info.input_apdu in
      let (ok, acceptable, goes_on) =
        after_answer-going_on (transmit_all k send infos) info result worker' output h in
      let (answers, listed, exchanged) =
        transmit_all-Completed infos worker' (output ++ (to_hex result.response ∷ []))
          (ap (λ r. is_ok r.0) (sym goes_on) ∙ h) in
      (
        to_hex result.response ∷ answers,
        ap (λ r. r.1) goes_on ∙ listed ∙ append_assoc output (to_hex result.response ∷ []) answers,
        subst (λ r. Exchanged (info ∷ infos) worker (to_hex result.response ∷ answers) r.2)
            (sym goes_on) (next info infos worker _ answers ok acceptable exchanged),
      )

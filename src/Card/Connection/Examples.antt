-- ===== src/Card/Connection/Examples.antt =====
-- A card with a file of two blocks, and a command under secure messaging.
use ausweis_app.Prelude.{
  ℕ, ◌+◌, ◌*◌, ◌<◌, ◌≡◌, refl, some, [], ◌∷◌, ◌==◌, replicate, if◌then◌else◌, arith,
}
use ausweis_app.Bytes.{Bytes, at}
use ausweis_app.Card.ReturnCode.{CardReturnCode}
use ausweis_app.Card.CommandApdu.{build}
use ausweis_app.Card.SecureMessaging.Examples.{small_crypto, ready_state}
use ausweis_app.Card.Commands.{select, get_challenge, ef_card_access, cla}
use ausweis_app.Card.Connection.{ResponseApduResult, plain_connection, transmit, read_file}
use ausweis_app.Card.Connection.Reading.{block_at, read_file-content}
use ausweis_app.Card.Connection.Secured.{SentSecured, Protected, transmit-Protected}

abbrev file : Bytes
file = 0x31 ∷ 0x82 ∷ replicate 298 0x30

-- The card counts the selections.
abbrev small_card : ℕ → Bytes → ResponseApduResult × ℕ
small_card selected command =
    if at command 1 == 0xb0
    then (block_at file (at command 2 * 256 + at command 3), selected)
    else (record { return_code = CardReturnCode.ok; response = 0x90 ∷ 0x00 ∷ [] }, selected + 1)

small_card_reads :
    (p1 p2 : ℕ)
    → p1 < 128
    → p2 < 256
    → small_card 1 (build cla 0xb0 p1 p2 [] 0xff) ≡ (block_at file (p1 * 256 + p2), 1)
unfolding build
small_card_reads p1 p2 h1 h2 = refl

small_card_selects :
    small_card 0 (select ef_card_access)
    ≡ (record { return_code = CardReturnCode.ok; response = 0x90 ∷ 0x00 ∷ [] }, 1)
unfolding select
small_card_selects = refl

read_file-content_example :
    read_file small_crypto small_card 2 (plain_connection 0) ef_card_access []
    ≡ some (CardReturnCode.ok, file, plain_connection 1)
read_file-content_example =
    read_file-content small_crypto small_card 1 file (omega arith) small_card_reads 0 ef_card_access
      2 small_card_selects (omega arith)

transmit-Protected_example :
    let (result, worker) =
      transmit small_crypto small_card
        (record { card = some 0; secure_messaging = some ready_state })
        get_challenge in
    SentSecured small_crypto small_card 0 ready_state get_challenge worker
    × Protected small_crypto small_card 0 ready_state get_challenge result worker
transmit-Protected_example = transmit-Protected small_crypto small_card 0 ready_state get_challenge

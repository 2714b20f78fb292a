-- ===== src/Card/Connection/Reading.antt =====
-- Reading a file of a card, block by block.
use ausweis_app.Prelude.{
  ℕ, zero, suc, ◌+◌, ◌*◌, ◌/◌, ◌%◌, ◌≤◌, ◌<◌, ◌≡◌, refl, ap, ◌∙◌, true, false, some, List, [], ◌∷◌,
  ◌++◌, Bool, ◌==◌, if◌then◌else◌, length, take, drop, take_nil, ltb, le→ltb, lt→ltb, ltb→lt,
  ltb→le, arith, Bool-cases, inl, inr,
}
use native.Mathlib.Nat.{suc-add}
use ausweis_app.Bytes.{Bytes}
use ausweis_app.Card.ReturnCode.{CardReturnCode}
use ausweis_app.Card.ResponseApdu.{get_return_code, get_data, is_value, status_codes}
use ausweis_app.Card.ResponseApdu.Reading.{get_data-response, get_return_code-response}
use ausweis_app.Card.CommandApdu.{build}
use ausweis_app.Card.Crypto.{Crypto}
use ausweis_app.Card.Commands.{FileRef, select, read_binary, cla}
use ausweis_app.Card.Connection.{
  ResponseApduResult, CardConnectionWorker, plain_connection, transmit, after_block, read_loop,
  read_file,
}

module _ {ℓ} {A : Type ℓ} where
  take-add : (m n : ℕ) (xs : List A) → take m xs ++ take n (drop m xs) ≡ take (m + n) xs
  take-add zero n xs = ap (λ i. take i xs) (omega arith)
  take-add (suc m) n [] = rw (suc-add m n) (take_nil n)
  take-add (suc m) n (x ∷ xs) = rw (suc-add m n) (ap (◌∷◌ x) (take-add m n xs))

  take_all : (n : ℕ) (xs : List A) → length xs ≤ n → take n xs ≡ xs
  take_all zero [] h = refl
  take_all (suc n) [] h = refl
  take_all zero (x ∷ xs) h = absurd (omega (arith, h))
  take_all (suc n) (x ∷ xs) h = ap (◌∷◌ x) (take_all n xs (omega (arith, h)))

  length-take : (n : ℕ) (xs : List A) → n ≤ length xs → length (take n xs) ≡ n
  length-take zero xs h = refl
  length-take (suc n) [] h = absurd (omega (arith, h))
  length-take (suc n) (x ∷ xs) h = ap suc (length-take n xs (omega (arith, h)))

-- The answer of a card to READ BINARY of 255 bytes at an offset of a file, as in ISO/IEC 7816-4: at
-- the end of the file and behind it 6B00, an offset outside; else the bytes from there on, with 6282
-- if the file ends before the last of them.
abbrev pub ending : ℕ → ℕ → Bytes
ending size offset =
    if ltb offset size
    then if ltb size (offset + 255) then 0x62 ∷ 0x82 ∷ [] else 0x90 ∷ 0x00 ∷ []
    else 0x6b ∷ 0x00 ∷ []

abbrev pub block_at : Bytes → ℕ → ResponseApduResult
block_at content offset = record {
  return_code = CardReturnCode.ok;
  response = take 255 (drop offset content) ++ ending (length content) offset;
}

-- Its status.
abbrev status_at : ℕ → ℕ → ℕ
status_at size offset =
    if ltb offset size then if ltb size (offset + 255) then 0x6282 else 0x9000 else 0x6b00

-- What readFile makes of a file of a size: where the blocks fill the file, it fails at its end.
abbrev pub outcome : ℕ → CardReturnCode
outcome size = if size % 255 == 0 then CardReturnCode.command_failed else CardReturnCode.ok

-- The data and the status of such an answer.
get_data-block_at :
    (content : Bytes) (offset : ℕ)
    → get_data (block_at content offset).response ≡ take 255 (drop offset content)
get_data-block_at content offset =
    by_place (ltb offset (length content)) (ltb (length content) (offset + 255))
  where
    by_place :
        (inside last : Bool)
        → get_data (
            take 255 (drop offset content)
            ++ (if inside
                then if last then 0x62 ∷ 0x82 ∷ [] else 0x90 ∷ 0x00 ∷ []
                else 0x6b ∷ 0x00 ∷ []))
          ≡ take 255 (drop offset content)
    by_place true true = get_data-response (take 255 (drop offset content)) 0x62 0x82
    by_place true false = get_data-response (take 255 (drop offset content)) 0x90 0x00
    by_place false last = get_data-response (take 255 (drop offset content)) 0x6b 0x00

get_return_code-block_at :
    (content : Bytes) (offset : ℕ)
    → get_return_code (block_at content offset).response ≡ status_at (length content) offset
unfolding is_value status_codes
get_return_code-block_at content offset =
    by_place (ltb offset (length content)) (ltb (length content) (offset + 255))
  where
    by_place :
        (inside last : Bool)
        → get_return_code (
            take 255 (drop offset content)
            ++ (if inside
                then if last then 0x62 ∷ 0x82 ∷ [] else 0x90 ∷ 0x00 ∷ []
                else 0x6b ∷ 0x00 ∷ []))
          ≡ (if inside then if last then 0x6282 else 0x9000 else 0x6b00)
    by_place true true = get_return_code-response (take 255 (drop offset content)) 0x62 0x82
    by_place true false = get_return_code-response (take 255 (drop offset content)) 0x90 0x00
    by_place false last = get_return_code-response (take 255 (drop offset content)) 0x6b 0x00

module _ {C : Type 0} (k : Crypto) (send : C → Bytes → ResponseApduResult × C) (card : C)
    (content : Bytes) (short : length content < 32768)
    (reads : (p1 p2 : ℕ)
      → p1 < 128
      → p2 < 256
      → send card (build cla 0xb0 p1 p2 [] 0xff) ≡ (block_at content (p1 * 256 + p2), card)) where
  wrapped : ResponseApduResult × C → ResponseApduResult × CardConnectionWorker C
  wrapped (result, c) = (result, plain_connection c)

  transmit-read_binary :
      (offset : ℕ)
      → offset < 32768
      → transmit k send (plain_connection card) (read_binary offset 0xff)
        ≡ (block_at content offset, plain_connection card)
  unfolding transmit read_binary wrapped
  transmit-read_binary offset h =
      let answer = reads (offset / 256 % 256) (offset % 256) (omega arith) (omega arith) in
      let spelled : (offset / 256 % 256 * 256 + offset % 256 ≡ offset) = omega (arith, h) in
      ap wrapped (answer ∙ ap (λ i. (block_at content i, card)) spelled)

  joined :
      (offset : ℕ)
      → take offset content ++ get_data (block_at content offset).response
        ≡ take (offset + 255) content
  joined offset =
      ap (λ block. take offset content ++ block) (get_data-block_at content offset)
      ∙ take-add offset 255 content

  -- One turn.
  read_loop-block :
      (fuel offset : ℕ)
      → offset ≤ length content
      → read_loop k send (suc fuel) (plain_connection card) (take offset content)
        ≡ after_block k send
            (read_loop k send fuel)
            (block_at content offset)
            (plain_connection card)
            (take offset content)
  unfolding read_loop
  read_loop-block fuel offset inside =
      ap
        (λ answer.
          after_block k send (read_loop k send fuel) answer.0 answer.1 (take offset content))
        (ap (λ n. transmit k send (plain_connection card) (read_binary n 0xff))
            (length-take offset content inside)
          ∙ transmit-read_binary offset (omega (arith, inside, short)))

  status-block_at :
      (offset : ℕ) (inside last : Bool)
      → ltb offset (length content) ≡ inside
      → ltb (length content) (offset + 255) ≡ last
      → get_return_code (block_at content offset).response
        ≡ (if inside then if last then 0x6282 else 0x9000 else 0x6b00)
  status-block_at offset inside last e e' =
      get_return_code-block_at content offset
      ∙ ap
          (λ b.
            if b then (if ltb (length content) (offset + 255) then 0x6282 else 0x9000) else 0x6b00)
          e
      ∙ ap (λ b. if inside then (if b then 0x6282 else 0x9000) else 0x6b00) e'

  -- The last block, which the file does not fill.
  after_block-last :
      (fuel offset : ℕ)
      → offset < length content
      → length content < offset + 255
      → after_block k send
          (read_loop k send fuel)
          (block_at content offset)
          (plain_connection card)
          (take offset content)
        ≡ some (CardReturnCode.ok, take (offset + 255) content, plain_connection card)
  unfolding after_block
  after_block-last fuel offset inside last =
      rw
        (status-block_at offset true true (lt→ltb offset (length content) inside)
          (lt→ltb (length content) (offset + 255) last))
        (ap (λ longer. some (CardReturnCode.ok, longer, plain_connection card)) (joined offset))

  -- The end of the file, where nothing is left.
  after_block-outside :
      (fuel offset : ℕ)
      → length content ≤ offset
      → after_block k send
          (read_loop k send fuel)
          (block_at content offset)
          (plain_connection card)
          (take offset content)
        ≡ some (CardReturnCode.command_failed, take (offset + 255) content, plain_connection card)
  unfolding after_block
  after_block-outside fuel offset outside =
      rw
        (status-block_at offset false (ltb (length content) (offset + 255))
          (le→ltb offset (length content) outside) refl)
        (ap (λ longer. some (CardReturnCode.command_failed, longer, plain_connection card))
          (joined offset))

  after_block-more :
      (fuel offset : ℕ)
      → offset + 255 ≤ length content
      → after_block k send
          (read_loop k send fuel)
          (block_at content offset)
          (plain_connection card)
          (take offset content)
        ≡ read_loop k send fuel (plain_connection card) (take (offset + 255) content)
  unfolding after_block
  after_block-more fuel offset further =
      rw
        (status-block_at offset true false (lt→ltb offset (length content) (omega (arith, further)))
          (le→ltb (length content) (offset + 255) further))
        (ap (read_loop k send fuel (plain_connection card)) (joined offset))

  -- The turn in which fewer than 255 bytes are left.
  after_block-end :
      (fuel turns : ℕ)
      → 255 * turns ≤ length content
      → length content < 255 * turns + 255
      → after_block k send
          (read_loop k send fuel)
          (block_at content (255 * turns))
          (plain_connection card)
          (take (255 * turns) content)
        ≡ some (outcome (length content), content, plain_connection card)
  after_block-end fuel turns inside last = elim (Bool-cases (ltb (255 * turns) (length content))) [
    | inl partial ↦
        let rest : (length content % 255 == 0) ≡ false = ground (arith, ltb→lt partial) in
        rw rest (
          after_block-last fuel (255 * turns) (ltb→lt partial) last
          ∙ ap (λ whole. some (CardReturnCode.ok, whole, plain_connection card))
              (take_all (255 * turns + 255) content (omega (arith, last))))
    | inr whole ↦
        let none_left : (length content % 255 == 0) ≡ true = ground (arith, ltb→le whole) in
        rw none_left (
          after_block-outside fuel (255 * turns) (ltb→le whole)
          ∙ ap (λ all. some (CardReturnCode.command_failed, all, plain_connection card))
              (take_all (255 * turns + 255) content (omega (arith, last))))
  ]

  read_loop-content :
      (fuel turns : ℕ)
      → 255 * turns ≤ length content
      → length content < 255 * turns + 255 * fuel
      → read_loop k send fuel (plain_connection card) (take (255 * turns) content)
        ≡ some (outcome (length content), content, plain_connection card)
  read_loop-content zero turns inside enough = absurd (omega (arith, inside, enough))
  read_loop-content (suc fuel) turns inside enough =
      elim (Bool-cases (ltb (length content) (255 * turns + 255))) [
        | inl last ↦
            read_loop-block fuel (255 * turns) inside
            ∙ after_block-end fuel turns inside (ltb→lt last)
        | inr longer ↦
            let further : (255 * turns + 255 ≤ length content) = ltb→le longer in
            let next : (255 * turns + 255 ≡ 255 * (turns + 1)) = omega arith in
            read_loop-block fuel (255 * turns) inside
            ∙ after_block-more fuel (255 * turns) further
            ∙ ap (λ n. read_loop k send fuel (plain_connection card) (take n content)) next
            ∙ read_loop-content fuel (turns + 1) (omega (arith, further)) (omega (arith, enough))
      ]

  transmit_plain :
      (start : C) (command : Bytes) (answer : ResponseApduResult) (after : C)
      → send start command ≡ (answer, after)
      → transmit k send (plain_connection start) command ≡ (answer, plain_connection after)
  unfolding transmit wrapped
  transmit_plain start command answer after h = ap wrapped h

  -- On a connection without secure messaging, for a file of fewer than 32768 bytes and a card
  -- that accepts its selection and answers READ BINARY with a P1 below 128 with the 255 bytes
  -- from the offset on, with those up to the end and 6282 where fewer are left, and with 6B00
  -- at the end and behind it: if the turns of its loop, of 255 bytes each, hold more bytes than
  -- the file, readFile collects exactly the content and returns OK, but COMMAND_FAILED where
  -- the size is a multiple of 255, the empty file included.
  pub read_file-content :
      (start : C) (file : FileRef) (fuel : ℕ)
      → send start (select file)
        ≡ (record { return_code = CardReturnCode.ok; response = 0x90 ∷ 0x00 ∷ [] }, card)
      → length content < 255 * fuel
      → read_file k send fuel (plain_connection start) file []
        ≡ some (outcome (length content), content, plain_connection card)
  unfolding read_file is_value status_codes
  read_file-content start file fuel selects enough =
      let selected =
        transmit_plain start (select file)
          (record { return_code = CardReturnCode.ok; response = 0x90 ∷ 0x00 ∷ [] }) card selects in
      let success = get_return_code-response [] 0x90 0x00 in
      rw (selected, success, read_file)
        (read_loop-content fuel 0 (omega arith) (omega (arith, enough)))

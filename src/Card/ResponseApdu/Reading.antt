-- ===== src/Card/ResponseApdu/Reading.antt =====
-- ResponseApdu.cpp: what the getters read from data followed by the two status bytes.
use mathlib.Core.List.{append_assoc}
use ausweis_app.Prelude.{
  ℕ, zero, suc, ◌+◌, ◌-◌, ◌*◌, ◌<◌, ◌≡◌, ◌↔◌, refl, sym, ap, ◌∙◌, false, some, [], ◌∷◌, ◌++◌, arith,
  if◌then◌else◌, length, is_empty, length-append, drop-append, take-append, inl, inr, Bool-cases,
  get_or-drop, le→ltb,
}
use ausweis_app.Bytes.{Bytes, at}
use ausweis_app.Card.ReturnCode.{CardReturnCode}
use ausweis_app.Card.ResponseApdu.StatusCode
use ausweis_app.Card.ResponseApdu.{
  status_codes, sw1_values, is_value, return_code_length, get_data, right, get_return_code,
  get_retry_counter, get_sw1, get_sw2, card_return_code_of, get_card_return_code,
}

append-is_empty : (xs : Bytes) (y : ℕ) (ys : Bytes) → is_empty (xs ++ y ∷ ys) ≡ false
append-is_empty [] y ys = refl
append-is_empty (x ∷ xs) y ys = refl

-- The element behind a prefix.
at-append : (xs : Bytes) (n y : ℕ) (ys : Bytes) → n ≡ length xs → at (xs ++ y ∷ ys) n ≡ y
at-append xs n y ys e =
    rw e (get_or-drop (length xs) (xs ++ y ∷ ys) 0 ∙ ap (λ zs. at zs 0) (drop-append xs (y ∷ ys)))

module _ (payload : Bytes) (sw1 sw2 : ℕ) where
  abbrev pub response : Bytes
  response = payload ++ sw1 ∷ sw2 ∷ []

  length-response : length response ≡ length payload + 2
  length-response = length-append payload (sw1 ∷ sw2 ∷ [])

  payload_length : length response - return_code_length ≡ length payload
  payload_length = omega (arith, length-response)

  right-response : right return_code_length response ≡ sw1 ∷ sw2 ∷ []
  right-response = rw payload_length (drop-append payload (sw1 ∷ sw2 ∷ []))

  pub get_data-response : get_data response ≡ payload
  unfolding get_data
  get_data-response =
      rw (le→ltb (length response) return_code_length (omega (arith, length-response)))
        (rw payload_length (take-append payload (sw1 ∷ sw2 ∷ [])))

  abbrev pub known_code : ℕ
  known_code =
      if is_value status_codes (sw1 * 256 + sw2) then sw1 * 256 + sw2 else StatusCode.invalid

  pub get_return_code-response : get_return_code response ≡ known_code
  unfolding get_return_code
  get_return_code-response = rw (append-is_empty payload sw1 (sw2 ∷ [])) (
      rw right-response
        (ap (λ k. if is_value status_codes k then k else StatusCode.invalid) spelled))
    where
      spelled : (0 * 256 + sw1) * 256 + sw2 ≡ sw1 * 256 + sw2
      spelled = omega arith

  get_sw1-response : get_sw1 response ≡ (if is_value sw1_values sw1 then sw1 else 0x00)
  unfolding get_sw1
  get_sw1-response =
      rw (le→ltb (length response) return_code_length (omega (arith, length-response)))
        (rw (at-append payload (length response - 2) sw1 (sw2 ∷ []) payload_length))

  get_sw2-response : get_sw2 response ≡ sw2
  unfolding get_sw2
  get_sw2-response = rw (le→ltb (length response) 1 (omega (arith, length-response))) (
      rw (← append_assoc payload (sw1 ∷ []) (sw2 ∷ []))
        (at-append (payload ++ sw1 ∷ []) _ sw2 [] last))
    where
      last : length ((payload ++ sw1 ∷ []) ++ sw2 ∷ []) - 1 ≡ length (payload ++ sw1 ∷ [])
      last = omega (arith, length-append (payload ++ sw1 ∷ []) (sw2 ∷ []))

-- For a response APDU that ends with two status bytes, getData gives what stands before them
-- and getSW2 the last byte; getReturnCode gives the two bytes as a number where StatusCode
-- names it and INVALID otherwise, and getSW1 gives the first of them where SW1 names it and 0
-- otherwise.
pub read-response :
    (payload : Bytes) (sw1 sw2 : ℕ)
    → let buffer = payload ++ sw1 ∷ sw2 ∷ [] in
      (get_data buffer ≡ payload)
      × (get_return_code buffer ≡ (
          if is_value status_codes (sw1 * 256 + sw2) then sw1 * 256 + sw2 else StatusCode.invalid))
      × (get_sw1 buffer ≡ (if is_value sw1_values sw1 then sw1 else 0x00))
      × (get_sw2 buffer ≡ sw2)
read-response payload sw1 sw2 = (
  get_data-response payload sw1 sw2,
  get_return_code-response payload sw1 sw2,
  get_sw1-response payload sw1 sw2,
  get_sw2-response payload sw1 sw2,
)

card_return_code_of-ok : (code : ℕ) → card_return_code_of code ≡ CardReturnCode.ok → code ≡ 0x9000
unfolding card_return_code_of
card_return_code_of-ok code h = ground arith

known_success :
    (n : ℕ) → (if is_value status_codes n then n else StatusCode.invalid) ≡ 0x9000 → n ≡ 0x9000
known_success n e = elim (Bool-cases (is_value status_codes n)) [
  | inl known ↦ rw known at e
  | inr other ↦ absurd (invalid-ne-success (rw other at e))
]
  where
    invalid-ne-success : StatusCode.invalid ≡ 0x9000 → ⊥
    invalid-ne-success h = omega arith

-- A response is taken for a success exactly when its status bytes are 90 00.
pub get_card_return_code-ok_iff :
    (payload : Bytes) (sw1 sw2 : ℕ)
    → sw1 < 256
    → sw2 < 256
    → (get_card_return_code (payload ++ sw1 ∷ sw2 ∷ []) ≡ CardReturnCode.ok)
      ↔ ((sw1 ≡ 0x90) × (sw2 ≡ 0x00))
unfolding get_card_return_code status_codes is_value
get_card_return_code-ok_iff payload sw1 sw2 h1 h2 = (
  (λ e.
      let n = known_success (sw1 * 256 + sw2) (
        sym (get_return_code-response payload sw1 sw2)
        ∙ card_return_code_of-ok (get_return_code (payload ++ sw1 ∷ sw2 ∷ [])) e) in
      (omega arith, omega arith)),
  (λ e. rw (get_return_code-response payload sw1 sw2) (rw (e.0, e.1))),
)

-- The status codes 0x63c0 to 0x63c2 behind any data are read as 0 to 2 tries left.
pub get_retry_counter-pin_status :
    (payload : Bytes) (left : ℕ)
    → left < 3
    → get_retry_counter (payload ++ 0x63 ∷ (0xc0 + left) ∷ []) ≡ some left
unfolding get_retry_counter status_codes is_value
get_retry_counter-pin_status payload zero h = rw (get_return_code-response payload 0x63 (0xc0 + 0))
get_retry_counter-pin_status payload (suc zero) h =
    rw (get_return_code-response payload 0x63 (0xc0 + 1))
get_retry_counter-pin_status payload (suc (suc zero)) h =
    rw (get_return_code-response payload 0x63 (0xc0 + 2))
get_retry_counter-pin_status payload (suc (suc (suc left))) h = absurd (omega arith)

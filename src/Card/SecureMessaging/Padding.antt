-- ===== src/Card/SecureMessaging/Padding.antt =====
-- SecureMessaging.cpp: the ISO padding to whole cipher blocks, 0x80 and then zeros.
use ausweis_app.Prelude.{
  ℕ, zero, suc, ◌+◌, ◌-◌, ◌%◌, ◌<◌, ◌≡◌, refl, sym, ap, ◌∙◌, false, not, Option, none, some, [],
  ◌∷◌, ◌++◌, arith, ◌==◌, ==_iff, Bool-cases, inl, inr, if◌then◌else◌, length, length-append,
  length-replicate, replicate, take, take-append,
}
use ausweis_app.Bytes.{Bytes}
use native.Mathlib.Nat.{add-mod_right, mod-add-mod, mod-lt, mod_self}

-- The last index in a list with `x` at its head, from the one in the tail.
abbrev index_before : ℕ → ℕ → Option ℕ → Option ℕ
index_before x y (some i) = some (suc i)
index_before x y none = if x == y then some 0 else none

-- `lastIndexOf`, with `none` for -1.
pub last_index_of : ℕ → Bytes → Option ℕ
last_index_of y [] = none
last_index_of y (x ∷ xs) = index_before x y (last_index_of y xs)

-- `padToCipherBlockSize`
unfoldable pub pad : ℕ → Bytes → Bytes
pad block plain =
    let remainder = length plain % block in
    let size = if remainder == 0 then block else block - remainder in
    plain ++ 0x80 ∷ replicate (size - 1) 0x00

-- `unpadFromCipherBlockSize`
unfoldable pub unpad : ℕ → Bytes → Bytes
unfolding last_index_of
unpad block padded =
    if not (length padded % block == 0)
    then []
    else elim (last_index_of 0x80 padded) [ none ↦ [] | some position ↦ take position padded ]

last_index_of-replicate : (y z n : ℕ) → (z == y) ≡ false → last_index_of y (replicate n z) ≡ none
unfolding last_index_of
last_index_of-replicate y z zero h = refl
last_index_of-replicate y z (suc n) h =
    ap (index_before z y) (last_index_of-replicate y z n h) ∙ rw h

-- The last occurrence is in front of bytes of another value.
last_index_of-append :
    (y z : ℕ) (xs : Bytes) (n : ℕ)
    → (z == y) ≡ false
    → last_index_of y (xs ++ y ∷ replicate n z) ≡ some (length xs)
unfolding last_index_of
last_index_of-append y z [] n h =
    ap (index_before y y) (last_index_of-replicate y z n h) ∙ rw ((==_iff y y).1 refl)
last_index_of-append y z (x ∷ xs) n h = ap (index_before x y) (last_index_of-append y z xs n h)

-- The number of bytes that the padding adds.
abbrev padding_size : ℕ → ℕ → ℕ
padding_size block n = if n % block == 0 then block else block - n % block

add-padding_size : (block n : ℕ) → 0 < block → (n + padding_size block n) % block ≡ 0
add-padding_size block n h = elim (Bool-cases (n % block == 0)) [
  | inl e ↦ rw e (add-mod_right n block ∙ (==_iff (n % block) 0).0 e)
  | inr e ↦ rw e (
      sym (mod-add-mod n block (block - n % block))
      ∙ ap (λ m. m % block) (add_rest (mod-lt n h))
      ∙ mod_self block)
]
  where
    add_rest : {m : ℕ} → m < block → m + (block - m) ≡ block
    add_rest {m = m} less = omega arith

padding_size_pos : (block n : ℕ) → 0 < block → 0 < padding_size block n
padding_size_pos block n h = elim (Bool-cases (n % block == 0)) [
  | inl e ↦ rw e h
  | inr e ↦ rw e (rest_pos (mod-lt n h))
]
  where
    rest_pos : {m : ℕ} → m < block → 0 < block - m
    rest_pos {m = m} less = omega arith

length-pad :
    (block : ℕ) (plain : Bytes)
    → 0 < block
    → length (pad block plain) ≡ length plain + padding_size block (length plain)
unfolding pad
length-pad block plain h =
    let size = padding_size block (length plain) in
    length-append plain (0x80 ∷ replicate (size - 1) 0x00)
    ∙ ap (λ n. length plain + n)
        (ap suc (length-replicate (size - 1) 0x00)
          ∙ one_more (padding_size_pos block (length plain) h))
  where
    one_more : {m : ℕ} → 0 < m → suc (m - 1) ≡ m
    one_more {m = m} pos = omega arith

length_less : {m n size : ℕ} → n ≡ m + size → 0 < size → m < n
length_less {m = m} {n = n} {size = size} e pos = omega arith

unpad_whole :
    (block : ℕ) (padded : Bytes)
    → length padded % block ≡ 0
    → unpad block padded
      ≡ elim (last_index_of 0x80 padded) [ none ↦ [] | some position ↦ take position padded ]
unfolding unpad
unpad_whole block padded e = rw ((==_iff (length padded % block) 0).1 e)

-- For a block of at least one byte, padded data fills whole blocks, is longer than the data,
-- and is unpadded to the data.
pub unpad-pad :
    (block : ℕ) (plain : Bytes)
    → 0 < block
    → (length (pad block plain) % block ≡ 0)
      × (length plain < length (pad block plain))
      × (unpad block (pad block plain) ≡ plain)
unfolding pad
unpad-pad block plain h =
    let size = padding_size block (length plain) in
    let whole : (length (pad block plain) % block ≡ 0) =
      ap (λ n. n % block) (length-pad block plain h) ∙ add-padding_size block (length plain) h in
    (
      whole,
      length_less (length-pad block plain h) (padding_size_pos block (length plain) h),
      unpad_whole block (pad block plain) whole
          ∙ ap (λ o. elim o [ none ↦ [] | some position ↦ take position (pad block plain) ])
              (last_index_of-append 0x80 0x00 plain (size - 1) refl)
          ∙ take-append plain (0x80 ∷ replicate (size - 1) 0x00),
    )

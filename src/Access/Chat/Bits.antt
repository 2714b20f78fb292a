-- ===== src/Access/Chat/Bits.antt =====
-- The bits of a CHAT: what switching one of them does, and what is read of them.
use ausweis_app.Prelude.{
  ℕ, ◌-◌, ◌/◌, ◌%◌, ◌<◌, zero, suc, ◌≡◌, refl, sym, ap, ◌∙◌, Bool, true, false, not, ◌&&◌, ◌||◌,
  List, [], ◌∷◌, ◌==◌, ==_iff, le→ltb, ltb, if◌then◌else◌, length, All, arith, Bool-cases, inl, inr,
  &&-split,
}
use ausweis_app.Bytes.{Bytes, at}
use ausweis_app.Access.Rights.{AccessRight, list_contains}
use ausweis_app.Access.Chat.{bit, set_bit, update, set_template_bit, set_bits}

-- A test that holds up to a bound.
every : (ℕ → Bool) → ℕ → Bool
every test zero = true
every test (suc bound) = test bound && every test bound

below_last : (n bound : ℕ) → n < suc bound → (n == bound) ≡ false → n < bound
below_last n bound small other = ground arith

every-holds :
    (test : ℕ → Bool) (bound : ℕ) → every test bound ≡ true → (n : ℕ) → n < bound → test n ≡ true
unfolding every
every-holds test zero ok n small = absurd (omega arith)
every-holds test (suc bound) ok n small =
    let (last, before) = &&-split (test bound) (every test bound) ok in
    elim (Bool-cases (n == bound)) [
      | inl same ↦ ap test ((==_iff n bound).0 same) ∙ last
      | inr other ↦ every-holds test bound before n (below_last n bound small other)
    ]

pub ltb→lt : {m n : ℕ} → ltb m n ≡ true → m < n
ltb→lt {m = m} {n = n} h = ground arith

same : Bool → Bool → Bool
same true b = b
same false b = not b

same_lem : (a b : Bool) → same a b ≡ true → a ≡ b
unfolding same
same_lem true true h = refl
same_lem true false h = ground arith
same_lem false true h = ground arith
same_lem false false h = refl

-- One byte: the bit that is switched, the others, and the size.
right_byte : Bool → ℕ → ℕ → ℕ → Bool
unfolding same
right_byte on i j n =
    same (bit j (set_bit i on n)) (if j == i then on else bit j n) && ltb (set_bit i on n) 256

table : (on : Bool) → every (λ i. every (λ j. every (right_byte on i j) 256) 8) 8 ≡ true
unfolding every right_byte
table true = refl
table false = refl

split_byte :
    (on : Bool) (i j n : ℕ)
    → right_byte on i j n ≡ true
    → (bit j (set_bit i on n) ≡ (if j == i then on else bit j n)) × (set_bit i on n < 256)
unfolding right_byte
split_byte on i j n h =
    let (found, small) =
      &&-split (same (bit j (set_bit i on n)) (if j == i then on else bit j n))
        (ltb (set_bit i on n) 256) h in
    (same_lem (bit j (set_bit i on n)) (if j == i then on else bit j n) found, ltb→lt small)

byte_lem :
    (on : Bool) (i j n : ℕ)
    → i < 8
    → j < 8
    → n < 256
    → (bit j (set_bit i on n) ≡ (if j == i then on else bit j n)) × (set_bit i on n < 256)
byte_lem on i j n hi hj hn =
    let row = every-holds (λ i. every (λ j. every (right_byte on i j) 256) 8) 8 (table on) i hi in
    let column = every-holds (λ j. every (right_byte on i j) 256) 8 row j hj in
    let byte = every-holds (right_byte on i j) 256 column n hn in split_byte on i j n byte

-- A template as `decodeCallback` lets it through.
abbrev pub IsTemplate : Bytes → Type 0
IsTemplate template = (length template ≡ 5) × All (λ byte. byte < 256) template

-- The bit of a template at an index.
abbrev pub template_bit : Bytes → ℕ → Bool
template_bit template index = bit (index % 8) (at template (4 - index / 8))

at-update :
    (xs : Bytes) (i j : ℕ) (f : ℕ → ℕ)
    → i < length xs
    → at (update xs i f) j ≡ (if j == i then f (at xs i) else at xs j)
unfolding update
at-update [] i j f h = absurd (omega arith)
at-update (x ∷ xs) zero zero f h = refl
at-update (x ∷ xs) zero (suc j) f h = ground arith
at-update (x ∷ xs) (suc i) zero f h = ground arith
at-update (x ∷ xs) (suc i) (suc j) f h = let rest = at-update xs i j f (omega arith) in ground arith

length-update : (xs : Bytes) (i : ℕ) (f : ℕ → ℕ) → length (update xs i f) ≡ length xs
unfolding update
length-update [] i f = refl
length-update (x ∷ xs) zero f = refl
length-update (x ∷ xs) (suc i) f = ap suc (length-update xs i f)

All-update :
    (xs : Bytes) (i : ℕ) (f : ℕ → ℕ)
    → ((n : ℕ) → n < 256 → f n < 256)
    → All (λ byte. byte < 256) xs
    → All (λ byte. byte < 256) (update xs i f)
unfolding update
All-update [] i f keeps h = h
All-update (x ∷ xs) zero f keeps h = (keeps x h.0, h.1)
All-update (x ∷ xs) (suc i) f keeps h = (h.0, All-update xs i f keeps h.1)

at-lt : (xs : Bytes) (i : ℕ) → All (λ byte. byte < 256) xs → at xs i < 256
at-lt [] i h = omega arith
at-lt (x ∷ xs) zero h = h.0
at-lt (x ∷ xs) (suc i) h = at-lt xs i h.1

set_template_bit-update :
    (index : ℕ) (on : Bool) (template : Bytes)
    → index < 40
    → IsTemplate template
    → set_template_bit index on template ≡ update template (4 - index / 8) (set_bit (index % 8) on)
unfolding set_template_bit
set_template_bit-update index on [] h (five, small) = absurd (omega (arith, five))
set_template_bit-update index on (x ∷ xs) h t = rw (le→ltb 39 index (omega arith)) refl

pub set_template_bit-IsTemplate :
    (index : ℕ) (on : Bool) (template : Bytes)
    → index < 40
    → IsTemplate template
    → IsTemplate (set_template_bit index on template)
set_template_bit-IsTemplate index on template h t =
    rw (set_template_bit-update index on template h t) (
      length-update template (4 - index / 8) (set_bit (index % 8) on) ∙ t.0,
      All-update template (4 - index / 8) (set_bit (index % 8) on)
          (λ n small. (byte_lem on (index % 8) (index % 8) n (omega arith) (omega arith) small).1)
          t.1,
    )

same_index :
    (index r : ℕ)
    → index < 40
    → r < 40
    → (4 - r / 8 == 4 - index / 8) ≡ true
    → (r == index) ≡ (r % 8 == index % 8)
same_index index r h hr e = ground arith

other_index : (index r : ℕ) → (4 - r / 8 == 4 - index / 8) ≡ false → (r == index) ≡ false
other_index index r e = ground arith

pub template_bit-set_template_bit :
    (index : ℕ) (on : Bool) (template : Bytes) (r : ℕ)
    → index < 40
    → r < 40
    → IsTemplate template
    → template_bit (set_template_bit index on template) r
      ≡ (if r == index then on else template_bit template r)
template_bit-set_template_bit index on template r h hr t =
    let position = 4 - index / 8 in
    let other = 4 - r / 8 in
    let inside : (position < length template) = omega (arith, t.0) in
    let found = at-update template position other (set_bit (index % 8) on) inside in
    let byte =
      byte_lem on (index % 8) (r % 8) (at template position) (omega arith) (omega arith)
        (at-lt template position t.1) in
    ap (λ changed. template_bit changed r) (set_template_bit-update index on template h t)
    ∙ ap (bit (r % 8)) found
    ∙ elim (Bool-cases (other == position)) [
      | inl here ↦
          rw here byte.0
          ∙ ap (λ place. if r % 8 == index % 8 then on else bit (r % 8) (at template place))
              (sym ((==_iff other position).0 here))
          ∙ ap (λ b. if b then on else template_bit template r) (sym (same_index index r h hr here))
      | inr there ↦ rw there (rw (other_index index r there) refl)
    ]

if_or :
    (a b on x y : Bool)
    → y ≡ (if a then on else x)
    → (if b then on else y) ≡ (if a || b then on else x)
if_or true true on x y e = refl
if_or true false on x y e = e
if_or false true on x y e = refl
if_or false false on x y e = e

-- The bits that a loop leaves.
pub set_bits-IsTemplate :
    (on : Bool) (rights : List AccessRight) (template : Bytes)
    → All (λ right. right < 40) rights
    → IsTemplate template
    → IsTemplate (set_bits on rights template)
unfolding set_bits
set_bits-IsTemplate on [] template h t = t
set_bits-IsTemplate on (right ∷ rights) template h t =
    set_bits-IsTemplate on rights (set_template_bit right on template) h.1
      (set_template_bit-IsTemplate right on template h.0 t)

pub template_bit-set_bits :
    (on : Bool) (rights : List AccessRight) (template : Bytes) (r : ℕ)
    → All (λ right. right < 40) rights
    → r < 40
    → IsTemplate template
    → template_bit (set_bits on rights template) r
      ≡ (if list_contains rights r then on else template_bit template r)
unfolding set_bits list_contains
template_bit-set_bits on [] template r h hr t = refl
template_bit-set_bits on (right ∷ rights) template r h hr t =
    let rest =
      template_bit-set_bits on rights (set_template_bit right on template) r h.1 hr
        (set_template_bit-IsTemplate right on template h.0 t) in
    let first = template_bit-set_template_bit right on template r h.0 hr t in
    rest
    ∙ if_or (r == right) (list_contains rights r) on (template_bit template r)
        (template_bit (set_template_bit right on template) r) first

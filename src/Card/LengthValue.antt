-- ===== src/Card/LengthValue.antt =====
-- card/base/LengthValue.h: byte arrays behind a little-endian length of `width` bytes, which is
-- `sizeof(T)` of the template.
use native.Mathlib.Nat.{pow-suc}
use mathlib.Core.List.{append_assoc}
use ausweis_app.Prelude.{
  ℕ, zero, suc, ◌+◌, ◌-◌, ◌*◌, ◌/◌, ◌%◌, ◌^◌, ◌<◌, min, ◌≡◌, refl, ap, ◌∙◌, Option, none, some, [],
  ◌∷◌, ◌++◌, arith, replicate, ltb, if◌then◌else◌, le→ltb, lt→ltb, length, length-append, take,
  drop, drop-drop, drop-append, take-append, length-drop, take-length, subst,
}
use ausweis_app.Bytes.{Bytes, mid}

-- `qFromLittleEndian<T>` at the head of the array.
unfoldable pub from_little_endian : ℕ → Bytes → ℕ
from_little_endian zero bytes = 0
from_little_endian (suc w) [] = 0
from_little_endian (suc w) (x ∷ xs) = x + 256 * from_little_endian w xs

-- `qToLittleEndian<T>`
unfoldable pub to_little_endian : ℕ → ℕ → Bytes
to_little_endian zero n = []
to_little_endian (suc w) n = n % 256 ∷ to_little_endian w (n / 256)

-- `readByteArray<T>(pInput, pOffset)`: the array read and the new offset. The offset stays where
-- the length does not fit, and passes the end of the input where the value does not. The width is at
-- most that of a `quint16`, whose values an `int` holds.
unfoldable pub read_byte_array : ℕ → Bytes → ℕ → Bytes × ℕ
unfolding from_little_endian
read_byte_array w input offset =
    if ltb (length input) (offset + w)
    then ([], offset)
    else (let size = from_little_endian w (drop offset input) in
        (mid input (offset + w) size, offset + w + size))

-- `std::numeric_limits<T>::max()` as an `int`, with `none` for the -1 of the wider types.
abbrev pub max_size : ℕ → Option ℕ
max_size w = if ltb w 4 then some (256 ^ w - 1) else none

-- `writeByteArray<T>(pValue, pOutput)`: the new output. A value that is too long is cut. A size of -1
-- is written as ones, and `mid` then takes the whole value.
unfoldable pub write_byte_array : ℕ → Bytes → Bytes → Bytes
unfolding to_little_endian
write_byte_array w value output = elim (max_size w) [
  | none ↦ output ++ (replicate w 255 ++ value)
  | some most ↦
      let size = min most (length value) in output ++ (to_little_endian w size ++ take size value)
]

length-to_little_endian : (w n : ℕ) → length (to_little_endian w n) ≡ w
unfolding to_little_endian
length-to_little_endian zero n = refl
length-to_little_endian (suc w) n = ap suc (length-to_little_endian w (n / 256))

from_little_endian-to_little_endian :
    (w n : ℕ) (rest : Bytes) → n < 256 ^ w → from_little_endian w (to_little_endian w n ++ rest) ≡ n
unfolding to_little_endian from_little_endian
from_little_endian-to_little_endian zero n rest h = omega arith
from_little_endian-to_little_endian (suc w) n rest h = omega (
  arith,
  pow-suc 256 w,
  from_little_endian-to_little_endian w (n / 256) rest (omega (arith, pow-suc 256 w)),
)

-- A value with its length in front.
abbrev pub field : ℕ → Bytes → Bytes
field w value = to_little_endian w (length value) ++ value

pub write_byte_array-field :
    (w : ℕ) (value output : Bytes)
    → w < 4
    → length value < 256 ^ w
    → write_byte_array w value output ≡ output ++ field w value
unfolding write_byte_array
write_byte_array-field w value output narrow h =
    let fits : min (256 ^ w - 1) (length value) ≡ length value = omega arith in
    rw (lt→ltb w 4 narrow, write_byte_array) (rw (fits, take-length value))

-- What stands behind the length bytes, and behind the value.
behind_length :
    (w offset n : ℕ) (input rest : Bytes)
    → drop offset input ≡ to_little_endian w n ++ rest
    → drop (offset + w) input ≡ rest
behind_length w offset n input rest e =
    drop-drop offset w input
    ∙ ap (drop w) e
    ∙ subst (λ k. drop k (to_little_endian w n ++ rest) ≡ rest) (length-to_little_endian w n)
        (drop-append (to_little_endian w n) rest)

-- At the end of the input nothing is read.
pub read_byte_array-end :
    (w offset : ℕ) (input : Bytes)
    → 0 < w
    → offset ≡ length input
    → read_byte_array w input offset ≡ ([], offset)
unfolding read_byte_array
read_byte_array-end w offset input hw e = rw (lt→ltb (length input) (offset + w) (omega arith))

-- What is read where a field begins: its value; the offset then stands behind the field.
module _ (w offset : ℕ) (input value rest : Bytes) (hw : 0 < w) (hv : length value < 256 ^ w)
    (e : drop offset input ≡ field w value ++ rest) where
  e' : drop offset input ≡ to_little_endian w (length value) ++ (value ++ rest)
  e' = e ∙ append_assoc (to_little_endian w (length value)) value rest

  pub length-field : length input ≡ offset + w + length value + length rest
  length-field = omega (
    arith,
    length-drop offset input,
    ap length e',
    length-append (to_little_endian w (length value)) (value ++ rest),
    length-to_little_endian w (length value),
    length-append value rest,
  )

  pub drop-field : drop (offset + w + length value) input ≡ rest
  drop-field =
      drop-drop (offset + w) (length value) input
      ∙ ap (drop (length value)) (behind_length w offset (length value) input (value ++ rest) e')
      ∙ drop-append value rest

  read_size : from_little_endian w (drop offset input) ≡ length value
  read_size = rw e' (from_little_endian-to_little_endian w (length value) (value ++ rest) hv)

  pub read_byte_array-field : read_byte_array w input offset ≡ (value, offset + w + length value)
  unfolding read_byte_array
  read_byte_array-field = rw (le→ltb (length input) (offset + w) (omega (arith, length-field))) (
      rw read_size (
        rw (behind_length w offset (length value) input (value ++ rest) e')
          (rw (take-append value rest))))

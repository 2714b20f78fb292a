-- ===== src/Bytes.antt =====
-- `QByteArray` as a list of byte values, and the reading and writing of fixed-width numbers that
-- card/base does through QtEndian (`qFromBigEndian`, `qFromLittleEndian`, `qToLittleEndian`).
use ausweis_app.Prelude.{
  ℕ, ◌+◌, ◌*◌, ◌/◌, ◌%◌, ◌<◌, ◌≡◌, refl, ap, ◌∙◌, Bool, true, false, ◌&&◌, &&-split, ◌==◌, ==_iff,
  List, [], ◌∷◌, arith, take, drop, get_or,
}

abbrev pub Bytes : Type 0
Bytes = List ℕ

-- `mid(pos, len)`: out of range it gives what is left, or nothing.
abbrev pub mid : Bytes → ℕ → ℕ → Bytes
mid b pos len = take len (drop pos b)

-- `==` of two arrays.
unfoldable pub same_bytes : Bytes → Bytes → Bool
same_bytes [] [] = true
same_bytes [] (y ∷ ys) = false
same_bytes (x ∷ xs) [] = false
same_bytes (x ∷ xs) (y ∷ ys) = (x == y) && same_bytes xs ys

pub same_bytes_lem : (xs ys : Bytes) → same_bytes xs ys ≡ true → xs ≡ ys
unfolding same_bytes
same_bytes_lem [] [] h = refl
same_bytes_lem [] (y ∷ ys) h = ground arith
same_bytes_lem (x ∷ xs) [] h = ground arith
same_bytes_lem (x ∷ xs) (y ∷ ys) h =
    let (head, tail) = &&-split (x == y) (same_bytes xs ys) h in
    ap (λ z. z ∷ xs) ((==_iff x y).0 head) ∙ ap (λ zs. y ∷ zs) (same_bytes_lem xs ys tail)

pub same_bytes_refl : (xs : Bytes) → same_bytes xs xs ≡ true
unfolding same_bytes
same_bytes_refl [] = refl
same_bytes_refl (x ∷ xs) = rw ((==_iff x x).1 refl) (same_bytes_refl xs)

-- `at(i)`
abbrev pub at : Bytes → ℕ → ℕ
at b i = get_or b i 0

-- `static_cast<char>(n & 0xff)`, as the value of the byte.
abbrev pub low_byte : ℕ → ℕ
low_byte n = n % 256

-- `static_cast<char>(n >> 8 & 0xff)`
abbrev pub high_byte : ℕ → ℕ
high_byte n = n / 256 % 256

-- `qFromBigEndian<quint16>` and `qFromLittleEndian<quint16>` at the head of the array.
abbrev pub big_endian16 : Bytes → ℕ
big_endian16 b = at b 0 * 256 + at b 1

abbrev pub little_endian16 : Bytes → ℕ
little_endian16 b = at b 0 + at b 1 * 256

abbrev pub little_endian32 : Bytes → ℕ
little_endian32 b = at b 0 + at b 1 * 256 + at b 2 * 65536 + at b 3 * 16777216

-- `qToLittleEndian` of a `quint32` and `qToBigEndian` of a `quint32`.
abbrev pub to_little_endian32 : ℕ → Bytes
to_little_endian32 n = n % 256 ∷ n / 256 % 256 ∷ n / 65536 % 256 ∷ n / 16777216 % 256 ∷ []

abbrev pub to_big_endian32 : ℕ → Bytes
to_big_endian32 n = n / 16777216 % 256 ∷ n / 65536 % 256 ∷ n / 256 % 256 ∷ n % 256 ∷ []

pub little_endian32-to_little_endian32 :
    (n : ℕ) → n < 4294967296 → little_endian32 (to_little_endian32 n) ≡ n
little_endian32-to_little_endian32 n h = omega arith

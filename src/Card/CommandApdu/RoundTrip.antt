-- ===== src/Card/CommandApdu/RoundTrip.antt =====
-- CommandApdu.cpp: what the getters read from a buffer that the constructor built.
use ausweis_app.Prelude.{
  ℕ, ◌↔◌, ◌+◌, ◌*◌, ◌≤◌, ◌<◌, ◌≡◌, ◌∙◌, ◌⊎◌, inl, inr, true, false, [], ◌∷◌, ◌++◌, arith, ltb, ◌==◌,
  if◌then◌else◌, Bool-cases, length, length-append, take-append, take_nil, get_or-drop, drop-append,
  drop-drop, drop,
}
use ausweis_app.Bytes.{Bytes, low_byte, high_byte}
use ausweis_app.Card.CommandApdu.{
  short_max_le, extended_max_lc, extended_max_le, is_extended_buffer, is_extended_length, le_field,
  build, get_cla, get_ins, get_p1, get_p2, get_lc, get_le_extended, get_le_short, get_le, get_data,
}

-- The two readings of a length, over a buffer in cons form.
module _ (a b c d : ℕ) where
  get_lc_extended :
      (hi lo : ℕ) (rest : Bytes) → get_lc (a ∷ b ∷ c ∷ d ∷ 0 ∷ hi ∷ lo ∷ rest) ≡ hi * 256 + lo
  unfolding get_lc
  get_lc_extended hi lo rest = ground arith

  extended_buffer :
      (hi lo : ℕ) (rest : Bytes) → is_extended_buffer (a ∷ b ∷ c ∷ d ∷ 0 ∷ hi ∷ lo ∷ rest) ≡ true
  unfolding is_extended_buffer
  extended_buffer hi lo rest = ground arith

  short_buffer :
      (n x : ℕ) (rest : Bytes) → 0 < n → is_extended_buffer (a ∷ b ∷ c ∷ d ∷ n ∷ x ∷ rest) ≡ false
  unfolding is_extended_buffer
  short_buffer n x rest h = ground arith

  get_lc_short : (n x : ℕ) (rest : Bytes) → 0 < n → get_lc (a ∷ b ∷ c ∷ d ∷ n ∷ x ∷ rest) ≡ n
  unfolding get_lc
  get_lc_short n x rest h = ground arith

  -- What stands behind the data of an extended and of a short command.
  behind_extended :
      (hi lo : ℕ) (xs tail : Bytes)
      → drop (7 + length xs) (a ∷ b ∷ c ∷ d ∷ 0 ∷ hi ∷ lo ∷ (xs ++ tail)) ≡ tail
  behind_extended hi lo xs tail = drop-drop 7 (length xs) _ ∙ drop-append xs tail

  behind_short :
      (n : ℕ) (xs tail : Bytes) → drop (5 + length xs) (a ∷ b ∷ c ∷ d ∷ n ∷ (xs ++ tail)) ≡ tail
  behind_short n xs tail = drop-drop 5 (length xs) _ ∙ drop-append xs tail

  get_le_extended_none :
      (hi lo : ℕ) (xs : Bytes)
      → get_le_extended (a ∷ b ∷ c ∷ d ∷ 0 ∷ hi ∷ lo ∷ (xs ++ [])) (7 + length xs) ≡ 0
  unfolding get_le_extended
  get_le_extended_none hi lo xs = ground (arith, length-append xs [])

  get_le_extended_some :
      (hi lo h l : ℕ) (xs : Bytes)
      → get_le_extended (a ∷ b ∷ c ∷ d ∷ 0 ∷ hi ∷ lo ∷ (xs ++ h ∷ l ∷ [])) (7 + length xs)
        ≡ (if h * 256 + l == 0 then extended_max_le else h * 256 + l)
  unfolding get_le_extended
  get_le_extended_some hi lo h l xs =
      rw (behind_extended hi lo xs (h ∷ l ∷ [])) (ground (arith, length-append xs (h ∷ l ∷ [])))

  get_le_short_none :
      (n : ℕ) (xs : Bytes) → get_le_short (a ∷ b ∷ c ∷ d ∷ n ∷ (xs ++ [])) (5 + length xs) ≡ 0
  unfolding get_le_short
  get_le_short_none n xs = ground (arith, length-append xs [])

  get_le_short_some :
      (n l : ℕ) (xs : Bytes)
      → get_le_short (a ∷ b ∷ c ∷ d ∷ n ∷ (xs ++ l ∷ [])) (5 + length xs)
        ≡ (if l == 0 then short_max_le else l)
  unfolding get_le_short
  get_le_short_some n l xs =
      rw (get_or-drop (5 + length xs) (a ∷ b ∷ c ∷ d ∷ n ∷ (xs ++ l ∷ [])) 0)
        (rw (behind_short n xs (l ∷ [])) (ground (arith, length-append xs (l ∷ []))))

module _ (a b c d le : ℕ) (x : ℕ) (xs : Bytes) where
  abbrev size : ℕ
  size = length (x ∷ xs)

  build_extended :
      is_extended_length (x ∷ xs) le ≡ true
      → size ≤ extended_max_lc
      → le ≤ extended_max_le
      → build a b c d (x ∷ xs) le
        ≡ a ∷ b ∷ c ∷ d ∷ 0 ∷ high_byte size ∷ low_byte size ∷ (x ∷ xs ++ le_field (x ∷ xs) le)
  unfolding build
  build_extended e hn hl = ground arith

  build_short :
      is_extended_length (x ∷ xs) le ≡ false
      → build a b c d (x ∷ xs) le ≡ a ∷ b ∷ c ∷ d ∷ size ∷ (x ∷ xs ++ le_field (x ∷ xs) le)
  unfolding build is_extended_length
  build_short e = ground arith

  le_field_extended :
      is_extended_length (x ∷ xs) le ≡ true
      → le_field (x ∷ xs) le ≡ (if ltb 0 le then high_byte le ∷ low_byte le ∷ [] else [])
  unfolding le_field
  le_field_extended e = ground arith

  le_field_short :
      is_extended_length (x ∷ xs) le ≡ false
      → le_field (x ∷ xs) le ≡ (if ltb 0 le then low_byte le ∷ [] else [])
  unfolding le_field
  le_field_short e = ground arith

  size_read : size ≤ extended_max_lc → high_byte size * 256 + low_byte size ≡ size
  size_read h = omega arith

  get_data_extended :
      is_extended_length (x ∷ xs) le ≡ true
      → size ≤ extended_max_lc
      → le ≤ extended_max_le
      → get_data (build a b c d (x ∷ xs) le) ≡ x ∷ xs
  unfolding get_data
  get_data_extended e hn hl = rw (build_extended e hn hl) (
      ground (
        arith,
        get_lc_extended a b c d (high_byte size) (low_byte size) (x ∷ xs ++ le_field (x ∷ xs) le),
        extended_buffer a b c d (high_byte size) (low_byte size) (x ∷ xs ++ le_field (x ∷ xs) le),
        size_read hn,
        take-append (x ∷ xs) (le_field (x ∷ xs) le),
      ))

  get_data_short :
      is_extended_length (x ∷ xs) le ≡ false → get_data (build a b c d (x ∷ xs) le) ≡ x ∷ xs
  unfolding get_data
  get_data_short e = rw (build_short e) (
      ground (
        arith,
        get_lc_short a b c d size x (xs ++ le_field (x ∷ xs) le),
        short_buffer a b c d size x (xs ++ le_field (x ∷ xs) le),
        take-append (x ∷ xs) (le_field (x ∷ xs) le),
      ))

  get_le_of_extended :
      is_extended_length (x ∷ xs) le ≡ true
      → size ≤ extended_max_lc
      → le ≤ extended_max_le
      → get_le (build a b c d (x ∷ xs) le) ≡ le
  unfolding get_le
  get_le_of_extended e hn hl =
      rw (build_extended e hn hl, le_field_extended e)
        (ground (
          arith,
          get_lc_extended a b c d (high_byte size) (low_byte size)
              (x ∷ xs ++ (if ltb 0 le then high_byte le ∷ low_byte le ∷ [] else [])),
          extended_buffer a b c d (high_byte size) (low_byte size)
              (x ∷ xs ++ (if ltb 0 le then high_byte le ∷ low_byte le ∷ [] else [])),
          size_read hn,
          get_le_extended_none a b c d (high_byte size) (low_byte size) (x ∷ xs),
          get_le_extended_some a b c d (high_byte size) (low_byte size) (high_byte le) (low_byte le)
              (x ∷ xs),
        ))

  get_le_of_short : is_extended_length (x ∷ xs) le ≡ false → get_le (build a b c d (x ∷ xs) le) ≡ le
  unfolding get_le is_extended_length
  get_le_of_short e =
      rw (build_short e, le_field_short e)
        (ground (
          arith,
          get_lc_short a b c d size x (xs ++ (if ltb 0 le then low_byte le ∷ [] else [])),
          short_buffer a b c d size x (xs ++ (if ltb 0 le then low_byte le ∷ [] else [])),
          get_le_short_none a b c d size (x ∷ xs),
          get_le_short_some a b c d size (low_byte le) (x ∷ xs),
        ))

-- The expected lengths that a command without data can carry so that they are read again.
abbrev pub LeReadable : Bytes → ℕ → Type 0
LeReadable [] le = (le ≤ short_max_le) ⊎ (le ≡ extended_max_le)
LeReadable (x ∷ xs) le = Unit {0}

module _ (a b c d le : ℕ) where
  get_le_no_data : LeReadable [] le → get_le (build a b c d [] le) ≡ le
  unfolding get_le build get_le_short get_le_extended
  get_le_no_data (inl h) = ground arith
  get_le_no_data (inr h) = rw h (ground arith)

  get_data_no_data : get_data (build a b c d [] le) ≡ []
  unfolding get_data build
  get_data_no_data = ground (arith, take_nil {A = ℕ} (high_byte le * 256 + low_byte le))

  header_read :
      (data_field : Bytes)
      → length data_field ≤ extended_max_lc
      → le ≤ extended_max_le
      → let buffer = build a b c d data_field le in
        (get_cla buffer ≡ a) × (get_ins buffer ≡ b) × (get_p1 buffer ≡ c) × (get_p2 buffer ≡ d)
  unfolding build get_cla get_ins get_p1 get_p2
  header_read data_field hn hl = (ground arith, ground arith, ground arith, ground arith)

  get_data-build :
      (data_field : Bytes)
      → length data_field ≤ extended_max_lc
      → le ≤ extended_max_le
      → get_data (build a b c d data_field le) ≡ data_field
  get_data-build [] hn hl = get_data_no_data
  get_data-build (x ∷ xs) hn hl = elim (Bool-cases (is_extended_length (x ∷ xs) le)) [
    | inl e ↦ get_data_extended a b c d le x xs e hn hl
    | inr e ↦ get_data_short a b c d le x xs e
  ]

  get_le-build :
      (data_field : Bytes)
      → length data_field ≤ extended_max_lc
      → le ≤ extended_max_le
      → LeReadable data_field le
      → get_le (build a b c d data_field le) ≡ le
  get_le-build [] hn hl r = get_le_no_data r
  get_le-build (x ∷ xs) hn hl r = elim (Bool-cases (is_extended_length (x ∷ xs) le)) [
    | inl e ↦ get_le_of_extended a b c d le x xs e hn hl
    | inr e ↦ get_le_of_short a b c d le x xs e
  ]

-- The getters of a command APDU read back the header bytes, the data and the expected length
-- that the constructor was given, for data of at most 0xFFFF bytes and an expected length of at
-- most 0x10000; without data the expected length must be at most 0x100 or exactly 0x10000.
pub read-build :
    (cla ins p1 p2 le : ℕ) (data_field : Bytes)
    → length data_field ≤ extended_max_lc
    → le ≤ extended_max_le
    → LeReadable data_field le
    → let buffer = build cla ins p1 p2 data_field le in
      (get_cla buffer ≡ cla)
      × (get_ins buffer ≡ ins)
      × (get_p1 buffer ≡ p1)
      × (get_p2 buffer ≡ p2)
      × (get_data buffer ≡ data_field)
      × (get_le buffer ≡ le)
read-build cla ins p1 p2 le data_field hn hl r =
    let (e0, e1, e2, e3) = header_read cla ins p1 p2 le data_field hn hl in
    (
      e0,
      e1,
      e2,
      e3,
      get_data-build cla ins p1 p2 le data_field hn hl,
      get_le-build cla ins p1 p2 le data_field hn hl r,
    )

-- A command APDU without data that expects between 0x101 and 0xFFFF bytes is read back with its
-- expected length as data length and an expected length of 0.
pub get_le-build_lost :
    (cla ins p1 p2 le : ℕ)
    → short_max_le < le
    → le < extended_max_le
    → let buffer = build cla ins p1 p2 [] le in
      (length buffer ≡ 7) × (get_lc buffer ≡ le) × (get_le buffer ≡ 0)
unfolding build get_lc get_le get_le_extended
get_le-build_lost cla ins p1 p2 le h k = (ground arith, ground arith, ground arith)

-- The constructor leaves the buffer empty exactly when a length exceeds its maximum.
pub build-eq-nil_iff :
    (cla ins p1 p2 le : ℕ) (data_field : Bytes)
    → (build cla ins p1 p2 data_field le ≡ [])
      ↔ ((extended_max_lc < length data_field) ⊎ (extended_max_le < le))
unfolding build
build-eq-nil_iff cla ins p1 p2 le data_field = grind arith

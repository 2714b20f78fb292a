-- ===== src/Card/CommandApdu.antt =====
-- card/base/CommandApdu.cpp: the command APDU of ISO 7816-4, built and read byte by byte.
-- Lengths are naturals: `pLe` is never negative in the source, and one below zero would act as 0.
pub mod RoundTrip
use ausweis_app.Prelude.{
  ℕ, ◌+◌, ◌-◌, ◌%◌, Bool, true, false, ◌&&◌, ◌||◌, not, List, [], ◌∷◌, ◌++◌, ltb, leb, ◌==◌,
  if◌then◌else◌, length, is_empty,
}
use ausweis_app.Bytes.{Bytes, mid, at, low_byte, high_byte, big_endian16}

abbrev pub no_le : ℕ
no_le = 0

abbrev pub short_max_lc : ℕ
short_max_lc = 0xff

abbrev pub short_max_le : ℕ
short_max_le = 0x0100

abbrev pub extended_max_lc : ℕ
extended_max_lc = 0x00ffff

abbrev pub extended_max_le : ℕ
extended_max_le = 0x010000

abbrev pub cla_secure_messaging : ℕ
cla_secure_messaging = 0x0c

-- The member: whether a received buffer is of extended length.
unfoldable pub is_extended_buffer : Bytes → Bool
is_extended_buffer buffer = ltb 5 (length buffer) && (at buffer 4 == 0)

-- The static function: whether data and expected length need the extended form.
unfoldable pub is_extended_length : Bytes → ℕ → Bool
is_extended_length data_field le = ltb short_max_lc (length data_field) || ltb short_max_le le

unfoldable pub is_secure_messaging : Bytes → Bool
is_secure_messaging buffer = not (is_empty buffer) && (at buffer 0 % 16 == cla_secure_messaging)

unfoldable pub lc_field : Bytes → ℕ → Bytes
unfolding is_extended_length
lc_field data_field le =
    if ltb 0 (length data_field)
    then if is_extended_length data_field le
      then 0 ∷ high_byte (length data_field) ∷ low_byte (length data_field) ∷ data_field
      else low_byte (length data_field) ∷ data_field
    else []

unfoldable pub le_field : Bytes → ℕ → Bytes
unfolding is_extended_length
le_field data_field le =
    if ltb 0 le
    then if is_extended_length data_field le
      then if is_empty data_field
        then 0 ∷ high_byte le ∷ low_byte le ∷ []
        else high_byte le ∷ low_byte le ∷ []
      else low_byte le ∷ []
    else []

-- The constructor: the buffer, which stays empty where a length exceeds its maximum.
unfoldable pub build : ℕ → ℕ → ℕ → ℕ → Bytes → ℕ → Bytes
unfolding lc_field le_field
build cla ins p1 p2 data_field le =
    if ltb extended_max_lc (length data_field)
    then []
    else if ltb extended_max_le le
    then []
    else (cla ∷ ins ∷ p1 ∷ p2 ∷ (lc_field data_field le ++ le_field data_field le))

-- The constructor that takes the four header bytes in one array.
unfoldable pub build_from_header : Bytes → Bytes → ℕ → Bytes
unfolding build
build_from_header header data_field le =
    build (at header 0) (at header 1) (at header 2) (at header 3) data_field le

unfoldable pub get_cla : Bytes → ℕ
get_cla buffer = if ltb 0 (length buffer) then at buffer 0 else 0

unfoldable pub get_ins : Bytes → ℕ
get_ins buffer = if ltb 1 (length buffer) then at buffer 1 else 0

unfoldable pub get_p1 : Bytes → ℕ
get_p1 buffer = if ltb 2 (length buffer) then at buffer 2 else 0

unfoldable pub get_p2 : Bytes → ℕ
get_p2 buffer = if ltb 3 (length buffer) then at buffer 3 else 0

unfoldable pub read_length : Bytes → ℕ → ℕ
read_length buffer offset = big_endian16 (mid buffer offset 2)

unfoldable pub get_lc : Bytes → ℕ
unfolding is_extended_buffer read_length
get_lc buffer =
    if leb (length buffer) 5
    then 0
    else if not (is_extended_buffer buffer)
    then at buffer 4
    else if leb (length buffer) 6
    then 0
    else read_length buffer 5

unfoldable pub get_le_extended : Bytes → ℕ → ℕ
unfolding read_length
get_le_extended buffer offset =
    if ltb (length buffer) (offset + 2)
    then 0
    else if read_length buffer offset == 0
    then extended_max_le
    else read_length buffer offset

unfoldable pub get_le_short : Bytes → ℕ → ℕ
get_le_short buffer offset =
    if ltb (length buffer) (offset + 1)
    then 0
    else if at buffer offset == 0
    then short_max_le
    else at buffer offset

unfoldable pub get_le : Bytes → ℕ
unfolding get_lc is_extended_buffer get_le_extended get_le_short
get_le buffer =
    let lc = get_lc buffer in
    if is_extended_buffer buffer
    then get_le_extended buffer (if lc == 0 then 5 else 7 + lc)
    else get_le_short buffer (if lc == 0 then 4 else 5 + lc)

unfoldable pub get_data : Bytes → Bytes
unfolding get_lc is_extended_buffer
get_data buffer =
    let lc = get_lc buffer in
    if lc == 0 then [] else if is_extended_buffer buffer then mid buffer 7 lc else mid buffer 5 lc

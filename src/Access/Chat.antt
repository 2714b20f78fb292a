-- ===== src/Access/Chat.antt =====
-- card/base/asn1/Chat.cpp: the template of a CHAT, five bytes with the role in the two highest bits
-- and a bit for each right. The object identifier beside it and the DER encoding are OpenSSL's.
pub mod Bits
pub mod Reading
use ausweis_app.Prelude.{
  ℕ, ◌+◌, ◌-◌, ◌*◌, ◌/◌, ◌%◌, ◌^◌, ◌<◌, zero, suc, Bool, true, false, not, ◌&&◌, Option, none, some,
  List, [], ◌∷◌, ◌==◌, ltb, leb, if◌then◌else◌, length, is_empty, replicate,
}
use ausweis_app.Bytes.{Bytes, at}
use ausweis_app.Access.Rights.{AccessRight, Rights, all_rights, elements}

-- CVCA, DV_od, DV_no_f, AT and UNKNOWN are 3, 2, 1, 0 and -1.
pub data AccessRole : Type 0 where
  cvca dv_od dv_no_f at_terminal unknown : AccessRole

-- `(n & (1 << i)) != 0`
abbrev pub bit : ℕ → ℕ → Bool
bit i n = n / 2 ^ i % 2 == 1

-- `n | (1 << i)` and `n & ~(1 << i)`
abbrev pub set_bit : ℕ → Bool → ℕ → ℕ
set_bit i true n = if bit i n then n else n + 2 ^ i
set_bit i false n = if bit i n then n - 2 ^ i else n

unfoldable pub update : Bytes → ℕ → (ℕ → ℕ) → Bytes
update [] i f = []
update (x ∷ xs) zero f = f x ∷ xs
update (x ∷ xs) (suc i) f = x ∷ update xs i f

-- `setTemplateBit`
unfoldable pub set_template_bit : ℕ → Bool → Bytes → Bytes
unfolding update
set_template_bit index on template =
    let filled = if is_empty template then replicate 5 0x00 else template in
    if ltb 39 index then template else update filled (4 - index / 8) (set_bit (index % 8) on)

unfoldable pub role_value : AccessRole → ℕ
role_value cvca = 3
role_value dv_od = 2
role_value dv_no_f = 1
role_value at_terminal = 0
role_value unknown = 0

unfoldable pub set_access_role : AccessRole → Bytes → Bytes
unfolding set_template_bit role_value
set_access_role role template = elim role [
  | unknown ↦ template
  | known ↦
      set_template_bit 39 (leb 2 (role_value known))
        (set_template_bit 38 (role_value known % 2 == 1) template)
]

unfoldable pub get_access_role : Bytes → AccessRole
get_access_role [] = unknown
get_access_role (x ∷ xs) =
    let value = x / 64 in
    if value == 3
    then cvca
    else if value == 2
    then dv_od
    else if value == 1
    then dv_no_f
    else at_terminal

-- The big-endian number that the loop in `getAccessRights` reads into a `quint64`.
unfoldable pub number_from : ℕ → Bytes → ℕ
number_from acc [] = acc
number_from acc (x ∷ xs) = number_from ((acc * 256 + x) % 2 ^ 64) xs

unfoldable pub get_access_rights : Bytes → Rights
unfolding number_from
get_access_rights template right = ltb right 38 && bit right (number_from 0 template)

-- A loop that switches the bit of each right of a list.
unfoldable pub set_bits : Bool → List AccessRight → Bytes → Bytes
unfolding set_template_bit
set_bits on [] template = template
set_bits on (right ∷ rights) template = set_bits on rights (set_template_bit right on template)

unfoldable pub set_access_rights : Rights → Bytes → Bytes
unfolding set_bits elements all_rights
set_access_rights rights template = set_bits true (elements all_rights rights) template

unfoldable pub remove_access_right : AccessRight → Bytes → Bytes
unfolding set_template_bit
remove_access_right right template = set_template_bit right false template

unfoldable pub remove_all_access_rights : Bytes → Bytes
unfolding set_bits elements all_rights get_access_rights
remove_all_access_rights template =
    set_bits false (elements all_rights (get_access_rights template)) template

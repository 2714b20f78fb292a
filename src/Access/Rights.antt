-- ===== src/Access/Rights.antt =====
-- card/base/asn1/AccessRoleAndRight.h and AccessRoleAndRight.cpp: an access right is its number, the
-- index of its bit, and a `QSet<AccessRight>` is the test of what it contains.
use ausweis_app.Prelude.{ℕ, Bool, true, false, not, ◌&&◌, ◌||◌, List, [], ◌∷◌, ◌==◌, if◌then◌else◌}

abbrev pub AccessRight : Type 0
AccessRight = ℕ

abbrev pub Rights : Type 0
Rights = AccessRight → Bool

abbrev pub age_verification : AccessRight
age_verification = 0

abbrev pub community_id_verification : AccessRight
community_id_verification = 1

abbrev pub restricted_identification : AccessRight
restricted_identification = 2

abbrev pub can_allowed : AccessRight
can_allowed = 4

abbrev pub pin_management : AccessRight
pin_management = 5

-- The order of the source: WRITE_DG17 to WRITE_DG21, RFU_32 to RFU_29, READ_DG21 to READ_DG01, and
-- the special functions.
unfoldable pub all_rights : List AccessRight
all_rights =
    37 ∷ 36 ∷ 35 ∷ 34 ∷ 33 ∷ 32 ∷ 31 ∷ 30 ∷ 29 ∷ 28 ∷ 27 ∷ 26 ∷ 25 ∷ 24 ∷ 23 ∷ 22 ∷ 21 ∷ 20 ∷ 19
    ∷ 18 ∷ 17 ∷ 16 ∷ 15 ∷ 14 ∷ 13 ∷ 12 ∷ 11 ∷ 10 ∷ 9 ∷ 8 ∷ 7 ∷ 6 ∷ 5 ∷ 4 ∷ 3 ∷ 2 ∷ 1 ∷ 0 ∷ []

-- READ_DG05, 13, 04, 07, 08, 09, 17, 01, 03, RESTRICTED_IDENTIFICATION, READ_DG10, 06,
-- AGE_VERIFICATION, COMMUNITY_ID_VERIFICATION, READ_DG02, 18, 19, 20, INSTALL_QUAL_CERT,
-- INSTALL_CERT, WRITE_DG17 to WRITE_DG20, PIN_MANAGEMENT.
unfoldable pub all_displayed_ordered_rights : List AccessRight
all_displayed_ordered_rights =
    12 ∷ 20 ∷ 11 ∷ 14 ∷ 15 ∷ 16 ∷ 24 ∷ 8 ∷ 10 ∷ 2 ∷ 17 ∷ 13 ∷ 0 ∷ 1 ∷ 9 ∷ 25 ∷ 26 ∷ 27 ∷ 7 ∷ 6 ∷ 37
    ∷ 36 ∷ 35 ∷ 34 ∷ 5 ∷ []

unfoldable pub list_contains : List AccessRight → Rights
list_contains [] right = false
list_contains (x ∷ xs) right = right == x || list_contains xs right

-- `isEmpty` of a set of rights.
unfoldable pub none_of : List AccessRight → Rights → Bool
none_of [] rights = true
none_of (x ∷ xs) rights = not (rights x) && none_of xs rights

unfoldable pub is_empty_set : Rights → Bool
unfolding none_of all_rights
is_empty_set rights = none_of all_rights rights

abbrev pub no_rights : Rights
no_rights right = false

abbrev pub insert : AccessRight → Rights → Rights
insert added rights right = right == added || rights right

abbrev pub remove : AccessRight → Rights → Rights
remove removed rights right = not (right == removed) && rights right

abbrev pub unite : Rights → Rights → Rights
unite first second right = first right || second right

abbrev pub intersect : Rights → Rights → Rights
intersect first second right = first right && second right

abbrev pub subtract : Rights → Rights → Rights
subtract first second right = first right && not (second right)

-- The elements, as a loop over the set meets them.
unfoldable pub elements : List AccessRight → Rights → List AccessRight
elements [] rights = []
elements (x ∷ xs) rights = let rest = elements xs rights in if rights x then x ∷ rest else rest

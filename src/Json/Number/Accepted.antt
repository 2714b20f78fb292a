-- ===== src/Json/Number/Accepted.antt =====
-- The numbers that the handlers accept from a basic reader.
use ausweis_app.Prelude.{
  ℕ, ◌+◌, ◌≤◌, Bool, true, false, ◌&&◌, [], ◌∷◌, ◌++◌, leb, if◌then◌else◌, is_empty, ◌≡◌, refl, ap,
  ◌∙◌, ◌⊎◌, inl, inr, arith, &&-split, length,
}
use ausweis_app.Bytes.{Bytes}
use ausweis_app.Workflow.Reader.{ReaderInfo}
use ausweis_app.Workflow.Context.{Context, Kind}
use ausweis_app.Json.Number.{
  string, JsonValue, is_digit, matches_from, at_end, Entry, accepted, rejected, parse_value,
  set_entry, least_pin_length, handle_set_pin, store_pin,
}

-- The digits at the head, and whether nothing or one newline follows.
unfoldable pub all_digits : Bytes → Bool
all_digits [] = true
all_digits (x ∷ rest) = (leb 48 x && leb x 57) && all_digits rest

abbrev pub newline : Bytes
newline = 10 ∷ []

abbrev pub IsNumber : ℕ → ℕ → ℕ → Bytes → Type 0
IsNumber count least most number =
    (digits : Bytes) × (all_digits digits ≡ true)
    × (least ≤ count + length digits)
    × (count + length digits ≤ most)
    × ((number ≡ digits) ⊎ (number ≡ digits ++ newline))

within :
    (count least most : ℕ)
    → (leb least count && leb count most) ≡ true
    → (least ≤ count) × (count ≤ most)
within count least most h = ground arith

at_end-newline :
    (count least most x : ℕ) (rest : Bytes)
    → (at_end (x ∷ rest) && leb least count && leb count most) ≡ true
    → (least ≤ count) × (count ≤ most) × (x ∷ rest ≡ newline)
at_end-newline count least most x [] h = ground arith
at_end-newline count least most x (y ∷ rest) h = ground arith

unless_digit :
    (digit further last : Bool)
    → (if digit then further else last) ≡ true
    → ((digit ≡ true) × (further ≡ true)) ⊎ (last ≡ true)
unless_digit true further last h = inl (refl, h)
unless_digit false further last h = inr h

one_more :
    (count least most x : ℕ) (rest : Bytes)
    → is_digit x ≡ true
    → IsNumber (count + 1) least most rest
    → IsNumber count least most (x ∷ rest)
unfolding all_digits is_digit
one_more count least most x rest digit (digits, all, low, high, inl e) = (
  x ∷ digits,
  ap (λ b. b && all_digits digits) digit ∙ all,
  omega (arith, low),
  omega (arith, high),
  inl (ap (λ r. x ∷ r) e),
)
one_more count least most x rest digit (digits, all, low, high, inr e) = (
  x ∷ digits,
  ap (λ b. b && all_digits digits) digit ∙ all,
  omega (arith, low),
  omega (arith, high),
  inr (ap (λ r. x ∷ r) e),
)

matches_from-IsNumber :
    (count least most : ℕ) (number : Bytes)
    → matches_from count least most number ≡ true
    → IsNumber count least most number
unfolding matches_from all_digits
matches_from-IsNumber count least most [] h =
    let (low, high) = within count least most h in
    ([], refl, omega (arith, low), omega (arith, high), inl refl)
matches_from-IsNumber count least most (x ∷ rest) h =
    elim (unless_digit (is_digit x) (matches_from (count + 1) least most rest)
      (at_end (x ∷ rest) && leb least count && leb count most) h) [
        | inl (digit, further) ↦
            one_more count least most x rest digit
              (matches_from-IsNumber (count + 1) least most rest further)
        | inr last ↦
            let (low, high, e) = at_end-newline count least most x rest last in
            ([], refl, omega (arith, low), omega (arith, high), inr e)
      ]

parse_value-accepted :
    (reader_info : Bytes → ReaderInfo) (value : JsonValue) (context : Context) (least most : ℕ)
    (number : Bytes)
    → (reader_info context.reader_name).basic_reader ≡ true
    → parse_value reader_info value context least most ≡ accepted number
    → matches_from 0 least most number ≡ true
unfolding parse_value
parse_value-accepted reader_info value context least most number basic h = ground arith

-- Five or six digits where the PIN is changed, six otherwise; a newline may follow.
abbrev pub IsPin : Kind → Bytes → Type 0
IsPin (Kind.change_pin transport) number = IsNumber 0 5 6 number
IsPin (Kind.auth can_allowed chat description) number = IsNumber 0 6 6 number

IsNumber-IsPin :
    (kind : Kind) (number : Bytes) → IsNumber 0 (least_pin_length kind) 6 number → IsPin kind number
unfolding least_pin_length
IsNumber-IsPin (Kind.change_pin transport) number h = h
IsNumber-IsPin (Kind.auth can_allowed chat description) number h = h

-- With a basic reader SET_PIN either changes nothing or stores a PIN and approves the state,
-- and the PIN is of five or six digits for a change of the PIN and of six digits for an
-- authentication, with at most a newline behind.
pub handle_set_pin-IsNumber :
    (reader_info : Bytes → ReaderInfo) (value : JsonValue) (context : Context)
    → (reader_info context.reader_name).basic_reader ≡ true
    → (handle_set_pin reader_info value context ≡ context)
      ⊎ ((number : Bytes) × (handle_set_pin reader_info value context
            ≡ record context { pin = number; state_approved = true })
          × IsPin context.kind number)
unfolding handle_set_pin
handle_set_pin-IsNumber reader_info value context basic =
    by_entry (parse_value reader_info value context (least_pin_length context.kind) 6) refl
  where
    by_entry :
        (entry : Entry)
        → parse_value reader_info value context (least_pin_length context.kind) 6 ≡ entry
        → (set_entry store_pin
              (parse_value reader_info value context (least_pin_length context.kind) 6)
              context
            ≡ context)
          ⊎ ((number : Bytes) × (set_entry store_pin
                  (parse_value reader_info value context (least_pin_length context.kind) 6)
                  context
                ≡ record context { pin = number; state_approved = true })
              × IsPin context.kind number)
    by_entry (rejected error) e = inl (ap (λ entry. set_entry store_pin entry context) e)
    by_entry (accepted number) e = inr (
      number,
      ap (λ entry. set_entry store_pin entry context) e,
      IsNumber-IsPin context.kind number (
          matches_from-IsNumber 0 (least_pin_length context.kind) 6 number (
            parse_value-accepted reader_info value context (least_pin_length context.kind) 6 number
              basic e)),
    )

leb_both :
    (count least most : ℕ)
    → least ≤ count
    → count ≤ most
    → (leb least count && leb count most) ≡ true
leb_both count least most low high = ground arith

split_digits :
    (x : ℕ) (rest : Bytes)
    → all_digits (x ∷ rest) ≡ true
    → (is_digit x ≡ true) × (all_digits rest ≡ true)
unfolding all_digits is_digit
split_digits x rest h = &&-split (is_digit x) (all_digits rest) h

-- Digits of an allowed length match, and so they do with a newline behind.
matches_from-all_digits :
    (count least most : ℕ) (digits : Bytes)
    → all_digits digits ≡ true
    → least ≤ count + length digits
    → count + length digits ≤ most
    → (matches_from count least most digits ≡ true)
      × (matches_from count least most (digits ++ newline) ≡ true)
unfolding matches_from is_digit
matches_from-all_digits count least most [] all low high = (
  leb_both count least most (omega (arith, low)) (omega (arith, high)),
  leb_both count least most (omega (arith, low)) (omega (arith, high)),
)
matches_from-all_digits count least most (x ∷ digits) all low high =
    let (digit, rest) = split_digits x digits all in
    let (plain, with_newline) =
      matches_from-all_digits (count + 1) least most digits rest (omega (arith, low))
        (omega (arith, high)) in
    (rw digit plain, rw digit with_newline)

-- SET_PIN with digits of an allowed length, or with these and a newline behind, stores the
-- whole text as the PIN and approves the state, for a basic reader whose name is set.
pub handle_set_pin-all_digits :
    (reader_info : Bytes → ReaderInfo) (digits : Bytes) (context : Context)
    → is_empty context.reader_name ≡ false
    → (reader_info context.reader_name).basic_reader ≡ true
    → all_digits digits ≡ true
    → least_pin_length context.kind ≤ length digits
    → length digits ≤ 6
    → (handle_set_pin reader_info (string digits) context
        ≡ record context { pin = digits; state_approved = true })
      × (handle_set_pin reader_info (string (digits ++ newline)) context
          ≡ record context { pin = digits ++ newline; state_approved = true })
unfolding handle_set_pin parse_value
handle_set_pin-all_digits reader_info digits context name basic all low high =
    let (plain, with_newline) =
      matches_from-all_digits 0 (least_pin_length context.kind) 6 digits all (omega (arith, low))
        (omega (arith, high)) in
    (rw name (rw basic (rw plain refl)), rw name (rw basic (rw with_newline refl)))

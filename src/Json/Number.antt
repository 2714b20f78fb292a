-- ===== src/Json/Number.antt =====
-- ui/json/messages/MsgHandlerEnterNumber.cpp and the four handlers on it: the numbers that a
-- JSON command sets.
pub mod Accepted
use ausweis_app.Prelude.{
  ℕ, zero, suc, ◌+◌, Bool, true, false, not, ◌&&◌, ◌||◌, Option, none, some, List, [], ◌∷◌, ltb,
  leb, ◌==◌, if◌then◌else◌, is_empty,
}
use ausweis_app.Bytes.{Bytes}
use ausweis_app.Workflow.Reader.{ReaderInfo}
use ausweis_app.Workflow.Context.{Kind, Context}

-- The member "value" of the object of a command.
pub data JsonValue : Type 0 where
  undefined : JsonValue
  string : (text : Bytes) → JsonValue
  other : JsonValue

unfoldable pub is_digit : ℕ → Bool
is_digit x = leb 48 x && leb x 57

-- The end of a match of `$`: the end of the text, or before a newline that ends it.
abbrev pub at_end : Bytes → Bool
at_end [] = true
at_end (x ∷ []) = x == 10
at_end (x ∷ y ∷ rest) = false

-- A match of `^[0-9]{least,most}$`, by the number of digits before this place.
pub matches_from : ℕ → ℕ → ℕ → Bytes → Bool
unfolding is_digit
matches_from count least most [] = leb least count && leb count most
matches_from count least most (x ∷ rest) =
    let further = matches_from (count + 1) least most rest in
    if is_digit x then further else at_end (x ∷ rest) && leb least count && leb count most

pub data EntryError : Type 0 where
  no_card_inserted value_undefined invalid_value wrong_digits value_defined : EntryError

pub data Entry : Type 0 where
  accepted : Bytes → Entry
  rejected : EntryError → Entry

-- `parseValue`: the number that the function is called with, or the error.
unfoldable pub parse_value : (Bytes → ReaderInfo) → JsonValue → Context → ℕ → ℕ → Entry
unfolding matches_from
parse_value reader_info value context least most =
    if is_empty context.reader_name
    then rejected no_card_inserted
    else if (reader_info context.reader_name).basic_reader
    then elim value [
      | undefined ↦ rejected value_undefined
      | other ↦ rejected invalid_value
      | string number ↦
          if matches_from 0 least most number then accepted number else rejected wrong_digits
    ]
    else elim value [
      | undefined ↦ accepted []
      | string number ↦ rejected value_defined
      | other ↦ rejected value_defined
    ]

-- What a handler does with an accepted number: it is stored, and the state is approved.
abbrev pub set_entry : (Bytes → Context → Context) → Entry → Context → Context
set_entry store (accepted number) context = record (store number context) { state_approved = true }
set_entry store (rejected error) context = context

unfoldable pub least_pin_length : Kind → ℕ
least_pin_length (Kind.auth can_allowed chat description) = 6
least_pin_length (Kind.change_pin transport) = 5

abbrev pub store_pin : Bytes → Context → Context
store_pin number context = record context { pin = number }

abbrev pub store_can : Bytes → Context → Context
store_can number context = record context { can = number }

abbrev pub store_puk : Bytes → Context → Context
store_puk number context = record context { puk = number }

abbrev pub store_new_pin : Bytes → Context → Context
store_new_pin number context = record context { new_pin = number }

unfoldable pub handle_set_pin : (Bytes → ReaderInfo) → JsonValue → Context → Context
unfolding parse_value
handle_set_pin reader_info value context =
    set_entry store_pin (parse_value reader_info value context (least_pin_length context.kind) 6)
      context

unfoldable pub handle_set_can : (Bytes → ReaderInfo) → JsonValue → Context → Context
unfolding parse_value
handle_set_can reader_info value context =
    set_entry store_can (parse_value reader_info value context 6 6) context

unfoldable pub handle_set_puk : (Bytes → ReaderInfo) → JsonValue → Context → Context
unfolding parse_value
handle_set_puk reader_info value context =
    set_entry store_puk (parse_value reader_info value context 10 10) context

unfoldable pub handle_set_new_pin : (Bytes → ReaderInfo) → JsonValue → Context → Context
unfolding parse_value
handle_set_new_pin reader_info value context =
    set_entry store_new_pin (parse_value reader_info value context 6 6) context

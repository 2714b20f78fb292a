-- ===== src/Workflow/Reader.antt =====
-- What the workflows read of card/base/ReaderInfo.h, card/base/CardInfo.h and
-- card/base/CardConnection.h. A name is the list of its characters' codes; the retry counter -1
-- and the APDU length -1 are `none`.
use ausweis_app.Prelude.{ℕ, Bool, true, false, Option, none, some, [], leb}
use ausweis_app.Bytes.{Bytes}

pub data PlugInType : Type 0 where
  unknown pcsc nfc remote : PlugInType

pub record ReaderInfo : Type 0 where
  pub plug_in_type : PlugInType
  pub name : Bytes
  pub basic_reader : Bool
  pub connected : Bool
  pub max_apdu_length : Option ℕ
  -- The fields of its `CardInfo`.
  pub eid_card : Bool
  pub retry_counter : Option ℕ
  pub pin_deactivated : Bool

-- `ReaderInfo()`
abbrev pub no_reader : ReaderInfo
no_reader = record {
  plug_in_type = PlugInType.unknown;
  name = [];
  basic_reader = true;
  connected = false;
  max_apdu_length = some 500;
  eid_card = false;
  retry_counter = none;
  pin_deactivated = false;
}

unfoldable pub sufficient_apdu_length : ReaderInfo → Bool
sufficient_apdu_length info = elim info.max_apdu_length [
  | none ↦ true
  | some length ↦ leb 500 length
]

pub record CardConnection : Type 0 where
  pub reader_info : ReaderInfo
  pub pace_can_successful : Bool
  pub pace_pin_successful : Bool

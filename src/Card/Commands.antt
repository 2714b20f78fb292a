-- ===== src/Card/Commands.antt =====
-- card/base/SelectBuilder.cpp, ReadBinaryBuilder.cpp, GetChallengeBuilder.cpp, EABuilder.cpp,
-- PSOBuilder.cpp, ResetRetryCounterBuilder.cpp, MSEBuilder.cpp, GABuilder.cpp and FileRef.cpp: the
-- commands that are sent to a card. `encode` stands for `Asn1Util::encode`, which OpenSSL does.
use ausweis_app.Prelude.{ℕ, Option, none, some, [], ◌∷◌, ◌++◌}
use ausweis_app.Bytes.{Bytes, low_byte, high_byte}
use ausweis_app.Card.CommandApdu.{build, no_le, short_max_le}
use ausweis_app.Card.PasswordId.{PacePasswordId, password_value}

-- `CommandApdu::CLA` and `CLA_COMMAND_CHAINING`
abbrev pub cla : ℕ
cla = 0x00

pub record FileRef : Type 0 where
  pub kind : ℕ
  pub path : Bytes

abbrev pub ef_dir : FileRef
ef_dir = record { kind = 0x02; path = 0x2f ∷ 0x00 ∷ [] }

abbrev pub master_file : FileRef
master_file = record { kind = 0x00; path = 0x3f ∷ 0x00 ∷ [] }

abbrev pub ef_card_access : FileRef
ef_card_access = record { kind = 0x02; path = 0x01 ∷ 0x1c ∷ [] }

abbrev pub ef_card_security : FileRef
ef_card_security = record { kind = 0x02; path = 0x01 ∷ 0x1d ∷ [] }

abbrev pub app_esign : FileRef
app_esign = record {
  kind = 0x04;
  path = 0xa0 ∷ 0x00 ∷ 0x00 ∷ 0x01 ∷ 0x67 ∷ 0x45 ∷ 0x53 ∷ 0x49 ∷ 0x47 ∷ 0x4e ∷ [];
}

abbrev pub app_eid : FileRef
app_eid = record {
  kind = 0x04;
  path = 0xe8 ∷ 0x07 ∷ 0x04 ∷ 0x00 ∷ 0x7f ∷ 0x00 ∷ 0x07 ∷ 0x03 ∷ 0x02 ∷ [];
}

abbrev pub app_passport : FileRef
app_passport = record { kind = 0x04; path = 0xa0 ∷ 0x00 ∷ 0x00 ∷ 0x02 ∷ 0x47 ∷ 0x10 ∷ 0x01 ∷ [] }

abbrev pub app_persosim : FileRef
app_persosim = record { kind = 0x04; path = 0xf0 ∷ 0x4e ∷ 0x66 ∷ 0xe7 ∷ 0x5c ∷ 0x02 ∷ 0xd8 ∷ [] }

unfoldable pub select : FileRef → Bytes
unfolding build
select file = build cla 0xa4 file.kind 0x0c file.path no_le

-- `ReadBinaryBuilder::build`: the two low bytes of the offset.
unfoldable pub read_binary : ℕ → ℕ → Bytes
unfolding build
read_binary offset le = build cla 0xb0 (high_byte offset) (low_byte offset) [] le

unfoldable pub get_challenge : Bytes
unfolding build
get_challenge = build cla 0x84 0 0 [] 0x08

-- `mPin` is null where the PIN is only unblocked.
unfoldable pub reset_retry_counter : Option Bytes → Bytes
unfolding build
reset_retry_counter none = build cla 0x2c 3 3 [] no_le
reset_retry_counter (some pin) = build cla 0x2c 2 3 pin no_le

unfoldable pub external_authenticate : Bytes → Bytes
unfolding build
external_authenticate signature = build cla 0x82 0 0 signature no_le

unfoldable pub perform_security_operation : ℕ → ℕ → Bytes → Bytes → Bytes
unfolding build
perform_security_operation p1 p2 certificate_body signature =
    build cla 0x2a p1 p2 (certificate_body ++ signature) no_le

-- `MSEBuilder`, with what its setters store.
pub record MseBuilder : Type 0 where
  pub p1 : ℕ
  pub p2 : ℕ
  pub auxiliary_data : Bytes
  pub oid : Bytes
  pub public_key : Bytes
  pub private_key : Bytes
  pub ephemeral_public_key : Bytes
  pub chat : Bytes

unfoldable pub mse_builder : ℕ → ℕ → MseBuilder
mse_builder p1 p2 = record {
  p1 = p1;
  p2 = p2;
  auxiliary_data = [];
  oid = [];
  public_key = [];
  private_key = [];
  ephemeral_public_key = [];
  chat = [];
}

unfoldable pub manage_security_environment : MseBuilder → Bytes
unfolding build
manage_security_environment builder =
    build cla 0x22 builder.p1 builder.p2
      (builder.oid ++ builder.public_key ++ builder.private_key ++ builder.auxiliary_data
        ++ builder.ephemeral_public_key ++ builder.chat)
      no_le

-- `GABuilder`; what its setters have not stored is null.
pub record GaBuilder : Type 0 where
  pub class_byte : ℕ
  pub ca_ephemeral_public_key : Option Bytes
  pub pace_mapping_data : Option Bytes
  pub pace_ephemeral_public_key : Option Bytes
  pub pace_authentication_token : Option Bytes

abbrev pub first_set : Option Bytes → Bytes → Bytes
first_set none rest = rest
first_set (some field) rest = field

abbrev pub chosen_data : GaBuilder → Bytes
chosen_data builder = first_set builder.ca_ephemeral_public_key (
    first_set builder.pace_mapping_data (
      first_set builder.pace_ephemeral_public_key (first_set builder.pace_authentication_token [])))

module _ (encode : ℕ → Bytes → Bytes) where
  unfoldable pub set_oid : Bytes → MseBuilder → MseBuilder
  set_oid oid builder = record builder { oid = encode 0x80 oid }

  unfoldable pub set_public_key : Bytes → MseBuilder → MseBuilder
  set_public_key key builder = record builder { public_key = encode 0x83 key }

  unfoldable pub set_public_key_of : PacePasswordId → MseBuilder → MseBuilder
  set_public_key_of id builder = record builder {
    public_key = encode 0x83 (password_value id ∷ []);
  }

  unfoldable pub set_private_key : Bytes → MseBuilder → MseBuilder
  set_private_key key builder = record builder { private_key = encode 0x84 key }

  unfoldable pub set_ephemeral_public_key : Bytes → MseBuilder → MseBuilder
  set_ephemeral_public_key key builder = record builder { ephemeral_public_key = encode 0x91 key }

  unfoldable pub set_ca_ephemeral_public_key : Bytes → GaBuilder → GaBuilder
  set_ca_ephemeral_public_key key builder = record builder {
    ca_ephemeral_public_key = some (encode 0x80 key);
  }

  unfoldable pub set_pace_mapping_data : Bytes → GaBuilder → GaBuilder
  set_pace_mapping_data mapping builder = record builder {
    pace_mapping_data = some (encode 0x81 mapping);
  }

  unfoldable pub set_pace_ephemeral_public_key : Bytes → GaBuilder → GaBuilder
  set_pace_ephemeral_public_key key builder = record builder {
    pace_ephemeral_public_key = some (encode 0x83 key);
  }

  unfoldable pub set_pace_authentication_token : Bytes → GaBuilder → GaBuilder
  set_pace_authentication_token token builder = record builder {
    pace_authentication_token = some (encode 0x85 token);
  }

  unfoldable pub general_authenticate : GaBuilder → Bytes
  unfolding build
  general_authenticate builder =
      build builder.class_byte 0x86 0 0 (encode 0x7c (chosen_data builder)) short_max_le

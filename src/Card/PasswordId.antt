-- ===== src/Card/PasswordId.antt =====
-- card/base/SmartCardDefinitions.h: the passwords of PACE, and their values.
use ausweis_app.Prelude.{ℕ, Option, none, some, ◌==◌, if◌then◌else◌, ◌≡◌, refl}

pub data PacePasswordId : Type 0 where
  unknown pace_mrz pace_can pace_pin pace_puk : PacePasswordId

unfoldable pub password_value : PacePasswordId → ℕ
password_value PacePasswordId.unknown = 0x00
password_value PacePasswordId.pace_mrz = 0x01
password_value PacePasswordId.pace_can = 0x02
password_value PacePasswordId.pace_pin = 0x03
password_value PacePasswordId.pace_puk = 0x04

-- `Enum<PacePasswordId>::isValue` with the cast.
unfoldable pub password_of_value : ℕ → Option PacePasswordId
password_of_value n =
    if n == 0x00
    then some PacePasswordId.unknown
    else if n == 0x01
    then some PacePasswordId.pace_mrz
    else if n == 0x02
    then some PacePasswordId.pace_can
    else if n == 0x03
    then some PacePasswordId.pace_pin
    else if n == 0x04
    then some PacePasswordId.pace_puk
    else none

pub password_of_value-password_value :
    (id : PacePasswordId) → password_of_value (password_value id) ≡ some id
unfolding password_value password_of_value
password_of_value-password_value PacePasswordId.unknown = refl
password_of_value-password_value _ = refl

-- ===== src/Card/ResponseApdu/StatusCode.antt =====
-- card/base/ResponseApdu.h: the status codes that the code names.
use ausweis_app.Prelude.{ℕ}

abbrev pub empty : ℕ
empty = 0x0000

abbrev pub invalid : ℕ
invalid = 0x0001

abbrev pub success : ℕ
success = 0x9000

abbrev pub pin_deactivated : ℕ
pin_deactivated = 0x6283

abbrev pub input_timeout : ℕ
input_timeout = 0x6400

abbrev pub input_cancelled : ℕ
input_cancelled = 0x6401

abbrev pub passwords_differ : ℕ
passwords_differ = 0x6402

abbrev pub password_outof_range : ℕ
password_outof_range = 0x6403

abbrev pub invalid_sm_objects : ℕ
invalid_sm_objects = 0x6988

abbrev pub pin_blocked : ℕ
pin_blocked = 0x63c0

abbrev pub pin_suspended : ℕ
pin_suspended = 0x63c1

abbrev pub pin_retry_count_2 : ℕ
pin_retry_count_2 = 0x63c2

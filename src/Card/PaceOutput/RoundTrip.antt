-- ===== src/Card/PaceOutput/RoundTrip.antt =====
-- EstablishPaceChannelOutput.cpp: the output data and the return code that one side writes, and
-- what the other side reads from them.
use mathlib.Core.List.{append-nil, append_assoc}
use ausweis_app.Prelude.{
  ℕ, ◌+◌, ◌*◌, ◌/◌, ◌%◌, ◌≤◌, ◌≡◌, refl, ◌∙◌, true, false, [], ◌∷◌, ◌++◌, arith, le→ltb, length,
  take-length, is_empty, ◌&&◌,
}
use ausweis_app.Bytes.{Bytes, low_byte, high_byte, little_endian32-to_little_endian32}
use ausweis_app.Card.ReturnCode.{CardReturnCode}
use ausweis_app.Card.LengthValue.{
  write_byte_array, write_byte_array-field, field, read_byte_array-field, drop-field, length-field,
}
use ausweis_app.Card.PaceOutput.{
  EstablishPaceChannelOutput, init, parse_output_data, parse_result_code, parse, to_output_data,
  to_result_code,
}
use ausweis_app.Card.PaceOutput.ErrorCode.{error_value, parse_return_code, generate_return_code}
use ausweis_app.Card.PaceOutput.Relay.{relayed, error_value-lt}
use ausweis_app.Card.PaceOutput.Reading.{optional_fields, parse_cars-optional_fields}

-- The sizes that the formats can hold: two status bytes, an EF.CardAccess that is not empty, and
-- values whose lengths fit their length bytes.
pub record IsEncodable (output : EstablishPaceChannelOutput) : Type 0 where
  pub status_size : length output.status_mse_set_at ≡ 2
  pub access_present : is_empty output.ef_card_access ≡ false
  pub access_size : length output.ef_card_access ≤ 0xffff
  pub curr_size : length output.car_curr ≤ 0xff
  pub prev_size : length output.car_prev ≤ 0xff
  pub icc_size : length output.id_icc ≤ 0xffff

module _ (code : CardReturnCode) (status access : Bytes) where
  abbrev make : Bytes → Bytes → Bytes → EstablishPaceChannelOutput
  make icc curr prev = record {
    pace_return_code = code;
    status_mse_set_at = status;
    ef_card_access = access;
    id_icc = icc;
    car_curr = curr;
    car_prev = prev;
  }

  module _ (ha : length access ≤ 0xffff) where
    w2 : (v out : Bytes) → length v ≤ 0xffff → write_byte_array 2 v out ≡ out ++ field 2 v
    w2 v out h = write_byte_array-field 2 v out (omega arith) (omega arith)

    w1 : (v out : Bytes) → length v ≤ 0xff → write_byte_array 1 v out ≡ out ++ field 1 v
    w1 v out h = write_byte_array-field 1 v out (omega arith) (omega arith)

    icc_written :
        (curr prev icc : Bytes)
        → length curr ≤ 0xff
        → length prev ≤ 0xff
        → length icc ≤ 0xffff
        → write_byte_array 2 icc
            (write_byte_array 1 prev (write_byte_array 1 curr (write_byte_array 2 access status)))
          ≡ status ++ (field 2 access ++ (field 1 curr ++ (field 1 prev ++ (field 2 icc ++ []))))
    icc_written curr prev icc hc hp hi =
        rw
          (w2 icc
            (write_byte_array 1 prev (write_byte_array 1 curr (write_byte_array 2 access status)))
            hi)
          (rw (w1 prev (write_byte_array 1 curr (write_byte_array 2 access status)) hp) (
            rw (w1 curr (write_byte_array 2 access status) hc)
              (rw (w2 access status ha) (simp (append_assoc, append-nil)))))

    prev_written :
        (curr prev : Bytes)
        → length curr ≤ 0xff
        → length prev ≤ 0xff
        → write_byte_array 1 prev (write_byte_array 1 curr (write_byte_array 2 access status))
          ≡ status ++ (field 2 access ++ (field 1 curr ++ (field 1 prev ++ [])))
    prev_written curr prev hc hp =
        rw (w1 prev (write_byte_array 1 curr (write_byte_array 2 access status)) hp) (
          rw (w1 curr (write_byte_array 2 access status) hc)
            (rw (w2 access status ha) (simp (append_assoc, append-nil))))

    curr_written :
        (curr : Bytes)
        → length curr ≤ 0xff
        → write_byte_array 1 curr (write_byte_array 2 access status)
          ≡ status ++ (field 2 access ++ (field 1 curr ++ []))
    curr_written curr hc =
        rw (w1 curr (write_byte_array 2 access status) hc)
          (rw (w2 access status ha) (simp (append_assoc, append-nil)))

    access_written : write_byte_array 2 access status ≡ status ++ (field 2 access ++ [])
    access_written = rw (w2 access status ha) (simp (append_assoc, append-nil))

    written :
        (curr prev icc : Bytes)
        → length curr ≤ 0xff
        → length prev ≤ 0xff
        → length icc ≤ 0xffff
        → to_output_data (make icc curr prev)
          ≡ status ++ (field 2 access ++ optional_fields curr prev icc)
    unfolding to_output_data
    written [] [] [] hc hp hi = access_written
    written (x ∷ xs) [] [] hc hp hi = curr_written (x ∷ xs) hc
    written [] (p ∷ ps) [] hc hp hi = prev_written [] (p ∷ ps) hc hp
    written (x ∷ xs) (p ∷ ps) [] hc hp hi = prev_written (x ∷ xs) (p ∷ ps) hc hp
    written [] [] (i ∷ is) hc hp hi = icc_written [] [] (i ∷ is) hc hp hi
    written (x ∷ xs) [] (i ∷ is) hc hp hi = icc_written (x ∷ xs) [] (i ∷ is) hc hp hi
    written [] (p ∷ ps) (i ∷ is) hc hp hi = icc_written [] (p ∷ ps) (i ∷ is) hc hp hi
    written (x ∷ xs) (p ∷ ps) (i ∷ is) hc hp hi = icc_written (x ∷ xs) (p ∷ ps) (i ∷ is) hc hp hi

-- The status bytes in cons form, and an EF.CardAccess that is not empty.
module _ (old : EstablishPaceChannelOutput) (a b : ℕ) (access curr prev icc : Bytes)
    (present : is_empty access ≡ false) (ha : length access ≤ 0xffff) (hc : length curr ≤ 0xff)
    (hp : length prev ≤ 0xff) (hi : length icc ≤ 0xffff) where
  abbrev content : Bytes
  content = a ∷ b ∷ (field 2 access ++ optional_fields curr prev icc)

  after_access : ℕ
  after_access = 2 + 2 + length access

  content_size : length content ≡ after_access + length (optional_fields curr prev icc)
  unfolding after_access
  content_size =
      length-field 2 2 content access (optional_fields curr prev icc) (omega arith) (omega arith)
        refl

  parse_content :
      parse_output_data old content
      ≡ (true, make old.pace_return_code (a ∷ b ∷ []) access icc curr prev)
  unfolding parse_output_data after_access
  parse_content =
      let rest = optional_fields curr prev icc in
      rw (le→ltb (length content) 4 (omega (arith, content_size))) (
        rw (read_byte_array-field 2 2 content access rest (omega arith) (omega arith) refl) (
          rw present (
            parse_cars-optional_fields (make old.pace_return_code (a ∷ b ∷ []) access [] [] [])
              content after_access (omega (arith, content_size)) curr prev icc hc hp hi
              (drop-field 2 2 content access rest (omega arith) (omega arith) refl))))

two_bytes : (xs : Bytes) → length xs ≡ 2 → (a : ℕ) × (b : ℕ) × (xs ≡ a ∷ b ∷ [])
two_bytes [] h = absurd (omega arith)
two_bytes (x ∷ []) h = absurd (omega arith)
two_bytes (x ∷ y ∷ []) h = (x, y, refl)
two_bytes (x ∷ y ∷ z ∷ zs) h = absurd (omega arith)

-- If the status of MSE:Set AT has two bytes, EF.CardAccess is not empty and has at most 0xFFFF
-- bytes, each reference at most 0xFF and the IdICC at most 0xFFFF, then the output data that
-- toOutputData wrote is accepted by parseOutputData with the values written, whichever of the
-- two references and the IdICC are present.
pub parse_output_data-to_output_data :
    (old output : EstablishPaceChannelOutput)
    → IsEncodable output
    → parse_output_data old (to_output_data output)
      ≡ (true, record output { pace_return_code = old.pace_return_code })
parse_output_data-to_output_data old output h =
    let (a, b, e) = two_bytes output.status_mse_set_at h.status_size in
    let content =
      written output.pace_return_code output.status_mse_set_at output.ef_card_access h.access_size
        output.car_curr output.car_prev output.id_icc h.curr_size h.prev_size h.icc_size in
    rw content (
      rw e (
        parse_content old a b output.ef_card_access output.car_curr output.car_prev output.id_icc
          h.access_present h.access_size h.curr_size h.prev_size h.icc_size))

-- The whole output of the command: return code, length of the data, and the data.
abbrev pub control_output : EstablishPaceChannelOutput → Bytes
control_output output =
    let content = to_output_data output in
    to_result_code output ++ low_byte (length content) ∷ high_byte (length content) ∷ content

-- `parse` over an output in cons form whose length bytes fit.
parse_message :
    (old : EstablishPaceChannelOutput) (c0 c1 c2 c3 : ℕ) (content : Bytes)
    → length content ≤ 0xffff
    → let code = parse_return_code (c0 + c1 * 256 + c2 * 65536 + c3 * 16777216) in
      let result =
        parse_output_data
          (record (init CardReturnCode.command_failed) { pace_return_code = code })
          content in
      parse old
        (c0 ∷ c1 ∷ c2 ∷ c3 ∷ low_byte (length content) ∷ high_byte (length content) ∷ content)
      ≡ (result.0 && true, result.1)
unfolding parse parse_result_code
parse_message old c0 c1 c2 c3 content h =
    let input : Bytes =
      c0 ∷ c1 ∷ c2 ∷ c3 ∷ low_byte (length content) ∷ high_byte (length content) ∷ content in
    let size_read : low_byte (length content) + high_byte (length content) * 256 ≡ length content =
      omega arith in
    rw (le→ltb (length input) 6 (omega arith)) (
      rw (le→ltb (length input) 4 (omega arith)) (
        rw size_read (
          rw (le→ltb (length input) (6 + length content) (omega arith))
            (rw (take-length content)))))

-- If the status of MSE:Set AT has two bytes, EF.CardAccess is not empty and has at most 0xFFFF
-- bytes, each reference at most 0xFF, the IdICC at most 0xFFFF and all output data together at
-- most 0xFFFF, then the whole output of the PACE channel command is accepted by parse with the
-- values that were written and the return code as it arrives.
pub parse-control_output :
    (old output : EstablishPaceChannelOutput)
    → IsEncodable output
    → length (to_output_data output) ≤ 0xffff
    → parse old (control_output output)
      ≡ (true, record output { pace_return_code = relayed output.pace_return_code })
unfolding to_result_code relayed init
parse-control_output old output h size =
    let content = to_output_data output in
    let code = error_value (generate_return_code output.pace_return_code) in
    parse_message old (code % 256) (code / 256 % 256) (code / 65536 % 256) (code / 16777216 % 256)
      content size
    ∙ rw (little_endian32-to_little_endian32 code (error_value-lt _)) (
        rw (
          parse_output_data-to_output_data
            (record (init CardReturnCode.command_failed) {
              pace_return_code = parse_return_code code;
            })
            output h))

-- ===== src/Card/PaceOutput/Reading.antt =====
-- EstablishPaceChannelOutput.cpp: the parts of `parseOutputData`, over an input that holds the
-- fields that `toOutputData` writes.
use ausweis_app.Prelude.{
  ℕ, ◌+◌, ◌≤◌, ◌≡◌, ap, ◌∙◌, Bool, true, [], ◌∷◌, ◌++◌, arith, le→ltb, ==_iff, length, lt→==,
  length-drop, drop,
}
use ausweis_app.Bytes.{Bytes}
use ausweis_app.Card.LengthValue.{
  field, read_byte_array-field, read_byte_array-end, drop-field, length-field,
}
use ausweis_app.Card.PaceOutput.{
  EstablishPaceChannelOutput, parse_id_icc, parse_car_prev, parse_car_curr, parse_cars,
}

module _ (output : EstablishPaceChannelOutput) (input : Bytes) (it : ℕ) where
  parse_id_icc-end :
      it ≡ length input → parse_id_icc output input it ≡ (true, record output { id_icc = [] })
  unfolding parse_id_icc
  parse_id_icc-end e =
      rw (read_byte_array-end 2 it input (omega arith) e) (rw ((==_iff it (length input)).1 e))

  parse_id_icc-field :
      (value : Bytes)
      → length value ≤ 0xffff
      → drop it input ≡ field 2 value ++ []
      → parse_id_icc output input it ≡ (true, record output { id_icc = value })
  unfolding parse_id_icc
  parse_id_icc-field value h e =
      rw (read_byte_array-field 2 it input value [] (omega arith) (omega arith) e) (
        rw (
          (==_iff (it + 2 + length value) (length input)).1
            (omega (arith, length-field 2 it input value [] (omega arith) (omega arith) e))))

  parse_car_prev-end :
      it ≡ length input
      → parse_car_prev output input it ≡ parse_id_icc (record output { car_prev = [] }) input it
  unfolding parse_car_prev
  parse_car_prev-end e =
      rw (read_byte_array-end 1 it input (omega arith) e)
        (rw (le→ltb (length input) it (omega arith)))

  parse_car_prev-field :
      (value rest : Bytes)
      → length value ≤ 0xff
      → drop it input ≡ field 1 value ++ rest
      → parse_car_prev output input it
        ≡ parse_id_icc (record output { car_prev = value }) input (it + 1 + length value)
  unfolding parse_car_prev
  parse_car_prev-field value rest h e =
      rw (read_byte_array-field 1 it input value rest (omega arith) (omega arith) e) (
        rw (
          le→ltb (length input) (it + 1 + length value)
            (omega (arith, length-field 1 it input value rest (omega arith) (omega arith) e))))

  parse_cars-field :
      (value rest : Bytes)
      → length value ≤ 0xff
      → drop it input ≡ field 1 value ++ rest
      → parse_cars output input it
        ≡ parse_car_prev (record output { car_curr = value }) input (it + 1 + length value)
  unfolding parse_cars parse_car_curr
  parse_cars-field value rest h e =
      let size = length-field 1 it input value rest (omega arith) (omega arith) e in
      rw (lt→== it (length input) (omega (arith, size))) (
        rw (le→ltb (length input) it (omega (arith, size))) (
          rw (read_byte_array-field 1 it input value rest (omega arith) (omega arith) e)
            (rw (le→ltb (length input) (it + 1 + length value) (omega (arith, size))))))

  parse_cars-end : it ≡ length input → parse_cars output input it ≡ (true, output)
  unfolding parse_cars
  parse_cars-end e = rw ((==_iff it (length input)).1 e)

-- What `toOutputData` writes behind the two fields that are always there.
abbrev pub optional_fields : Bytes → Bytes → Bytes → Bytes
optional_fields [] [] [] = []
optional_fields (x ∷ xs) [] [] = field 1 (x ∷ xs) ++ []
optional_fields curr (p ∷ ps) [] = field 1 curr ++ (field 1 (p ∷ ps) ++ [])
optional_fields curr prev (i ∷ is) = field 1 curr ++ (field 1 prev ++ (field 2 (i ∷ is) ++ []))

module _ (base : EstablishPaceChannelOutput) (input : Bytes) (it : ℕ)
    (inside : it ≤ length input) where
  abbrev read : Bytes → Bytes → Bytes → Bool × EstablishPaceChannelOutput
  read curr prev icc = (true, record base { car_curr = curr; car_prev = prev; id_icc = icc })

  abbrev fresh : EstablishPaceChannelOutput
  fresh = record base { car_curr = []; car_prev = []; id_icc = [] }

  at_end : drop it input ≡ [] → it ≡ length input
  at_end e = omega (arith, length-drop it input, ap length e)

  parse_cars-curr :
      (curr : Bytes)
      → length curr ≤ 0xff
      → drop it input ≡ field 1 curr ++ []
      → parse_cars fresh input it ≡ read curr [] []
  parse_cars-curr curr hc e =
      let end : it + 1 + length curr ≡ length input =
        omega (arith, length-field 1 it input curr [] (omega arith) (omega arith) e) in
      parse_cars-field fresh input it curr [] hc e
      ∙ parse_car_prev-end (record fresh { car_curr = curr }) input (it + 1 + length curr) end
      ∙ parse_id_icc-end (record fresh { car_curr = curr }) input (it + 1 + length curr) end

  parse_cars-prev :
      (curr prev : Bytes)
      → length curr ≤ 0xff
      → length prev ≤ 0xff
      → drop it input ≡ field 1 curr ++ (field 1 prev ++ [])
      → parse_cars fresh input it ≡ read curr prev []
  parse_cars-prev curr prev hc hp e =
      let e' = drop-field 1 it input curr (field 1 prev ++ []) (omega arith) (omega arith) e in
      let it' = it + 1 + length curr in
      let output = record fresh { car_curr = curr; car_prev = prev } in
      parse_cars-field fresh input it curr (field 1 prev ++ []) hc e
      ∙ parse_car_prev-field (record fresh { car_curr = curr }) input it' prev [] hp e'
      ∙ parse_id_icc-end output input (it' + 1 + length prev)
          (omega (arith, length-field 1 it' input prev [] (omega arith) (omega arith) e'))

  parse_cars-icc :
      (curr prev icc : Bytes)
      → length curr ≤ 0xff
      → length prev ≤ 0xff
      → length icc ≤ 0xffff
      → drop it input ≡ field 1 curr ++ (field 1 prev ++ (field 2 icc ++ []))
      → parse_cars fresh input it ≡ read curr prev icc
  parse_cars-icc curr prev icc hc hp hi e =
      let behind_prev = field 2 icc ++ [] in
      let e' =
        drop-field 1 it input curr (field 1 prev ++ behind_prev) (omega arith) (omega arith) e in
      let it' = it + 1 + length curr in
      let e'' = drop-field 1 it' input prev behind_prev (omega arith) (omega arith) e' in
      let output = record fresh { car_curr = curr; car_prev = prev } in
      parse_cars-field fresh input it curr (field 1 prev ++ behind_prev) hc e
      ∙ parse_car_prev-field (record fresh { car_curr = curr }) input it' prev behind_prev hp e'
      ∙ parse_id_icc-field output input (it' + 1 + length prev) icc hi e''

  pub parse_cars-optional_fields :
      (curr prev icc : Bytes)
      → length curr ≤ 0xff
      → length prev ≤ 0xff
      → length icc ≤ 0xffff
      → drop it input ≡ optional_fields curr prev icc
      → parse_cars fresh input it ≡ read curr prev icc
  parse_cars-optional_fields [] [] [] hc hp hi e = parse_cars-end fresh input it (at_end e)
  parse_cars-optional_fields (x ∷ xs) [] [] hc hp hi e = parse_cars-curr (x ∷ xs) hc e
  parse_cars-optional_fields [] (p ∷ ps) [] hc hp hi e = parse_cars-prev [] (p ∷ ps) hc hp e
  parse_cars-optional_fields (x ∷ xs) (p ∷ ps) [] hc hp hi e =
      parse_cars-prev (x ∷ xs) (p ∷ ps) hc hp e
  parse_cars-optional_fields [] [] (i ∷ is) hc hp hi e = parse_cars-icc [] [] (i ∷ is) hc hp hi e
  parse_cars-optional_fields (x ∷ xs) [] (i ∷ is) hc hp hi e =
      parse_cars-icc (x ∷ xs) [] (i ∷ is) hc hp hi e
  parse_cars-optional_fields [] (p ∷ ps) (i ∷ is) hc hp hi e =
      parse_cars-icc [] (p ∷ ps) (i ∷ is) hc hp hi e
  parse_cars-optional_fields (x ∷ xs) (p ∷ ps) (i ∷ is) hc hp hi e =
      parse_cars-icc (x ∷ xs) (p ∷ ps) (i ∷ is) hc hp hi e

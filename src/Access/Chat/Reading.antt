-- ===== src/Access/Chat/Reading.antt =====
-- What is read of a CHAT: the rights as a number of 64 bits, the role from the first byte.
use ausweis_app.Prelude.{
  ℕ, ◌+◌, ◌-◌, ◌*◌, ◌/◌, ◌%◌, ◌^◌, ◌<◌, zero, suc, ◌≡◌, refl, sym, ap, ◌∙◌, subst, Bool, true,
  false, ◌&&◌, [], ◌∷◌, ◌==◌, lt→ltb, length, All, arith,
}
use native.Mathlib.Nat.{div-div-eq-div-mul}
use native.Mathlib.Numerals.{towards_suc}
use ausweis_app.Bytes.{Bytes, at}
use ausweis_app.Access.Chat.{
  AccessRole, cvca, dv_od, dv_no_f, at_terminal, get_access_role, bit, number_from,
  get_access_rights,
}
use ausweis_app.Access.Chat.Bits.{IsTemplate, template_bit}

-- A number that ends with a byte: its low bits, and the others.
bit_low : (s m b : ℕ) → s < 8 → b < 256 → bit s (m * 256 + b) ≡ bit s b
bit_low s m b hs hb = ap (λ n. n == 1) (low s hs)
  where
    low : (s : ℕ) → s < 8 → (m * 256 + b) / 2 ^ s % 2 ≡ b / 2 ^ s % 2
    low zero h = omega arith
    low (suc zero) h = omega arith
    low (suc (suc zero)) h = omega arith
    low (suc (suc (suc zero))) h = omega arith
    low (suc (suc (suc (suc zero)))) h = omega arith
    low (suc (suc (suc (suc (suc zero))))) h = omega arith
    low (suc (suc (suc (suc (suc (suc zero)))))) h = omega arith
    low (suc (suc (suc (suc (suc (suc (suc zero))))))) h = omega arith
    low (suc (suc (suc (suc (suc (suc (suc (suc s)))))))) h = absurd (omega arith)

two_pow_add8 : (i : ℕ) → 2 ^ (i + 8) ≡ 256 * 2 ^ i
two_pow_add8 i = simp towards_suc (omega arith)

bit_shift : (i m b : ℕ) → b < 256 → bit (i + 8) (m * 256 + b) ≡ bit i m
bit_shift i m b hb =
    ap (λ n. n % 2 == 1)
      (ap (λ d. (m * 256 + b) / d) (two_pow_add8 i)
        ∙ sym (div-div-eq-div-mul (m * 256 + b) 256 (2 ^ i))
        ∙ ap (λ n. n / 2 ^ i) (omega arith))

number_from-five :
    (a b c d e : ℕ)
    → All (λ byte. byte < 256) (a ∷ b ∷ c ∷ d ∷ e ∷ [])
    → number_from 0 (a ∷ b ∷ c ∷ d ∷ e ∷ []) ≡ (((a * 256 + b) * 256 + c) * 256 + d) * 256 + e
unfolding number_from
number_from-five a b c d e h = omega arith

module _ (a b c d e s : ℕ) (hs : s < 8)
    (h : All (λ byte. byte < 256) (a ∷ b ∷ c ∷ d ∷ e ∷ [])) where
  template_number : ℕ
  template_number = (((a * 256 + b) * 256 + c) * 256 + d) * 256 + e

  -- The byte that holds the bit, from the last one on.
  bit_number :
      (q : ℕ)
      → q < 5
      → bit (s + 8 * q) template_number ≡ bit s (at (a ∷ b ∷ c ∷ d ∷ e ∷ []) (4 - q))
  unfolding template_number
  bit_number zero hq =
      ap (λ i. bit i template_number) (omega arith)
      ∙ bit_low s (((a * 256 + b) * 256 + c) * 256 + d) e hs (omega (arith, h))
  bit_number (suc zero) hq =
      bit_shift s (((a * 256 + b) * 256 + c) * 256 + d) e (omega (arith, h))
      ∙ bit_low s ((a * 256 + b) * 256 + c) d hs (omega (arith, h))
  bit_number (suc (suc zero)) hq =
      ap (λ i. bit i template_number) (omega arith)
      ∙ bit_shift (s + 8) (((a * 256 + b) * 256 + c) * 256 + d) e (omega (arith, h))
      ∙ bit_shift s ((a * 256 + b) * 256 + c) d (omega (arith, h))
      ∙ bit_low s (a * 256 + b) c hs (omega (arith, h))
  bit_number (suc (suc (suc zero))) hq =
      ap (λ i. bit i template_number) (omega arith)
      ∙ bit_shift (s + 8 + 8) (((a * 256 + b) * 256 + c) * 256 + d) e (omega (arith, h))
      ∙ bit_shift (s + 8) ((a * 256 + b) * 256 + c) d (omega (arith, h))
      ∙ bit_shift s (a * 256 + b) c (omega (arith, h))
      ∙ bit_low s a b hs (omega (arith, h))
  bit_number (suc (suc (suc (suc zero)))) hq =
      ap (λ i. bit i template_number) (omega arith)
      ∙ bit_shift (s + 8 + 8 + 8) (((a * 256 + b) * 256 + c) * 256 + d) e (omega (arith, h))
      ∙ bit_shift (s + 8 + 8) ((a * 256 + b) * 256 + c) d (omega (arith, h))
      ∙ bit_shift (s + 8) (a * 256 + b) c (omega (arith, h))
      ∙ bit_shift s a b (omega (arith, h))
  bit_number (suc (suc (suc (suc (suc q))))) hq = absurd (omega arith)

template_bytes :
    (template : Bytes)
    → length template ≡ 5
    → (a : ℕ) × (b : ℕ) × (c : ℕ) × (d : ℕ) × (e : ℕ) × (template ≡ a ∷ b ∷ c ∷ d ∷ e ∷ [])
template_bytes [] h = absurd (omega (arith, h))
template_bytes (a ∷ []) h = absurd (omega (arith, h))
template_bytes (a ∷ b ∷ []) h = absurd (omega (arith, h))
template_bytes (a ∷ b ∷ c ∷ []) h = absurd (omega (arith, h))
template_bytes (a ∷ b ∷ c ∷ d ∷ []) h = absurd (omega (arith, h))
template_bytes (a ∷ b ∷ c ∷ d ∷ e ∷ []) h = (a, b, c, d, e, refl)
template_bytes (a ∷ b ∷ c ∷ d ∷ e ∷ f ∷ g) h = absurd (omega (arith, h))

get_access_rights-five :
    (a b c d e r : ℕ)
    → All (λ byte. byte < 256) (a ∷ b ∷ c ∷ d ∷ e ∷ [])
    → r < 38
    → get_access_rights (a ∷ b ∷ c ∷ d ∷ e ∷ []) r ≡ template_bit (a ∷ b ∷ c ∷ d ∷ e ∷ []) r
unfolding get_access_rights template_number
get_access_rights-five a b c d e r h hr =
    ap (λ known. known && bit r (number_from 0 (a ∷ b ∷ c ∷ d ∷ e ∷ []))) (lt→ltb r 38 hr)
    ∙ ap (bit r) (number_from-five a b c d e h)
    ∙ ap (λ i. bit i ((((a * 256 + b) * 256 + c) * 256 + d) * 256 + e)) (omega arith)
    ∙ bit_number a b c d e (r % 8) (omega arith) h (r / 8) (omega arith)

-- The rights that are read are the bits of the template.
pub get_access_rights-template_bit :
    (template : Bytes) (r : ℕ)
    → IsTemplate template
    → r < 38
    → get_access_rights template r ≡ template_bit template r
get_access_rights-template_bit template r (five, small) hr =
    let (a, b, c, d, e, same) = template_bytes template five in
    subst (λ t. get_access_rights t r ≡ template_bit t r) (sym same)
      (get_access_rights-five a b c d e r (subst (λ t. All (λ byte. byte < 256) t) same small) hr)

abbrev pub role_of : Bool → Bool → AccessRole
role_of true true = cvca
role_of true false = dv_od
role_of false true = dv_no_f
role_of false false = at_terminal

-- The role is read of the bits 39 and 38.
pub get_access_role-template_bit :
    (template : Bytes)
    → IsTemplate template
    → get_access_role template ≡ role_of (template_bit template 39) (template_bit template 38)
unfolding get_access_role
get_access_role-template_bit [] (five, small) = absurd (omega (arith, five))
get_access_role-template_bit (x ∷ xs) (five, small) = ground arith

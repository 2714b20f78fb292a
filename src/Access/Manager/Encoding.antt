-- ===== src/Access/Manager/Encoding.antt =====
-- The CHAT that a manager encodes.
use ausweis_app.Prelude.{
  ℕ, ◌<◌, ◌≡◌, refl, sym, ap, ◌∙◌, Bool, true, false, ◌&&◌, List, [], ◌∷◌, ◌==◌, ==_iff, lt→ltb,
  All, arith, &&-split, Bool-cases, inl, inr, if◌then◌else◌, ltb,
}
use ausweis_app.Bytes.{Bytes}
use ausweis_app.Access.Rights.{AccessRight, Rights, all_rights, elements, list_contains}
use ausweis_app.Access.Chat.{
  set_bits, get_access_rights, set_access_rights, remove_all_access_rights, get_access_role,
}
use ausweis_app.Access.Chat.Bits.{
  ltb→lt, IsTemplate, template_bit, set_bits-IsTemplate, template_bit-set_bits,
}
use ausweis_app.Access.Chat.Reading.{
  get_access_rights-template_bit, get_access_role-template_bit, role_of,
}
use ausweis_app.Access.Manager.{effective_chat}

elements-contains :
    (xs : List AccessRight) (rights : Rights) (right : AccessRight)
    → list_contains (elements xs rights) right ≡ (list_contains xs right && rights right)
unfolding elements list_contains
elements-contains [] rights right = refl
elements-contains (x ∷ xs) rights right =
    let rest = elements-contains xs rights right in
    elim (Bool-cases (right == x)) [
      | inl same ↦ rw (sym ((==_iff right x).0 same)) (ground (arith, rest))
      | inr other ↦ ground (arith, rest, other)
    ]

all_rights-contains : (right : AccessRight) → list_contains all_rights right ≡ ltb right 38
unfolding list_contains all_rights
all_rights-contains right = ground arith

elements-small :
    (xs : List AccessRight) (rights : Rights)
    → All (λ right. right < 40) xs
    → All (λ right. right < 40) (elements xs rights)
unfolding elements
elements-small [] rights h = h
elements-small (x ∷ xs) rights h = kept (rights x) (elements-small xs rights h.1)
  where
    kept :
        (b : Bool)
        → All (λ right. right < 40) (elements xs rights)
        → All (λ right. right < 40) (if b then x ∷ elements xs rights else elements xs rights)
    kept true rest = (h.0, rest)
    kept false rest = rest

all_small : List AccessRight → Bool
all_small [] = true
all_small (x ∷ xs) = ltb x 40 && all_small xs

all_small_sound : (xs : List AccessRight) → all_small xs ≡ true → All (λ right. right < 40) xs
unfolding all_small
all_small_sound [] h = tt
all_small_sound (x ∷ xs) h =
    let (first, rest) = &&-split (ltb x 40) (all_small xs) h in
    (ltb→lt first, all_small_sound xs rest)

all_rights-small : (rights : Rights) → All (λ right. right < 40) (elements all_rights rights)
unfolding all_rights all_small
all_rights-small rights = elements-small all_rights rights (all_small_sound all_rights refl)

-- The bits of the template once a loop has switched those of a set of rights.
set_bits-elements :
    (on : Bool) (rights : Rights) (template : Bytes) (r : ℕ)
    → r < 40
    → IsTemplate template
    → template_bit (set_bits on (elements all_rights rights) template) r
      ≡ (if ltb r 38 && rights r then on else template_bit template r)
set_bits-elements on rights template r hr t =
    template_bit-set_bits on (elements all_rights rights) template r (all_rights-small rights) hr t
    ∙ ap (λ b. if b then on else template_bit template r)
        (elements-contains all_rights rights r ∙ ap (λ b. b && rights r) (all_rights-contains r))

cleared :
    (known now was bit : Bool)
    → (known ≡ true → was ≡ bit)
    → (if known && now then true else if known && was then false else bit)
      ≡ (if known then now else bit)
cleared known now was bit h = ground arith

module _ (rights : Rights) (template : Bytes) (t : IsTemplate template) where
  effective_chat-IsTemplate : IsTemplate (effective_chat template rights)
  unfolding effective_chat set_access_rights remove_all_access_rights
  effective_chat-IsTemplate =
      set_bits-IsTemplate true (elements all_rights rights) (remove_all_access_rights template)
        (all_rights-small rights)
        (set_bits-IsTemplate false (elements all_rights (get_access_rights template)) template
          (all_rights-small (get_access_rights template)) t)

  remove_all-IsTemplate : IsTemplate (remove_all_access_rights template)
  unfolding remove_all_access_rights
  remove_all-IsTemplate =
      set_bits-IsTemplate false (elements all_rights (get_access_rights template)) template
        (all_rights-small (get_access_rights template)) t

  template_bit-effective_chat :
      (r : ℕ)
      → r < 40
      → template_bit (effective_chat template rights) r
        ≡ (if ltb r 38 then rights r else template_bit template r)
  unfolding effective_chat set_access_rights remove_all_access_rights
  template_bit-effective_chat r hr =
      let removed = remove_all_access_rights template in
      set_bits-elements true rights removed r hr remove_all-IsTemplate
      ∙ ap (λ b. if ltb r 38 && rights r then true else b)
          (set_bits-elements false (get_access_rights template) template r hr t)
      ∙ cleared (ltb r 38) (rights r) (get_access_rights template r) (template_bit template r)
          (λ known. get_access_rights-template_bit template r t (ltb→lt known))

  -- the encoded CHAT
  pub get_access_rights-effective_chat :
      ((r : ℕ) → r < 38 → get_access_rights (effective_chat template rights) r ≡ rights r)
      × (get_access_role (effective_chat template rights) ≡ get_access_role template)
      × IsTemplate (effective_chat template rights)
  get_access_rights-effective_chat = (
    (λ r hr.
        get_access_rights-template_bit (effective_chat template rights) r effective_chat-IsTemplate
          hr
        ∙ template_bit-effective_chat r (omega arith)
        ∙ rw (lt→ltb r 38 hr) refl),
    get_access_role-template_bit (effective_chat template rights) effective_chat-IsTemplate
        ∙ ap (λ b. role_of b (template_bit (effective_chat template rights) 38))
            (template_bit-effective_chat 39 (omega arith))
        ∙ ap (role_of (template_bit template 39)) (template_bit-effective_chat 38 (omega arith))
        ∙ sym (get_access_role-template_bit template t),
    effective_chat-IsTemplate,
  )

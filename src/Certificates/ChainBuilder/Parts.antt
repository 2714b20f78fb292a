-- ===== src/Certificates/ChainBuilder/Parts.antt =====
-- Parts of the chains that are kept: what is found in a chain stays found.
use ausweis_app.Prelude.{
  ◌≡◌, refl, ◌∙◌, Bool, true, false, not, ◌&&◌, ◌||◌, List, [], ◌∷◌, ◌++◌, if◌then◌else◌,
  Bool-cases, inl, inr, arith,
}
use ausweis_app.Certificates.ChainBuilder.{is_prefix, is_part, is_sub_chain, keep}

module _ {ℓ} {A : Type ℓ} (same : A → A → Bool) where
  -- Whatever is a part of a chain is one of a chain of the longer list.
  abbrev pub Grows : List (List A) → List (List A) → Type ℓ
  Grows chains built =
      (sub : List A) → is_sub_chain same chains sub ≡ true → is_sub_chain same built sub ≡ true

  is_prefix-snoc :
      (xs ys : List A) (elem : A)
      → is_prefix same (xs ++ (elem ∷ [])) ys ≡ true
      → is_prefix same xs ys ≡ true
  unfolding is_prefix
  is_prefix-snoc [] ys elem h = refl
  is_prefix-snoc (x ∷ xs) [] elem h = h
  is_prefix-snoc (x ∷ xs) (y ∷ ys) elem h =
      let rest = is_prefix-snoc xs ys elem in ground (arith, h, rest)

  is_part-snoc :
      (xs ys : List A) (elem : A)
      → is_part same (xs ++ (elem ∷ [])) ys ≡ true
      → is_part same xs ys ≡ true
  unfolding is_part
  is_part-snoc xs [] elem h = is_prefix-snoc xs [] elem h
  is_part-snoc xs (y ∷ ys) elem h =
      let here = is_prefix-snoc xs (y ∷ ys) elem in
      let rest = is_part-snoc xs ys elem in ground (arith, h, here, rest)

  is_prefix-is_part : (xs ys : List A) → is_prefix same xs ys ≡ true → is_part same xs ys ≡ true
  unfolding is_part
  is_prefix-is_part xs [] h = h
  is_prefix-is_part xs (y ∷ ys) h = rw h refl

  is_part-cons :
      (xs ys : List A) (elem : A) → is_part same (elem ∷ xs) ys ≡ true → is_part same xs ys ≡ true
  unfolding is_part is_prefix
  is_part-cons xs [] elem h = ground (arith, h)
  is_part-cons xs (y ∷ ys) elem h =
      let here = is_prefix-is_part xs ys in
      let rest = is_part-cons xs ys elem in ground (arith, h, here, rest)

  -- The same of all chains.
  pub is_sub_chain-snoc :
      (chains : List (List A)) (xs : List A) (elem : A)
      → is_sub_chain same chains (xs ++ (elem ∷ [])) ≡ true
      → is_sub_chain same chains xs ≡ true
  unfolding is_sub_chain
  is_sub_chain-snoc [] xs elem h = h
  is_sub_chain-snoc (chain ∷ chains) xs elem h =
      let here = is_part-snoc xs chain elem in
      let rest = is_sub_chain-snoc chains xs elem in ground (arith, h, here, rest)

  pub is_sub_chain-cons :
      (chains : List (List A)) (xs : List A) (elem : A)
      → is_sub_chain same chains (elem ∷ xs) ≡ true
      → is_sub_chain same chains xs ≡ true
  unfolding is_sub_chain
  is_sub_chain-cons [] xs elem h = h
  is_sub_chain-cons (chain ∷ chains) xs elem h =
      let here = is_part-cons xs chain elem in
      let rest = is_sub_chain-cons chains xs elem in ground (arith, h, here, rest)

  is_sub_chain-append :
      (chains more : List (List A)) (sub : List A)
      → is_sub_chain same (chains ++ more) sub
        ≡ (is_sub_chain same chains sub || is_sub_chain same more sub)
  unfolding is_sub_chain
  is_sub_chain-append [] more sub = refl
  is_sub_chain-append (chain ∷ chains) more sub =
      let rest = is_sub_chain-append chains more sub in ground (arith, rest)

  module _ (same_refl : (a : A) → same a a ≡ true) where
    is_prefix_refl : (xs : List A) → is_prefix same xs xs ≡ true
    unfolding is_prefix
    is_prefix_refl [] = refl
    is_prefix_refl (x ∷ xs) = rw (same_refl x) (is_prefix_refl xs)

    -- A complete chain is afterwards among the chains, and those that were there still are.
    pub keep-Grows :
        (chain : List A) (complete : Bool) (chains : List (List A))
        → Grows chains (keep same chain complete chains)
    unfolding keep
    keep-Grows chain complete chains sub h =
        let more = is_sub_chain-append chains (chain ∷ []) sub in
        kept (complete && not (is_sub_chain same chains chain)) more
      where
        kept :
            (b : Bool)
            → is_sub_chain same (chains ++ (chain ∷ [])) sub
              ≡ (is_sub_chain same chains sub || is_sub_chain same (chain ∷ []) sub)
            → is_sub_chain same (if b then chains ++ (chain ∷ []) else chains) sub ≡ true
        kept true more = more ∙ rw h refl
        kept false more = h

    pub keep-is_sub_chain :
        (chain : List A) (complete : Bool) (chains : List (List A))
        → (complete ≡ false → is_sub_chain same chains chain ≡ true)
        → is_sub_chain same (keep same chain complete chains) chain ≡ true
    unfolding keep is_sub_chain
    keep-is_sub_chain chain false chains h = h refl
    keep-is_sub_chain chain true chains h = elim (Bool-cases (is_sub_chain same chains chain)) [
      | inl found ↦ rw found found
      | inr new ↦
          let itself = is_prefix-is_part chain chain (is_prefix_refl chain) in
          let more = is_sub_chain-append chains (chain ∷ []) chain in
          rw new (more ∙ rw new (rw itself refl))
    ]

-- ===== src/Certificates/ChainBuilder/Built.antt =====
-- The chains that `buildChain` leaves, and that it ends.
use ausweis_app.Prelude.{
  ℕ, zero, suc, ◌≤◌, ◌<◌, ◌≡◌, refl, sym, ◌∙◌, subst, Bool, true, false, not, Option, some, List,
  [], ◌∷◌, ◌++◌, if◌then◌else◌, All, length, Bool-cases, inl, inr, arith,
}
use mathlib.Core.Bool.{true≢false}
use mathlib.Core.List.{Memᴰ}
use ausweis_app.Certificates.ChainBuilder.{
  contains, last_of, is_sub_chain, extend, keep, build_chain,
}
use ausweis_app.Certificates.ChainBuilder.Counting.{missing, missing-cons, missing-snoc, pool-All}
use ausweis_app.Certificates.ChainBuilder.Parts.{
  Grows, is_sub_chain-snoc, is_sub_chain-cons, keep-Grows, keep-is_sub_chain,
}
use ausweis_app.Certificates.ChainBuilder.Linked.{linked, Grown, Grown-snoc, Grown-cons}

true_false {ℓ} : {B : Type ℓ} {b : Bool} → b ≡ true → b ≡ false → B
true_false is isnt = absurd (true≢false (sym is ∙ isnt))

module _ {ℓ} {A : Type ℓ} where
  pub All-lookup {κ} : (P : A → Type κ) (xs : List A) → All P xs → (y : A) → Memᴰ y xs → P y
  All-lookup P [] h y there = elim there [ ]
  All-lookup P (x ∷ xs) h y (Memᴰ.head same) = subst P (sym same) h.0
  All-lookup P (x ∷ xs) h y (Memᴰ.tail there) = All-lookup P xs h.1 y there

  All-append {κ} : (P : A → Type κ) (xs ys : List A) → All P xs → All P ys → All P (xs ++ ys)
  All-append P [] ys h g = g
  All-append P (x ∷ xs) ys h g = (h.0, All-append P xs ys h.1 g)

module _ {ℓ} {A : Type ℓ} where
  -- No other object may stand before or behind the chain.
  abbrev pub Apart : (same is_child : A → A → Bool) (first last : A) (chain : List A) → A → Type 0
  Apart same is_child first last chain elem =
      contains same chain elem ≡ false
      → (is_child elem last ≡ false) × (is_child first elem ≡ false)

  -- A chain of the pool: linked, of the pool's objects, no longer than the pool, and complete.
  abbrev pub IsChain : (same is_child : A → A → Bool) → List A → List A → Type ℓ
  IsChain same is_child pool chain =
      (first : A) × (rest : List A) × (chain ≡ first ∷ rest)
      × (linked is_child chain ≡ true)
      × All (λ elem. Memᴰ elem pool) chain
      × (length chain ≤ length pool)
      × ((elem : A) → Memᴰ elem pool → Apart same is_child first (last_of first rest) chain elem)

  module _ (same is_child : A → A → Bool) (same_refl : (a : A) → same a a ≡ true)
      (pool : List A) where
    -- What a call gives, with fuel for the objects that are not in its chain.
    abbrev pub Returns : ℕ → (List A → List (List A) → Option (List (List A))) → Type ℓ
    Returns fuel again =
        (x : A) (xs : List A) (chains : List (List A))
        → Grown same is_child pool (x ∷ xs)
        → missing same is_child pool (x ∷ xs) < fuel
        → All (IsChain same is_child pool) chains
        → (built : List (List A)) × (again (x ∷ xs) chains ≡ some built)
          × All (IsChain same is_child pool) built
          × Grows same chains built
          × (is_sub_chain same built (x ∷ xs) ≡ true)

    -- What the loop of a call gives.
    abbrev Extended :
        (List A → List (List A) → Option (List (List A)))
        → A
        → (xs remaining : List A) → Bool
        → List (List A)
        → Type ℓ
    Extended again x xs remaining complete chains =
        (now_complete : Bool) × (built : List (List A)) × (extend same is_child again x
            (last_of x xs) (x ∷ xs) remaining complete chains
          ≡ some (now_complete, built))
        × All (IsChain same is_child pool) built
        × Grows same chains built
        × (now_complete ≡ false
            → (complete ≡ false → is_sub_chain same built (x ∷ xs) ≡ true)
            → is_sub_chain same built (x ∷ xs) ≡ true)
        × (now_complete ≡ true
            → (complete ≡ true) × All (Apart same is_child x (last_of x xs) (x ∷ xs)) remaining)

    -- After a call for a longer chain.
    after_call :
        (again : List A → List (List A) → Option (List (List A)))
        → (x : A) (xs rest : List A) (chains built : List (List A)) → Grows same chains built
        → is_sub_chain same built (x ∷ xs) ≡ true
        → (elem : A) (complete : Bool)
        → extend same is_child again x (last_of x xs) (x ∷ xs) (elem ∷ rest) complete chains
          ≡ extend same is_child again x (last_of x xs) (x ∷ xs) rest false built
        → Extended again x xs rest false built
        → Extended again x xs (elem ∷ rest) complete chains
    after_call again x xs rest chains built grows found elem complete step
          (now_complete, later, e, good, grows_later, incomplete, completed) =
        (
          now_complete,
          later,
          step ∙ e,
          good,
          (λ sub h. grows_later sub (grows sub h)),
          (λ h earlier. incomplete h (λ still. grows_later (x ∷ xs) found)),
          (λ h. true_false (completed h).0 refl),
        )

    -- After an object that changes nothing.
    after_other :
        (again : List A → List (List A) → Option (List (List A)))
        → (x : A) (xs rest : List A) (chains : List (List A)) (elem : A) (complete : Bool)
        → Apart same is_child x (last_of x xs) (x ∷ xs) elem
        → extend same is_child again x (last_of x xs) (x ∷ xs) (elem ∷ rest) complete chains
          ≡ extend same is_child again x (last_of x xs) (x ∷ xs) rest complete chains
        → Extended again x xs rest complete chains
        → Extended again x xs (elem ∷ rest) complete chains
    after_other again x xs rest chains elem complete apart step
          (now_complete, later, e, good, grows, incomplete, completed) =
        (
          now_complete,
          later,
          step ∙ e,
          good,
          grows,
          incomplete,
          (λ h. ((completed h).0, (apart, (completed h).1))),
        )

    extend-Extended :
        (fuel : ℕ) (again : List A → List (List A) → Option (List (List A)))
        → Returns fuel again
        → (x : A) (xs remaining : List A) (complete : Bool) (chains : List (List A))
        → Grown same is_child pool (x ∷ xs)
        → missing same is_child pool (x ∷ xs) < suc fuel
        → All (IsChain same is_child pool) chains
        → All (λ elem. Memᴰ elem pool) remaining
        → Extended again x xs remaining complete chains
    unfolding extend
    extend-Extended fuel again returns x xs [] complete chains grown enough good h = (
      complete,
      chains,
      refl,
      good,
      (λ sub found. found),
      (λ still earlier. earlier still),
      (λ now. (now, tt)),
    )
    extend-Extended fuel again returns x xs (elem ∷ rest) complete chains grown enough good h =
        elim (Bool-cases (contains same (x ∷ xs) elem)) [
          | inl known ↦
              after_other again x xs rest chains elem complete (true_false known)
                (rw (known, extend) refl)
                (extend-Extended fuel again returns x xs rest complete chains grown enough good h.1)
          | inr new ↦ elim (Bool-cases (is_child elem (last_of x xs))) [
            | inl below ↦
                let less = missing-snoc same is_child same_refl pool (x ∷ xs) elem h.0 new in
                let (built, e, fine, grows, found) =
                  returns x (xs ++ (elem ∷ [])) chains
                    (Grown-snoc same is_child same_refl pool x xs grown elem h.0 new below)
                    (omega (arith, less, enough)) good in
                after_call again x xs rest chains built grows
                  (is_sub_chain-snoc same built (x ∷ xs) elem found) elem complete
                  (rw (new, below, e, extend) refl)
                  (extend-Extended fuel again returns x xs rest false built grown enough fine h.1)
            | inr beside ↦ elim (Bool-cases (is_child x elem)) [
              | inl above ↦
                  let less = missing-cons same is_child same_refl pool (x ∷ xs) elem h.0 new in
                  let (built, e, fine, grows, found) =
                    returns elem (x ∷ xs) chains
                      (Grown-cons same is_child same_refl pool x xs grown elem h.0 new above)
                      (omega (arith, less, enough)) good in
                  after_call again x xs rest chains built grows
                    (is_sub_chain-cons same built (x ∷ xs) elem found) elem complete
                    (rw (new, beside, above, e, extend) refl)
                    (extend-Extended fuel again returns x xs rest false built grown enough fine h.1)
              | inr apart ↦
                  after_other again x xs rest chains elem complete (λ still. (beside, apart))
                    (rw (new, beside, apart, extend) refl)
                    (extend-Extended fuel again returns x xs rest complete chains grown enough good
                      h.1)
            ]
          ]
        ]

    keep-IsChain :
        (chain : List A) (complete : Bool) (chains : List (List A))
        → All (IsChain same is_child pool) chains
        → (complete ≡ true → IsChain same is_child pool chain)
        → All (IsChain same is_child pool) (keep same chain complete chains)
    unfolding keep
    keep-IsChain chain false chains good h = good
    keep-IsChain chain true chains good h =
        kept (not (is_sub_chain same chains chain))
          (All-append (IsChain same is_child pool) chains (chain ∷ []) good (h refl, tt))
      where
        kept :
            (b : Bool)
            → All (IsChain same is_child pool) (chains ++ (chain ∷ []))
            → All (IsChain same is_child pool) (if b then chains ++ (chain ∷ []) else chains)
        kept true more = more
        kept false more = good

    pub build_chain-Returns : (fuel : ℕ) → Returns fuel (build_chain same is_child fuel pool)
    unfolding build_chain
    build_chain-Returns zero x xs chains grown enough good = absurd (omega (arith, enough))
    build_chain-Returns (suc fuel) x xs chains grown enough good =
        let (complete, built, e, fine, grows, incomplete, completed) =
          extend-Extended fuel (build_chain same is_child fuel pool) (build_chain-Returns fuel) x xs
            pool true chains grown enough good (pool-All pool) in
        let bounded = grown.2 in
        let made : (complete ≡ true → IsChain same is_child pool (x ∷ xs)) = λ h. (
          x,
          xs,
          refl,
          grown.0,
          grown.1,
          omega (arith, bounded),
          All-lookup (Apart same is_child x (last_of x xs) (x ∷ xs)) pool (completed h).1,
        ) in
        (
          keep same (x ∷ xs) complete built,
          rw (e, build_chain) refl,
          keep-IsChain (x ∷ xs) complete built fine made,
          (λ sub h. keep-Grows same same_refl (x ∷ xs) complete built sub (grows sub h)),
          keep-is_sub_chain same same_refl (x ∷ xs) complete built
              (λ still. incomplete still (λ h. true_false refl h)),
        )

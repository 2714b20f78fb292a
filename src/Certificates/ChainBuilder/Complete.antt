-- ===== src/Certificates/ChainBuilder/Complete.antt =====
-- What the constructor of `ChainBuilder` leaves in `getChains`.
use ausweis_app.Prelude.{
  ℕ, ◌<◌, ◌≡◌, refl, sym, ap, ◌∙◌, subst, Bool, true, none, some, List, [], ◌∷◌, All, length,
  Bool-cases, inl, inr, arith,
}
use mathlib.Core.List.{Memᴰ}
use ausweis_app.Certificates.ChainBuilder.{contains, is_sub_chain, build_from, get_chains}
use ausweis_app.Certificates.ChainBuilder.Counting.{missing-cons, missing-length, pool-All}
use ausweis_app.Certificates.ChainBuilder.Parts.{Grows}
use ausweis_app.Certificates.ChainBuilder.Linked.{linked, Grown}
use ausweis_app.Certificates.ChainBuilder.Built.{IsChain, build_chain-Returns, All-lookup}

pub some_injective {ℓ} : {A : Type ℓ} {x y : A} → some x ≡ some y → x ≡ y
some_injective {x = x} h = ap (λ o. elim o [ none ↦ x | some z ↦ z ]) h

module _ {ℓ} {A : Type ℓ} (same is_child : A → A → Bool) (same_refl : (a : A) → same a a ≡ true)
    (pool : List A) where
  single-Grown : (elem : A) → Memᴰ elem pool → Grown same is_child pool (elem ∷ [])
  unfolding contains linked
  single-Grown elem there =
      let less = missing-cons same is_child same_refl pool [] elem there refl in
      let most = missing-length same is_child same_refl pool [] in
      (refl, (there, tt), omega (arith, less, most))

  build_from-IsChain :
      (fuel : ℕ) (remaining : List A) (chains : List (List A))
      → length pool < fuel
      → All (λ elem. Memᴰ elem pool) remaining
      → All (IsChain same is_child pool) chains
      → (built : List (List A)) × (build_from same is_child fuel pool remaining chains ≡ some built)
        × All (IsChain same is_child pool) built
        × Grows same chains built
        × All (λ elem. is_sub_chain same built (elem ∷ []) ≡ true) remaining
  unfolding build_from
  build_from-IsChain fuel [] chains enough h good = (chains, refl, good, (λ sub found. found), tt)
  build_from-IsChain fuel (elem ∷ rest) chains enough h good =
      elim (Bool-cases (is_sub_chain same chains (elem ∷ []))) [
        | inl found ↦
            let (built, e, fine, grows, covered) =
              build_from-IsChain fuel rest chains enough h.1 good in
            (built, rw (found, build_from) e, fine, grows, (grows (elem ∷ []) found, covered))
        | inr new ↦
            let most = missing-length same is_child same_refl pool (elem ∷ []) in
            let (made, e, good_made, grows_made, found) =
              build_chain-Returns same is_child same_refl pool fuel elem [] chains
                (single-Grown elem h.0) (omega (arith, most, enough)) good in
            let (built, later, fine, grows, covered) =
              build_from-IsChain fuel rest made enough h.1 good_made in
            (
              built,
              rw (new, e, build_from) later,
              fine,
              (λ sub here. grows sub (grows_made sub here)),
              (grows (elem ∷ []) found, covered),
            )
      ]

  get_chains_made :
      (fuel : ℕ)
      → length pool < fuel
      → (chains : List (List A)) × (get_chains same is_child fuel pool ≡ some chains)
        × All (IsChain same is_child pool) chains
        × All (λ elem. is_sub_chain same chains (elem ∷ []) ≡ true) pool
  unfolding get_chains
  get_chains_made fuel enough =
      let (built, e, fine, grows, covered) =
        build_from-IsChain fuel pool [] enough (pool-All pool) tt in
      (built, e, fine, covered)

  -- For a reflexive equality of the objects and any parent relation, cyclic ones included, the
  -- recursion of the ChainBuilder ends with a result for every pool: it never goes deeper than
  -- one more than the number of objects.
  pub get_chains-some :
      (fuel : ℕ)
      → length pool < fuel
      → (chains : List (List A)) × (get_chains same is_child fuel pool ≡ some chains)
  get_chains-some fuel enough =
      let (built, e, fine, covered) = get_chains_made fuel enough in (built, e)

  -- For a reflexive equality, with more fuel than objects, every chain that the ChainBuilder
  -- keeps is made of objects of the pool, has each object followed by a child of it, is no
  -- longer than the pool, and has in the pool no further object for its end or its beginning;
  -- every object of the pool is in a chain.
  pub get_chains-IsChain :
      (fuel : ℕ) (chains : List (List A))
      → length pool < fuel
      → get_chains same is_child fuel pool ≡ some chains
      → All (IsChain same is_child pool) chains
        × ((elem : A) → Memᴰ elem pool → is_sub_chain same chains (elem ∷ []) ≡ true)
  get_chains-IsChain fuel chains enough h =
      let (built, e, fine, covered) = get_chains_made fuel enough in
      let same_chains : (built ≡ chains) = some_injective (sym e ∙ h) in
      subst
        (λ found.
          All (IsChain same is_child pool) found
          × ((elem : A) → Memᴰ elem pool → is_sub_chain same found (elem ∷ []) ≡ true))
        same_chains
        (fine, All-lookup (λ elem. is_sub_chain same built (elem ∷ []) ≡ true) pool covered)

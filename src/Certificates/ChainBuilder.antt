-- ===== src/Certificates/ChainBuilder.antt =====
-- ChainBuilder.h: the chains of a pool of objects, from the test whether one is the child of the
-- other. A chain has the parent before its child.
pub mod Counting
pub mod Parts
pub mod Linked
pub mod Built
pub mod Complete
use ausweis_app.Prelude.{
  ℕ, zero, suc, Bool, true, false, not, ◌&&◌, ◌||◌, Option, none, some, List, [], ◌∷◌, ◌++◌,
  if◌then◌else◌, length,
}

module _ {ℓ} {A : Type ℓ} where
  -- `contains`, by the `==` of the objects.
  unfoldable pub contains : (A → A → Bool) → List A → A → Bool
  contains same [] y = false
  contains same (x ∷ xs) y = same x y || contains same xs y

  abbrev pub last_of : A → List A → A
  last_of x [] = x
  last_of x (y ∷ ys) = last_of y ys

  unfoldable pub is_prefix : (A → A → Bool) → List A → List A → Bool
  is_prefix same [] ys = true
  is_prefix same (x ∷ xs) [] = false
  is_prefix same (x ∷ xs) (y ∷ ys) = same y x && is_prefix same xs ys

  -- `std::search`: whether the second list has the first as a part.
  unfoldable pub is_part : (A → A → Bool) → List A → List A → Bool
  unfolding is_prefix
  is_part same xs [] = is_prefix same xs []
  is_part same xs (y ∷ ys) = is_prefix same xs (y ∷ ys) || is_part same xs ys

  unfoldable pub is_sub_chain : (A → A → Bool) → List (List A) → List A → Bool
  unfolding is_part
  is_sub_chain same [] sub = false
  is_sub_chain same (chain ∷ chains) sub = is_part same sub chain || is_sub_chain same chains sub

  -- The loop of `buildChain`, with the recursive call and whether the chain is complete so far.
  unfoldable pub extend :
      (A → A → Bool)
      → (A → A → Bool)
      → (List A → List (List A) → Option (List (List A)))
      → (first last : A) (chain remaining : List A) → Bool
      → List (List A)
      → Option (Bool × List (List A))
  extend same is_child again first last chain [] complete chains = some (complete, chains)
  extend same is_child again first last chain (elem ∷ rest) complete chains =
      elim (contains same chain elem) [
        | true ↦ extend same is_child again first last chain rest complete chains
        | false ↦ elim (is_child elem last) [
          | true ↦ elim (again (chain ++ (elem ∷ [])) chains) [
            | none ↦ none
            | some built ↦ extend same is_child again first last chain rest false built
          ]
          | false ↦ elim (is_child first elem) [
            | true ↦ elim (again (elem ∷ chain) chains) [
              | none ↦ none
              | some built ↦ extend same is_child again first last chain rest false built
            ]
            | false ↦ extend same is_child again first last chain rest complete chains
          ]
        ]
      ]

  -- The end of `buildChain`.
  unfoldable pub keep : (A → A → Bool) → List A → Bool → List (List A) → List (List A)
  keep same chain complete chains =
      if complete && not (is_sub_chain same chains chain) then chains ++ (chain ∷ []) else chains

  -- `buildChain`, with fuel; `last` of an empty chain is not defined.
  unfoldable pub build_chain :
      (A → A → Bool) → (A → A → Bool) → ℕ → List A → List A → List (List A) → Option (List (List A))
  build_chain same is_child zero pool chain chains = none
  build_chain same is_child (suc fuel) pool [] chains = none
  build_chain same is_child (suc fuel) pool (x ∷ xs) chains =
      elim (extend same is_child (build_chain same is_child fuel pool) x (last_of x xs) (x ∷ xs)
        pool true chains) [
          | none ↦ none
          | some (complete, built) ↦ some (keep same (x ∷ xs) complete built)
        ]

  -- The constructor's loop.
  unfoldable pub build_from :
      (A → A → Bool)
      → (A → A → Bool)
      → ℕ
      → (pool remaining : List A) → List (List A)
      → Option (List (List A))
  build_from same is_child fuel pool [] chains = some chains
  build_from same is_child fuel pool (elem ∷ rest) chains =
      elim (is_sub_chain same chains (elem ∷ [])) [
        | true ↦ build_from same is_child fuel pool rest chains
        | false ↦ elim (build_chain same is_child fuel pool (elem ∷ []) chains) [
          | none ↦ none
          | some built ↦ build_from same is_child fuel pool rest built
        ]
      ]

  -- The chains that the constructor leaves.
  unfoldable pub get_chains : (A → A → Bool) → (A → A → Bool) → ℕ → List A → Option (List (List A))
  get_chains same is_child fuel pool = build_from same is_child fuel pool pool []

-- ===== src/Certificates/ChainBuilder/Linked.antt =====
-- What holds of a chain while it is built: its links, its objects and its length.
use ausweis_app.Prelude.{
  ◌+◌, ◌≤◌, ◌≡◌, refl, Bool, true, false, ◌&&◌, List, [], ◌∷◌, ◌++◌, All, length, length-append,
  arith,
}
use mathlib.Core.List.{Memᴰ}
use ausweis_app.Certificates.ChainBuilder.{contains, last_of}
use ausweis_app.Certificates.ChainBuilder.Counting.{missing, missing-cons, missing-snoc}

module _ {ℓ} {A : Type ℓ} where
  -- Each object is the child of the one before.
  unfoldable pub linked : (A → A → Bool) → List A → Bool
  linked is_child [] = true
  linked is_child (x ∷ []) = true
  linked is_child (x ∷ y ∷ ys) = is_child y x && linked is_child (y ∷ ys)

  linked-snoc :
      (is_child : A → A → Bool) (x : A) (xs : List A) (elem : A)
      → linked is_child (x ∷ xs) ≡ true
      → is_child elem (last_of x xs) ≡ true
      → linked is_child (x ∷ (xs ++ (elem ∷ []))) ≡ true
  unfolding linked
  linked-snoc is_child x [] elem h child = rw child refl
  linked-snoc is_child x (y ∷ ys) elem h child =
      let rest = linked-snoc is_child y ys elem in ground (arith, h, child, rest)

  All-snoc {κ} :
      (P : A → Type κ) (xs : List A) (elem : A) → All P xs → P elem → All P (xs ++ (elem ∷ []))
  All-snoc P [] elem h p = (p, h)
  All-snoc P (x ∷ xs) elem h p = (h.0, All-snoc P xs elem h.1 p)

  abbrev pub Grown : (same is_child : A → A → Bool) → List A → List A → Type ℓ
  Grown same is_child pool chain =
      (linked is_child chain ≡ true)
      × All (λ elem. Memᴰ elem pool) chain
      × (length chain + missing same is_child pool chain ≤ length pool)

  module _ (same is_child : A → A → Bool) (same_refl : (a : A) → same a a ≡ true) (pool : List A)
      (x : A) (xs : List A) (grown : Grown same is_child pool (x ∷ xs)) (elem : A)
      (there : Memᴰ elem pool) (new : contains same (x ∷ xs) elem ≡ false) where
    pub Grown-snoc :
        is_child elem (last_of x xs) ≡ true → Grown same is_child pool (x ∷ (xs ++ (elem ∷ [])))
    Grown-snoc child =
        let less = missing-snoc same is_child same_refl pool (x ∷ xs) elem there new in
        let longer = length-append xs (elem ∷ []) in
        let bounded = grown.2 in
        (
          linked-snoc is_child x xs elem grown.0 child,
          All-snoc (λ e. Memᴰ e pool) (x ∷ xs) elem grown.1 there,
          omega (arith, less, longer, bounded),
        )

    pub Grown-cons : is_child x elem ≡ true → Grown same is_child pool (elem ∷ x ∷ xs)
    unfolding linked
    Grown-cons child =
        let less = missing-cons same is_child same_refl pool (x ∷ xs) elem there new in
        let bounded = grown.2 in (rw child grown.0, (there, grown.1), omega (arith, less, bounded))

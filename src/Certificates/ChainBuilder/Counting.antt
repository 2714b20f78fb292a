-- ===== src/Certificates/ChainBuilder/Counting.antt =====
-- The objects of the pool that are not in a chain: fewer with each object that a chain gets.
use ausweis_app.Prelude.{
  ℕ, ◌+◌, ◌≤◌, ◌<◌, ◌≡◌, refl, sym, ap, ◌∙◌, Bool, true, false, ◌||◌, List, [], ◌∷◌, ◌++◌,
  if◌then◌else◌, length, arith, All,
}
use mathlib.Core.List.{Memᴰ}
use ausweis_app.Certificates.ChainBuilder.{contains}

module _ {ℓ} {A : Type ℓ} where
  -- How many objects fail a test.
  pub count_failing : (A → Bool) → List A → ℕ
  count_failing p [] = 0
  count_failing p (x ∷ xs) = (if p x then 0 else 1) + count_failing p xs

  count_failing-le :
      (before after : A → Bool) (pool : List A)
      → ((y : A) → after y ≡ false → before y ≡ false)
      → count_failing after pool ≤ count_failing before pool
  unfolding count_failing
  count_failing-le before after [] h = omega arith
  count_failing-le before after (x ∷ xs) h =
      let rest = count_failing-le before after xs h in let here = h x in ground (arith, rest, here)

  count_failing-lt :
      (before after : A → Bool) (pool : List A) (elem : A)
      → Memᴰ elem pool
      → ((y : A) → after y ≡ false → before y ≡ false)
      → before elem ≡ false
      → after elem ≡ true
      → count_failing after pool < count_failing before pool
  unfolding count_failing
  count_failing-lt before after [] elem there h was now = elim there [ ]
  count_failing-lt before after (x ∷ xs) elem (Memᴰ.head same) h was now =
      let rest = count_failing-le before after xs h in
      let was_x : (before x ≡ false) = ap before (sym same) ∙ was in
      let now_x : (after x ≡ true) = ap after (sym same) ∙ now in
      rw was_x (rw now_x (omega (arith, rest)))
  count_failing-lt before after (x ∷ xs) elem (Memᴰ.tail there) h was now =
      let rest = count_failing-lt before after xs elem there h was now in
      let here = h x in ground (arith, rest, here)

  count_failing-length : (p : A → Bool) (pool : List A) → count_failing p pool ≤ length pool
  unfolding count_failing
  count_failing-length p [] = omega arith
  count_failing-length p (x ∷ xs) = let rest = count_failing-length p xs in ground (arith, rest)

  All-Mem :
      (pool remaining : List A)
      → ((x : A) → Memᴰ x remaining → Memᴰ x pool)
      → All (λ x. Memᴰ x pool) remaining
  All-Mem pool [] h = tt
  All-Mem pool (x ∷ xs) h =
      (h x (Memᴰ.head refl), All-Mem pool xs (λ y there. h y (Memᴰ.tail there)))

  pub pool-All : (pool : List A) → All (λ x. Memᴰ x pool) pool
  pool-All pool = All-Mem pool pool (λ x there. there)

  module _ (same is_child : A → A → Bool) where
    pub contains-append :
        (xs ys : List A) (y : A)
        → contains same (xs ++ ys) y ≡ (contains same xs y || contains same ys y)
    unfolding contains
    contains-append [] ys y = refl
    contains-append (x ∷ xs) ys y = let rest = contains-append xs ys y in ground (arith, rest)

    -- The objects of the pool that are not in a chain.
    pub missing : List A → List A → ℕ
    missing pool chain = count_failing (contains same chain) pool

    module _ (same_refl : (a : A) → same a a ≡ true) (pool : List A) where
      pub missing-cons :
          (chain : List A) (elem : A)
          → Memᴰ elem pool
          → contains same chain elem ≡ false
          → missing pool (elem ∷ chain) < missing pool chain
      unfolding missing contains
      missing-cons chain elem there new =
          count_failing-lt (contains same chain) (contains same (elem ∷ chain)) pool elem there
            (λ y h. ground (arith, h)) new (rw (same_refl elem) refl)

      pub missing-snoc :
          (chain : List A) (elem : A)
          → Memᴰ elem pool
          → contains same chain elem ≡ false
          → missing pool (chain ++ (elem ∷ [])) < missing pool chain
      unfolding missing contains
      missing-snoc chain elem there new =
          count_failing-lt (contains same chain) (contains same (chain ++ (elem ∷ []))) pool elem
            there
            (λ y h.
              earlier (contains same chain y) (same elem y || false)
                (sym (contains-append chain (elem ∷ []) y) ∙ h))
            new
            (contains-append chain (elem ∷ []) elem
              ∙ later (contains same chain elem) (same elem elem) (same_refl elem))
        where
          earlier : (a b : Bool) → (a || b) ≡ false → a ≡ false
          earlier a b h = ground arith

          later : (a b : Bool) → b ≡ true → (a || (b || false)) ≡ true
          later a b h = ground arith

      pub missing-length : (chain : List A) → missing pool chain ≤ length pool
      unfolding missing
      missing-length chain = count_failing-length (contains same chain) pool

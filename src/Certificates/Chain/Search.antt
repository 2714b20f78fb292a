-- ===== src/Certificates/Chain/Search.antt =====
-- The search for a chain from a certificate on: what is found, and that it is found.
use ausweis_app.Prelude.{
  ◌≡◌, refl, sym, ap, ◌∙◌, subst, Bool, true, false, Option, none, some, List, [], ◌∷◌, ◌++◌,
  if◌then◌else◌, All, &&-split,
}
use mathlib.Core.Bool.{true≢false}
use mathlib.Core.List.{Memᴰ}
use ausweis_app.Certificates.ChainBuilder.Linked.{linked}
use ausweis_app.Certificates.Chain.{
  CvCertificate, CvCertificateChain, is_child, is_valid, make_chain, find_in_chain, find_in_chains,
}

-- Each certificate is the child of the one before and one of the pool.
abbrev pub Linked : List CvCertificate → List CvCertificate → Type 0
Linked pool chain = (linked is_child chain ≡ true) × All (λ cvc. Memᴰ cvc pool) chain

-- A chain that begins with a certificate of which a test holds.
abbrev pub Serves : List CvCertificate → (CvCertificate → Bool) → CvCertificateChain → Type 0
Serves pool test chain =
    (first : CvCertificate) × (rest : List CvCertificate) × (chain.certificates ≡ first ∷ rest)
    × (test first ≡ true)
    × Linked pool chain.certificates

-- A position in the chains from which one is valid.
abbrev pub Available : (CvCertificate → Bool) → List (List CvCertificate) → Type 0
Available test chains =
    (before rest : List CvCertificate) × (cvc : CvCertificate) × Memᴰ (before ++ (cvc ∷ rest))
      chains
    × (test cvc ≡ true)
    × (is_valid (cvc ∷ rest) ≡ true)

abbrev pub Found :
    List CvCertificate → (CvCertificate → Bool) → Bool → Option CvCertificateChain → Type 0
Found pool test productive none = Unit
Found pool test productive (some chain) =
    Serves pool test chain × (is_valid chain.certificates ≡ true) × (chain.productive ≡ productive)

linked-tail :
    (x : CvCertificate) (xs : List CvCertificate)
    → linked is_child (x ∷ xs) ≡ true
    → linked is_child xs ≡ true
unfolding linked
linked-tail x [] h = refl
linked-tail x (y ∷ ys) h = (&&-split (is_child y x) (linked is_child (y ∷ ys)) h).1

make_chain-is_valid :
    (cvcs : List CvCertificate) (productive : Bool)
    → is_valid (make_chain cvcs productive).certificates ≡ true
    → (make_chain cvcs productive).certificates ≡ cvcs
unfolding make_chain is_valid
make_chain-is_valid cvcs productive h = kept (is_valid cvcs) h
  where
    kept : (b : Bool) → is_valid (if b then cvcs else []) ≡ true → (if b then cvcs else []) ≡ cvcs
    kept true h = refl
    kept false h = absurd (true≢false (sym h))

valid-make_chain :
    (cvcs : List CvCertificate) (productive : Bool)
    → is_valid cvcs ≡ true
    → is_valid (make_chain cvcs productive).certificates ≡ true
unfolding make_chain
valid-make_chain cvcs productive h = rw h h

make_chain-productive :
    (cvcs : List CvCertificate) (productive : Bool)
    → (make_chain cvcs productive).productive ≡ productive
unfolding make_chain
make_chain-productive cvcs productive = refl

module _ (pool : List CvCertificate) (test : CvCertificate → Bool) (productive : Bool) where
  chosen :
      (here valid : Bool) (sub_chain : CvCertificateChain) (later : Option CvCertificateChain)
      → (here ≡ true → valid ≡ true → Found pool test productive (some sub_chain))
      → Found pool test productive later
      → Found pool test productive
          (if here then (if valid then some sub_chain else later) else later)
  chosen true true sub_chain later first rest = first refl refl
  chosen true false sub_chain later first rest = rest
  chosen false valid sub_chain later first rest = rest

  find_in_chain-Found :
      (chain : List CvCertificate)
      → Linked pool chain
      → Found pool test productive (find_in_chain productive test chain)
  unfolding find_in_chain
  find_in_chain-Found [] h = tt
  find_in_chain-Found (cvc ∷ rest) h =
      let sub_chain = make_chain (cvc ∷ rest) productive in
      chosen (test cvc) (is_valid sub_chain.certificates) sub_chain
        (find_in_chain productive test rest)
        (λ here valid.
          let same = make_chain-is_valid (cvc ∷ rest) productive valid in
          (
            (cvc, rest, same, here, subst (Linked pool) (sym same) h),
            valid,
            make_chain-productive (cvc ∷ rest) productive,
          ))
        (find_in_chain-Found rest (linked-tail cvc rest h.0, h.1.1))

  pub find_in_chains-Found :
      (chains : List (List CvCertificate))
      → All (Linked pool) chains
      → Found pool test productive (find_in_chains productive test chains)
  unfolding find_in_chains
  find_in_chains-Found [] h = tt
  find_in_chains-Found (chain ∷ chains) h =
      first_found (find_in_chain productive test chain) (find_in_chain-Found chain h.0)
        (find_in_chains-Found chains h.1)
    where
      first_found :
          (o : Option CvCertificateChain)
          → Found pool test productive o
          → Found pool test productive (find_in_chains productive test chains)
          → Found pool test productive
              (elim o [ none ↦ find_in_chains productive test chains | some found ↦ some found ])
      first_found none here later = later
      first_found (some found) here later = here

  -- The search does not miss a valid chain.
  pub find_in_chain-is_some :
      (before rest : List CvCertificate) (cvc : CvCertificate)
      → test cvc ≡ true
      → is_valid (cvc ∷ rest) ≡ true
      → (found : CvCertificateChain) × (find_in_chain productive test (before ++ (cvc ∷ rest))
          ≡ some found)
  unfolding find_in_chain
  find_in_chain-is_some [] rest cvc here valid = (
    make_chain (cvc ∷ rest) productive,
    rw (here, valid-make_chain (cvc ∷ rest) productive valid) refl,
  )
  find_in_chain-is_some (x ∷ before) rest cvc here valid =
      let (found, e) = find_in_chain-is_some before rest cvc here valid in
      either (test x) (is_valid (make_chain (x ∷ (before ++ (cvc ∷ rest))) productive).certificates)
        (make_chain (x ∷ (before ++ (cvc ∷ rest))) productive) found e
    where
      either :
          (a b : Bool) (sub_chain found : CvCertificateChain)
          → find_in_chain productive test (before ++ (cvc ∷ rest)) ≡ some found
          → (result : CvCertificateChain) × ((if a
                then (if b
                    then some sub_chain
                    else find_in_chain productive test (before ++ (cvc ∷ rest)))
                else find_in_chain productive test (before ++ (cvc ∷ rest)))
              ≡ some result)
      either true true sub_chain found e = (sub_chain, refl)
      either true false sub_chain found e = (found, e)
      either false b sub_chain found e = (found, e)

  pub find_in_chains-is_some :
      (chains : List (List CvCertificate)) (chain : List CvCertificate)
      → Memᴰ chain chains
      → ((found : CvCertificateChain) × (find_in_chain productive test chain ≡ some found))
      → (found : CvCertificateChain) × (find_in_chains productive test chains ≡ some found)
  unfolding find_in_chains
  find_in_chains-is_some [] chain there here = elim there [ ]
  find_in_chains-is_some (x ∷ chains) chain (Memᴰ.head same) (found, e) =
      (found, rw (ap (find_in_chain productive test) (sym same) ∙ e, find_in_chains) refl)
  find_in_chains-is_some (x ∷ chains) chain (Memᴰ.tail there) here =
      let (found, e) = find_in_chains-is_some chains chain there here in
      first_of (find_in_chain productive test x) found e
    where
      first_of :
          (o : Option CvCertificateChain) (found : CvCertificateChain)
          → find_in_chains productive test chains ≡ some found
          → (result : CvCertificateChain) × ((elim o [
            | none ↦ find_in_chains productive test chains
            | some found ↦ some found
          ])
              ≡ some result)
      first_of none found e = (found, e)
      first_of (some first) found e = (first, refl)

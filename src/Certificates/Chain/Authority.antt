-- ===== src/Certificates/Chain/Authority.antt =====
-- The chain that is found for the reference of a certification authority.
use ausweis_app.Prelude.{
  ℕ, ◌<◌, ◌≡◌, refl, sym, ap, ◌∙◌, subst, Bool, true, false, ◌||◌, Option, none, some, List, [],
  ◌∷◌, ◌++◌, if◌then◌else◌, All, length, arith, ==_iff,
}
use mathlib.Core.Bool.{true≢false}
use ausweis_app.Card.PaceOutput.{EstablishPaceChannelOutput}
use ausweis_app.Bytes.{Bytes}
use ausweis_app.Certificates.ChainBuilder.Built.{IsChain}
use ausweis_app.Certificates.ChainBuilder.Complete.{
  get_chains-some, get_chains-IsChain, some_injective,
}
use ausweis_app.Certificates.Chain.{
  CvCertificate, CvCertificateChain, CvCertificateChainBuilder, same_pointer, is_child, is_valid,
  make_chain, remove_invalid_chains, chain_builder, find_in_chains, found_or_empty, has_authority,
  chain_for_authority, chain_for_output, chain_for_card, has_chain_for_card, ChainBuilders,
}
use ausweis_app.Certificates.Chain.Served.{
  ServesAuthority, OffersAuthority, has_authority-IsOfAuthority, IsOfAuthority-has_authority,
  linked-Issued, is_valid-EndsAtTerminal, EndsAtTerminal-is_valid,
}
use ausweis_app.Certificates.Chain.Search.{
  Linked, Serves, Found, find_in_chains-Found, find_in_chain-is_some, find_in_chains-is_some,
}

remove_invalid_chains-Linked :
    (productive : Bool) (pool : List CvCertificate) (chains : List (List CvCertificate))
    → All (IsChain same_pointer is_child pool) chains
    → All (Linked pool) (remove_invalid_chains productive chains)
unfolding remove_invalid_chains
remove_invalid_chains-Linked productive pool [] h = tt
remove_invalid_chains-Linked productive pool (chain ∷ chains)
      ((first, rest, e, links, of_pool, short, full), h) =
    kept (is_valid (make_chain chain productive).certificates) (links, of_pool)
      (remove_invalid_chains-Linked productive pool chains h)
  where
    kept :
        (b : Bool)
        → Linked pool chain
        → All (Linked pool) (remove_invalid_chains productive chains)
        → All (Linked pool) (
            if b
            then chain ∷ remove_invalid_chains productive chains
            else remove_invalid_chains productive chains)
    kept true here later = (here, later)
    kept false here later = later

same_pointer_refl : (cvc : CvCertificate) → same_pointer cvc cvc ≡ true
same_pointer_refl cvc = (==_iff cvc.address cvc.address).1 refl

-- The chains of a builder are linked ones of its pool.
pub chain_builder-Linked :
    (fuel : ℕ) (pool : List CvCertificate) (productive : Bool) (builder : CvCertificateChainBuilder)
    → length pool < fuel
    → chain_builder fuel pool productive ≡ some builder
    → All (Linked pool) builder.chains
unfolding chain_builder
chain_builder-Linked fuel pool productive builder enough h =
    let (chains, e) = get_chains-some same_pointer is_child same_pointer_refl pool fuel enough in
    let (good, covered) =
      get_chains-IsChain same_pointer is_child same_pointer_refl pool fuel chains enough e in
    let made : CvCertificateChainBuilder = record {
      chains = remove_invalid_chains productive chains;
      productive = productive;
    } in
    let same : (some made ≡ some builder) = sym (rw (e, chain_builder) refl) ∙ h in
    subst (λ other. All (Linked pool) other.chains) (some_injective same)
      (remove_invalid_chains-Linked productive pool chains good)

Found-Serves :
    (pool : List CvCertificate) (test : CvCertificate → Bool) (productive : Bool)
    (o : Option CvCertificateChain)
    → Found pool test productive o
    → is_valid (found_or_empty productive o).certificates ≡ true
    → Serves pool test (found_or_empty productive o)
unfolding is_valid
Found-Serves pool test productive none h valid = absurd (true≢false (sym valid))
Found-Serves pool test productive (some chain) h valid = h.0

-- With a builder that was constructed with more fuel than certificates: if the chain for a
-- reference is valid, its first certificate names this reference as its authority and has
-- another holder, each further one names the holder of the one before as its authority and has
-- another holder, the last is a terminal and the one before it a document verifier, and all are
-- of the pool; and it is valid if a chain of the builder ends so, and has a certificate at or
-- before that verifier that names the reference and has another holder.
pub chain_for_authority-Serves :
    (fuel : ℕ) (pool : List CvCertificate) (productive : Bool) (builder : CvCertificateChainBuilder)
    (car : Bytes)
    → length pool < fuel
    → chain_builder fuel pool productive ≡ some builder
    → (is_valid (chain_for_authority builder car).certificates ≡ true
        → ServesAuthority pool car (chain_for_authority builder car))
      × (OffersAuthority car builder.chains
          → is_valid (chain_for_authority builder car).certificates ≡ true)
unfolding chain_for_authority
chain_for_authority-Serves fuel pool productive builder car enough h =
    let test = has_authority car in
    let found =
      find_in_chains-Found pool test builder.productive builder.chains
        (chain_builder-Linked fuel pool productive builder enough h) in
    (
      λ valid.
          let (first, rest, e, here, (links, of_pool)) =
            Found-Serves pool test builder.productive
              (find_in_chains builder.productive test builder.chains) found valid in
          (
            first,
            rest,
            e,
            has_authority-IsOfAuthority car first here,
            linked-Issued (chain_for_authority builder car).certificates links,
            is_valid-EndsAtTerminal (chain_for_authority builder car).certificates valid,
            of_pool,
          ),
      λ available.
          let (before, rest, cvc, there, below, ends) = available in
          let valid = EndsAtTerminal-is_valid (cvc ∷ rest) ends in
          let here = IsOfAuthority-has_authority car cvc below in
          let (chain, e) =
            find_in_chains-is_some pool test builder.productive builder.chains
              (before ++ (cvc ∷ rest)) there
              (find_in_chain-is_some pool test builder.productive before rest cvc here valid) in
          ap (λ o. is_valid (found_or_empty builder.productive o).certificates) e
          ∙ (subst (Found pool test builder.productive) e found).1,
    )

-- b
pub has_chain_for_card_lem :
    (builders : ChainBuilders) (output : EstablishPaceChannelOutput)
    → let productive = builders.productive_builder in
      let test = builders.test_builder in
      let offers : (CvCertificateChainBuilder → Bytes → Bool) =
        λ builder car. is_valid (chain_for_authority builder car).certificates in
      has_chain_for_card builders output ≡ (
        offers productive output.car_curr
        || offers productive output.car_prev
        || offers test output.car_curr
        || offers test output.car_prev)
unfolding has_chain_for_card chain_for_card chain_for_output
has_chain_for_card_lem builders output = ground arith

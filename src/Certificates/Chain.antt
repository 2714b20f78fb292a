-- ===== src/Certificates/Chain.antt =====
-- CVCertificate.cpp, CVCertificateChain.cpp and CVCertificateChainBuilder.cpp, and how AuthContext.cpp
-- chooses a chain. A certificate is what these read of it, with the address that tells two shared
-- pointers apart; its parsing and its signature are OpenSSL's.
pub mod Search
pub mod Served
pub mod Authority
use ausweis_app.Prelude.{
  ℕ, ◌<◌, Bool, true, false, not, ◌&&◌, ◌||◌, Option, none, some, List, [], ◌∷◌, ◌++◌,
  if◌then◌else◌, ◌==◌, length, ltb,
}
use ausweis_app.Bytes.{Bytes, same_bytes}
use ausweis_app.Access.Chat.{AccessRole, at_terminal, dv_od, dv_no_f}
use ausweis_app.Card.PaceOutput.{EstablishPaceChannelOutput}
use ausweis_app.Certificates.ChainBuilder.{get_chains, last_of}

pub record CvCertificate : Type 0 where
  pub address : ℕ
  pub certification_authority : Bytes
  pub certificate_holder : Bytes
  pub role : AccessRole
  pub raw_body : Bytes
  pub raw_signature : Bytes

-- `==` of two shared pointers, and of what they point to.
abbrev pub same_pointer : CvCertificate → CvCertificate → Bool
same_pointer a b = a.address == b.address

abbrev pub same_certificate : CvCertificate → CvCertificate → Bool
same_certificate a b =
    same_bytes a.raw_body b.raw_body && same_bytes a.raw_signature b.raw_signature

unfoldable pub is_issued_by : CvCertificate → CvCertificate → Bool
is_issued_by cvc issuer = same_bytes cvc.certification_authority issuer.certificate_holder

unfoldable pub is_child : CvCertificate → CvCertificate → Bool
is_child child parent = not (is_issued_by child child) && is_issued_by child parent

pub record CvCertificateChain : Type 0 where
  pub certificates : List CvCertificate
  pub productive : Bool

abbrev pub is_terminal : AccessRole → Bool
is_terminal role = elim role [ at_terminal ↦ true | _ ↦ false ]

abbrev pub is_document_verifier : AccessRole → Bool
is_document_verifier role = elim role [ dv_od ↦ true | dv_no_f ↦ true | _ ↦ false ]

-- `CVCertificateChain::isValid`: the last one is a terminal's, the one before a document verifier's.
unfoldable pub is_valid : List CvCertificate → Bool
is_valid [] = false
is_valid (first ∷ []) = false
is_valid (dv ∷ terminal ∷ []) = is_terminal terminal.role && is_document_verifier dv.role
is_valid (first ∷ second ∷ third ∷ rest) = is_valid (second ∷ third ∷ rest)

-- The constructor of `CVCertificateChain`.
unfoldable pub make_chain : List CvCertificate → Bool → CvCertificateChain
make_chain cvcs productive = record {
  certificates = if is_valid cvcs then cvcs else [];
  productive = productive;
}

pub record CvCertificateChainBuilder : Type 0 where
  pub chains : List (List CvCertificate)
  pub productive : Bool

unfoldable pub remove_invalid_chains : Bool → List (List CvCertificate) → List (List CvCertificate)
remove_invalid_chains productive [] = []
remove_invalid_chains productive (chain ∷ chains) =
    let rest = remove_invalid_chains productive chains in
    if is_valid (make_chain chain productive).certificates then chain ∷ rest else rest

-- The constructor of `CVCertificateChainBuilder`.
unfoldable pub chain_builder : ℕ → List CvCertificate → Bool → Option CvCertificateChainBuilder
chain_builder fuel pool productive = elim (get_chains same_pointer is_child fuel pool) [
  | none ↦ none
  | some chains ↦
      some (record { chains = remove_invalid_chains productive chains; productive = productive })
]

-- The loop over the positions of one chain, and the one over the chains.
unfoldable pub find_in_chain :
    Bool → (CvCertificate → Bool) → List CvCertificate → Option CvCertificateChain
find_in_chain productive test [] = none
find_in_chain productive test (cvc ∷ rest) =
    let later = find_in_chain productive test rest in
    let sub_chain = make_chain (cvc ∷ rest) productive in
    if test cvc then (if is_valid sub_chain.certificates then some sub_chain else later) else later

unfoldable pub find_in_chains :
    Bool → (CvCertificate → Bool) → List (List CvCertificate) → Option CvCertificateChain
find_in_chains productive test [] = none
find_in_chains productive test (chain ∷ chains) = elim (find_in_chain productive test chain) [
  | none ↦ find_in_chains productive test chains
  | some found ↦ some found
]

abbrev pub found_or_empty : Bool → Option CvCertificateChain → CvCertificateChain
found_or_empty productive none = record { certificates = []; productive = productive }
found_or_empty productive (some chain) = chain

abbrev pub has_authority : Bytes → CvCertificate → Bool
unfolding is_issued_by
has_authority car cvc = same_bytes cvc.certification_authority car && not (is_issued_by cvc cvc)

-- `getChainForCertificationAuthority` of a reference.
unfoldable pub chain_for_authority : CvCertificateChainBuilder → Bytes → CvCertificateChain
chain_for_authority builder car =
    found_or_empty builder.productive
      (find_in_chains builder.productive (has_authority car) builder.chains)

-- `getChainForCertificationAuthority` of the output of PACE.
unfoldable pub chain_for_output :
    CvCertificateChainBuilder → EstablishPaceChannelOutput → CvCertificateChain
chain_for_output builder output =
    let current = chain_for_authority builder output.car_curr in
    if not (is_valid current.certificates)
    then chain_for_authority builder output.car_prev
    else current

unfoldable pub chain_starting_with : CvCertificateChainBuilder → CvCertificate → CvCertificateChain
chain_starting_with builder root =
    found_or_empty builder.productive
      (find_in_chains builder.productive (λ cvc. same_certificate cvc root) builder.chains)

-- The two builders of an `AuthContext`.
pub record ChainBuilders : Type 0 where
  pub productive_builder : CvCertificateChainBuilder
  pub test_builder : CvCertificateChainBuilder

-- `initCvcChainBuilder`, from the certificates of the settings, of the service and of the card, and
-- the roots of the secure storage.
unfoldable pub init_chain_builders :
    ℕ
    → (link_certificates of_eac1 additional productive_roots test_roots : List CvCertificate)
    → Option ChainBuilders
init_chain_builders fuel link_certificates of_eac1 additional productive_roots test_roots =
    let cvcs = link_certificates ++ of_eac1 ++ additional in
    elim (chain_builder fuel (cvcs ++ productive_roots) true) [
      | none ↦ none
      | some productive ↦ elim (chain_builder fuel (cvcs ++ test_roots) false) [
        | none ↦ none
        | some test ↦ some (record { productive_builder = productive; test_builder = test })
      ]
    ]

-- `AuthContext::getChainForCertificationAuthority`, `hasChainForCertificationAuthority` and
-- `getChainStartingWith`
unfoldable pub chain_for_card : ChainBuilders → EstablishPaceChannelOutput → CvCertificateChain
chain_for_card builders output =
    let productive = chain_for_output builders.productive_builder output in
    if is_valid productive.certificates
    then productive
    else chain_for_output builders.test_builder output

unfoldable pub has_chain_for_card : ChainBuilders → EstablishPaceChannelOutput → Bool
has_chain_for_card builders output = is_valid (chain_for_card builders output).certificates

unfoldable pub chain_with_root : ChainBuilders → CvCertificate → CvCertificateChain
chain_with_root builders root =
    let productive = chain_starting_with builders.productive_builder root in
    let test = chain_starting_with builders.test_builder root in
    if is_valid productive.certificates
    then productive
    else if is_valid test.certificates
    then test
    else record { certificates = []; productive = true }

-- ===== src/Certificates/Examples.antt =====
-- The theorems on chains at a pool of five certificates.
use ausweis_app.Prelude.{ℕ, ◌≡◌, refl, true, some, List, [], ◌∷◌, All, arith, ==_iff}
use mathlib.Core.List.{Memᴰ}
use ausweis_app.Bytes.{same_bytes}
use ausweis_app.Access.Chat.{AccessRole, cvca, dv_od, at_terminal}
use ausweis_app.Certificates.ChainBuilder.{
  get_chains, build_from, build_chain, extend, keep, contains, is_sub_chain, is_part, is_prefix,
}
use ausweis_app.Certificates.ChainBuilder.Built.{IsChain}
use ausweis_app.Certificates.ChainBuilder.Complete.{get_chains-some, get_chains-IsChain}
use ausweis_app.Certificates.Chain.{
  CvCertificate, CvCertificateChainBuilder, chain_builder, chain_for_authority, is_child,
  is_issued_by, is_valid, make_chain, remove_invalid_chains, same_pointer, find_in_chain,
  find_in_chains,
}
use ausweis_app.Certificates.Chain.Served.{ServesAuthority, OffersAuthority}
use ausweis_app.Certificates.Chain.Authority.{chain_for_authority-Serves}

abbrev certificate : ℕ → ℕ → ℕ → AccessRole → CvCertificate
certificate address authority holder role = record {
  address = address;
  certification_authority = authority ∷ [];
  certificate_holder = holder ∷ [];
  role = role;
  raw_body = address ∷ [];
  raw_signature = [];
}

-- A root, a link to the next root, a document verifier, a terminal, and one that is alone.
abbrev root : CvCertificate
root = certificate 1 10 10 cvca

abbrev link : CvCertificate
link = certificate 2 10 11 cvca

abbrev verifier : CvCertificate
verifier = certificate 3 11 20 dv_od

abbrev terminal : CvCertificate
terminal = certificate 4 20 30 at_terminal

abbrev stranger : CvCertificate
stranger = certificate 5 77 78 at_terminal

abbrev pool : List CvCertificate
pool = terminal ∷ stranger ∷ root ∷ verifier ∷ link ∷ []

abbrev made : CvCertificateChainBuilder
made = record { chains = (root ∷ link ∷ verifier ∷ terminal ∷ []) ∷ []; productive = true }

chains_test :
    get_chains same_pointer is_child 6 pool
    ≡ some ((root ∷ link ∷ verifier ∷ terminal ∷ []) ∷ (stranger ∷ []) ∷ [])
unfolding get_chains build_from build_chain extend keep contains is_sub_chain is_part is_prefix
    is_child is_issued_by same_bytes
chains_test = refl

builder_test : chain_builder 6 pool true ≡ some made
unfolding chain_builder remove_invalid_chains make_chain is_valid get_chains build_from build_chain
    extend keep contains is_sub_chain is_part is_prefix is_child is_issued_by same_bytes
builder_test = refl

authority_test : (chain_for_authority made (11 ∷ [])).certificates ≡ verifier ∷ terminal ∷ []
unfolding chain_for_authority find_in_chains find_in_chain make_chain is_valid same_bytes
    is_issued_by
authority_test = refl

pointer_refl : (cvc : CvCertificate) → same_pointer cvc cvc ≡ true
pointer_refl cvc = (==_iff cvc.address cvc.address).1 refl

get_chains-some_example :
    (chains : List (List CvCertificate)) × (get_chains same_pointer is_child 6 pool ≡ some chains)
get_chains-some_example = get_chains-some same_pointer is_child pointer_refl pool 6 (omega arith)

get_chains-IsChain_example :
    let chains = (root ∷ link ∷ verifier ∷ terminal ∷ []) ∷ (stranger ∷ []) ∷ [] in
    All (IsChain same_pointer is_child pool) chains
    × ((elem : CvCertificate)
        → Memᴰ elem pool
        → is_sub_chain same_pointer chains (elem ∷ []) ≡ true)
get_chains-IsChain_example =
    get_chains-IsChain same_pointer is_child pointer_refl pool 6
      ((root ∷ link ∷ verifier ∷ terminal ∷ []) ∷ (stranger ∷ []) ∷ []) (omega arith) chains_test

chain_for_authority-Serves_example :
    (is_valid (chain_for_authority made (11 ∷ [])).certificates ≡ true
      → ServesAuthority pool (11 ∷ []) (chain_for_authority made (11 ∷ [])))
    × (OffersAuthority (11 ∷ []) made.chains
        → is_valid (chain_for_authority made (11 ∷ [])).certificates ≡ true)
chain_for_authority-Serves_example =
    chain_for_authority-Serves 6 pool true made (11 ∷ []) (omega arith) builder_test

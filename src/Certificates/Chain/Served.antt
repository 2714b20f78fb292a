-- ===== src/Certificates/Chain/Served.antt =====
-- What a chain for an authority has to be, by the references, the holders and the roles of its
-- certificates, and the tests of the search for one.
use ausweis_app.Prelude.{
  ◌≡◌, ◌≢◌, refl, sym, ap, ◌∙◌, subst, ◌⊎◌, Bool, true, false, not, ◌&&◌, &&-split, List, [], ◌∷◌,
  ◌++◌, All, arith,
}
use mathlib.Core.Bool.{true≢false}
use mathlib.Core.List.{Memᴰ}
use ausweis_app.Bytes.{Bytes, same_bytes, same_bytes_lem, same_bytes_refl}
use ausweis_app.Access.Chat.{at_terminal, dv_od, dv_no_f}
use ausweis_app.Certificates.ChainBuilder.Linked.{linked}
use ausweis_app.Certificates.Chain.{
  CvCertificate, CvCertificateChain, is_child, is_issued_by, is_valid, has_authority,
}

-- The authority has the reference, and the certificate is not the authority's own.
abbrev pub IsOfAuthority : Bytes → CvCertificate → Type 0
IsOfAuthority car cvc =
    (cvc.certification_authority ≡ car) × (cvc.certification_authority ≢ cvc.certificate_holder)

-- Each certificate names the holder of the one before as its authority, and not its own holder.
pub Issued : List CvCertificate → Type 0
Issued [] = Unit
Issued (first ∷ []) = Unit
Issued (first ∷ second ∷ rest) =
    IsOfAuthority first.certificate_holder second × Issued (second ∷ rest)

-- The last certificate is a terminal's, and the one before it a document verifier's.
abbrev pub EndsAtTerminal : List CvCertificate → Type 0
EndsAtTerminal chain =
    (before : List CvCertificate) × (verifier terminal : CvCertificate) × (chain
      ≡ before ++ (verifier ∷ terminal ∷ []))
    × (terminal.role ≡ at_terminal)
    × ((verifier.role ≡ dv_od) ⊎ (verifier.role ≡ dv_no_f))

roles :
    (verifier terminal : CvCertificate)
    → is_valid (verifier ∷ terminal ∷ []) ≡ true
    → (terminal.role ≡ at_terminal) × ((verifier.role ≡ dv_od) ⊎ (verifier.role ≡ dv_no_f))
unfolding is_valid
roles verifier terminal h = ground arith

pub is_valid-EndsAtTerminal :
    (chain : List CvCertificate) → is_valid chain ≡ true → EndsAtTerminal chain
unfolding is_valid
is_valid-EndsAtTerminal [] h = absurd (ground arith)
is_valid-EndsAtTerminal (first ∷ []) h = absurd (ground arith)
is_valid-EndsAtTerminal (verifier ∷ terminal ∷ []) h =
    let (last, before_last) = roles verifier terminal h in
    ([], verifier, terminal, refl, last, before_last)
is_valid-EndsAtTerminal (first ∷ second ∷ third ∷ rest) h =
    let (before, verifier, terminal, e, last, before_last) =
      is_valid-EndsAtTerminal (second ∷ third ∷ rest) h in
    (first ∷ before, verifier, terminal, ap (λ r. first ∷ r) e, last, before_last)

valid_behind :
    (first : CvCertificate) (chain : List CvCertificate)
    → is_valid chain ≡ true
    → is_valid (first ∷ chain) ≡ true
unfolding is_valid
valid_behind first [] h = absurd (ground arith)
valid_behind first (second ∷ []) h = absurd (ground arith)
valid_behind first (second ∷ third ∷ rest) h = h

valid_end :
    (before : List CvCertificate) (verifier terminal : CvCertificate)
    → terminal.role ≡ at_terminal
    → ((verifier.role ≡ dv_od) ⊎ (verifier.role ≡ dv_no_f))
    → is_valid (before ++ (verifier ∷ terminal ∷ [])) ≡ true
unfolding is_valid
valid_end [] verifier terminal last before_last = ground arith
valid_end (first ∷ before) verifier terminal last before_last =
    valid_behind first (before ++ (verifier ∷ terminal ∷ []))
      (valid_end before verifier terminal last before_last)

pub EndsAtTerminal-is_valid :
    (chain : List CvCertificate) → EndsAtTerminal chain → is_valid chain ≡ true
EndsAtTerminal-is_valid chain (before, verifier, terminal, e, last, before_last) =
    ap is_valid e ∙ valid_end before verifier terminal last before_last

-- A chain of certificates of the pool that begins below the authority.
abbrev pub ServesAuthority : List CvCertificate → Bytes → CvCertificateChain → Type 0
ServesAuthority pool car chain =
    (first : CvCertificate) × (rest : List CvCertificate) × (chain.certificates ≡ first ∷ rest)
    × IsOfAuthority car first
    × Issued chain.certificates
    × EndsAtTerminal chain.certificates
    × All (λ cvc. Memᴰ cvc pool) chain.certificates

-- A position in the chains, of a certificate below the authority, from which the chain is valid.
abbrev pub OffersAuthority : Bytes → List (List CvCertificate) → Type 0
OffersAuthority car chains =
    (before rest : List CvCertificate) × (cvc : CvCertificate) × Memᴰ (before ++ (cvc ∷ rest))
      chains
    × IsOfAuthority car cvc
    × EndsAtTerminal (cvc ∷ rest)

-- The test of the search.
is_issued_by-holder :
    (cvc issuer : CvCertificate)
    → is_issued_by cvc issuer ≡ true
    → cvc.certification_authority ≡ issuer.certificate_holder
unfolding is_issued_by
is_issued_by-holder cvc issuer h =
    same_bytes_lem cvc.certification_authority issuer.certificate_holder h

not_own :
    (cvc : CvCertificate)
    → not (is_issued_by cvc cvc) ≡ true
    → cvc.certification_authority ≢ cvc.certificate_holder
unfolding is_issued_by
not_own cvc h e = true≢false (
    sym (
      subst (λ holder. same_bytes cvc.certification_authority holder ≡ true) e
        (same_bytes_refl cvc.certification_authority))
    ∙ (not-true (same_bytes cvc.certification_authority cvc.certificate_holder) h))
  where
    not-true : (b : Bool) → not b ≡ true → b ≡ false
    not-true false h = refl
    not-true true h = absurd (true≢false (sym h))

pub has_authority-IsOfAuthority :
    (car : Bytes) (cvc : CvCertificate) → has_authority car cvc ≡ true → IsOfAuthority car cvc
unfolding is_issued_by
has_authority-IsOfAuthority car cvc h =
    let (named, foreign) =
      &&-split (same_bytes cvc.certification_authority car) (not (is_issued_by cvc cvc)) h in
    (same_bytes_lem cvc.certification_authority car named, not_own cvc foreign)

pub IsOfAuthority-has_authority :
    (car : Bytes) (cvc : CvCertificate) → IsOfAuthority car cvc → has_authority car cvc ≡ true
unfolding is_issued_by
IsOfAuthority-has_authority car cvc (named, foreign) =
    both (same_bytes cvc.certification_authority car)
      (same_bytes cvc.certification_authority cvc.certificate_holder)
      (subst (λ other. same_bytes cvc.certification_authority other ≡ true) named
        (same_bytes_refl cvc.certification_authority))
      (λ own. foreign (same_bytes_lem cvc.certification_authority cvc.certificate_holder own))
  where
    both : (a b : Bool) → a ≡ true → ¬ (b ≡ true) → (a && not b) ≡ true
    both a true h other = absurd (other refl)
    both a false h other = rw h refl

pub linked-Issued : (chain : List CvCertificate) → linked is_child chain ≡ true → Issued chain
unfolding linked Issued is_child
linked-Issued [] h = tt
linked-Issued (first ∷ []) h = tt
linked-Issued (first ∷ second ∷ rest) h =
    let (child, further) = &&-split (is_child second first) (linked is_child (second ∷ rest)) h in
    let (foreign, issued) =
      &&-split (not (is_issued_by second second)) (is_issued_by second first) child in
    (
      (is_issued_by-holder second first issued, not_own second foreign),
      linked-Issued (second ∷ rest) further,
    )

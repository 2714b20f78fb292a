-- ===== src/Card/SecureMessaging/Standard.antt =====
-- The protection of messages of TR-03110 part 3, appendix F, as a card makes it: the block of the
-- send sequence counter, the padding of ISO/IEC 9797-1, and the encrypted data object. None of it
-- uses SecureMessaging.cpp; that agrees with it.
use ausweis_app.Prelude.{
  ℕ, zero, suc, ◌+◌, ◌-◌, ◌/◌, ◌%◌, ◌≤◌, ◌<◌, ◌≡◌, refl, sym, ap, ◌∙◌, true, some, [], ◌∷◌, ◌++◌,
  arith, ◌==◌, ==_iff, Bool-cases, inl, inr, if◌then◌else◌, length, length-append, length-replicate,
  replicate, ltb, ltb→lt, ltb→le,
}
use native.Mathlib.Nat.{mod-eq_of_lt, mod-add-mod, mod-lt, mod_self}
use ausweis_app.Bytes.{Bytes}
use ausweis_app.Card.Crypto.{Crypto, IsLawful}
use ausweis_app.Card.SymmetricCipher.{SymmetricCipher, set_iv, encrypt_blocks, bytes_or_empty}
use ausweis_app.Card.SecureMessaging.{SecureMessaging, get_send_sequence_counter, set_encrypted_iv}
use ausweis_app.Card.SecureMessaging.Padding.{pad}

-- The counter of the message behind the one with the counter `n`.
abbrev pub next_counter : ℕ → ℕ
next_counter n = (n + 1) % 4294967296

-- The counter in its block, the high byte first.
abbrev pub counter_block : Crypto → ℕ → Bytes
counter_block k n =
    replicate (k.block_size - 4) 0x00
    ++ (n / 16777216 % 256 ∷ n / 65536 % 256 ∷ n / 256 % 256 ∷ n % 256 ∷ [])

-- 0x80 and as many zeros as fill the block.
unfoldable pub iso_padded : ℕ → Bytes → Bytes
iso_padded block plain =
    plain ++ 0x80 ∷ replicate ((block - (length plain + 1) % block) % block) 0x00

filling : (block remainder : ℕ) → ℕ
filling block remainder = (if remainder == 0 then block else block - remainder) - 1

filling-lt :
    (block remainder : ℕ)
    → remainder + 1 < block
    → filling block remainder ≡ block - (remainder + 1)
unfolding filling
filling-lt block zero h = refl
filling-lt block (suc remainder) h = grind arith

filling-last : (block remainder : ℕ) → remainder + 1 ≡ block → filling block remainder ≡ 0
unfolding filling
filling-last block zero h = grind arith
filling-last block (suc remainder) h = grind arith

filling-mod :
    (block remainder : ℕ)
    → remainder < block
    → filling block remainder ≡ (block - (remainder + 1) % block) % block
filling-mod block remainder h = elim (Bool-cases (ltb (remainder + 1) block)) [
  | inl less ↦
      let smaller : (remainder + 1 < block) = ltb→lt less in
      filling-lt block remainder smaller
      ∙ sym (
          ap (λ m. (block - m) % block) (mod-eq_of_lt smaller)
          ∙ mod-eq_of_lt (rest_lt remainder block smaller))
  | inr more ↦
      let whole : (remainder + 1 ≡ block) = omega (arith, ltb→le more, h) in
      filling-last block remainder whole
      ∙ sym (
          ap (λ m. (block - m) % block) (ap (λ m. m % block) whole ∙ mod_self block)
          ∙ ap (λ m. m % block) (all_of block)
          ∙ mod_self block)
]
  where
    all_of : (b : ℕ) → b - 0 ≡ b
    all_of b = omega arith

    rest_lt : (r b : ℕ) → r + 1 < b → b - (r + 1) < b
    rest_lt r b less = omega arith

pub pad-iso_padded : (block : ℕ) (plain : Bytes) → pad block plain ≡ iso_padded block plain
unfolding pad iso_padded filling
pad-iso_padded zero plain = ap (λ n. plain ++ 0x80 ∷ replicate n 0x00) (nothing (length plain % 0))
  where
    nothing_left : 0 ≡ (0 - (length plain + 1) % 0) % 0
    nothing_left = sym (ap (λ m. m % 0) (none_from ((length plain + 1) % 0)) ∙ mod_self 0)
      where
        none_from : (m : ℕ) → 0 - m ≡ 0
        none_from m = omega arith

    nothing : (n : ℕ) → (if n == 0 then 0 else 0 - n) - 1 ≡ (0 - (length plain + 1) % 0) % 0
    nothing zero = nothing_left
    nothing (suc n) = grind arith ∙ nothing_left
pad-iso_padded (suc c) plain =
    let block = suc c in
    ap (λ n. plain ++ 0x80 ∷ replicate n 0x00)
      (filling-mod block (length plain % block) (mod-lt (length plain) (omega arith))
        ∙ ap (λ m. (block - m) % block) (mod-add-mod (length plain) block 1))

pub get_send_sequence_counter-block :
    (k : Crypto) (sm : SecureMessaging)
    → get_send_sequence_counter k sm ≡ counter_block k sm.send_sequence_counter
unfolding get_send_sequence_counter
get_send_sequence_counter-block k sm = refl

length-counter_block :
    (k : Crypto) (law : IsLawful k) (n : ℕ) → length (counter_block k n) ≡ k.block_size
length-counter_block k law n =
    length-append (replicate (k.block_size - 4) 0x00)
      (n / 16777216 % 256 ∷ n / 65536 % 256 ∷ n / 256 % 256 ∷ n % 256 ∷ [])
    ∙ ap (λ m. m + 4) (length-replicate (k.block_size - 4) 0x00)
    ∙ whole law.block_size_min
  where
    whole : {b : ℕ} → 4 ≤ b → b - 4 + 4 ≡ b
    whole {b = b} h = omega arith

set_iv_lem :
    (k : Crypto) (cipher : SymmetricCipher) (iv : Bytes)
    → length iv ≡ k.iv_length
    → (set_iv k cipher iv).1 ≡ record cipher { iv = iv }
unfolding set_iv
set_iv_lem k cipher iv h = rw ((==_iff (length iv) k.iv_length).1 h) refl

-- The vector is the encrypted counter.
pub set_encrypted_iv_lem :
    (k : Crypto) (law : IsLawful k) (sm : SecureMessaging) (iv : Bytes)
    → sm.cipher.initialized ≡ true
    → k.evp_encrypt (replicate k.block_size 0x00) (counter_block k sm.send_sequence_counter)
      ≡ some iv
    → set_encrypted_iv k sm ≡ record sm { cipher = record sm.cipher { iv = iv } }
unfolding set_encrypted_iv encrypt_blocks get_send_sequence_counter
set_encrypted_iv_lem k law sm iv ready made =
    let zeros = replicate k.block_size 0x00 in
    let zeroed = record sm.cipher { iv = zeros } in
    let block = counter_block k sm.send_sequence_counter in
    let size = length-counter_block k law sm.send_sequence_counter in
    let first : ((set_iv k sm.cipher zeros).1 ≡ zeroed) =
      set_iv_lem k sm.cipher zeros (length-replicate k.block_size 0x00 ∙ sym law.iv_length_block) in
    let encrypted : (encrypt_blocks k zeroed block ≡ iv) = rw ready (
      rw
        ((==_iff (length block % k.block_size) 0).1
          (ap (λ n. n % k.block_size) size ∙ mod_self k.block_size))
        (ap bytes_or_empty made)) in
    ap (λ cipher. record sm { cipher = (set_iv k cipher (encrypt_blocks k cipher block)).1 }) first
    ∙ ap (λ bytes. record sm { cipher = (set_iv k zeroed bytes).1 }) encrypted
    ∙ ap (λ cipher. record sm { cipher = cipher })
        (set_iv_lem k zeroed iv
          (law.length-encrypt zeros block iv made ∙ size ∙ sym law.iv_length_block))

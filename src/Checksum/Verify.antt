-- ===== src/Checksum/Verify.antt =====
-- A packet with its checksum written in verifies.
use open_vrrp.Prelude.{
  ℕ, ◌+◌, ◌*◌, ◌/◌, ◌%◌, ◌^◌, ◌<◌, ◌≡◌, List, [], ◌∷◌, ◌++◌, some, arith, length, ap, ◌∙◌,
  append-nil, length-append,
}
use native.Mathlib.Nat.{zero-add}
use open_vrrp.Checksum.{add_words, complement, checksum_with}
use open_vrrp.Checksum.Fold.{folded, fold-folded}
use open_vrrp.Checksum.Sum.{word_sum, word_sum-append_even, add_words_lem}

-- On a buffer that begins with an even number of bytes the checksum over them is the complement of
-- the folded sum of their words and of the pseudo header's.
pub checksum_with_lem :
    (p n : ℕ) (pseudo packet rest : List ℕ)
    → length pseudo ≡ 2 * p
    → length packet ≡ 2 * n
    → word_sum pseudo + word_sum packet < 2 ^ 32
    → checksum_with pseudo (packet ++ rest) (2 * n)
      ≡ some (complement (folded (word_sum pseudo + word_sum packet)))
unfolding checksum_with
checksum_with_lem p n pseudo packet rest ep en h =
    let halves : length pseudo / 2 ≡ p = omega arith in
    let words : 2 * n / 2 ≡ n = omega arith in
    let head : add_words p pseudo 0 ≡ some (word_sum pseudo) =
      rw (append-nil, zero-add) at (add_words_lem p pseudo [] 0 ep (omega arith)) in
    rw (halves, head, words, add_words_lem n packet rest (word_sum pseudo) en h, fold-folded _ h)

folded-complement : (s : ℕ) → complement (folded (s + complement (folded s))) ≡ 0
folded-complement s = ground arith

-- The sum of a packet's words with a word written into its empty field.
word_sum-field :
    (k c : ℕ) (front back : List ℕ)
    → length front ≡ 2 * k
    → c < 2 ^ 16
    → word_sum (front ++ (c / 256) ∷ (c % 256) ∷ back) ≡ word_sum (front ++ 0 ∷ 0 ∷ back) + c
word_sum-field k c front back e h = omega (
  arith,
  word_sum-append_even k front ((c / 256) ∷ (c % 256) ∷ back) e,
  word_sum-append_even k front (0 ∷ 0 ∷ back) e,
)

-- A packet of even length, behind a pseudo header of even length, with an even number of bytes
-- before its empty checksum field and a sum of words below 2^31: with its checksum written into
-- the field the checksum is 0, whatever follows it in the buffer.
pub checksum_verifies :
    (p k n c : ℕ) (pseudo front back rest : List ℕ)
    → length pseudo ≡ 2 * p
    → length front ≡ 2 * k
    → length (front ++ 0 ∷ 0 ∷ back) ≡ 2 * n
    → word_sum pseudo + word_sum (front ++ 0 ∷ 0 ∷ back) < 2 ^ 31
    → checksum_with pseudo (front ++ 0 ∷ 0 ∷ back) (2 * n) ≡ some c
    → checksum_with pseudo ((front ++ (c / 256) ∷ (c % 256) ∷ back) ++ rest) (2 * n) ≡ some 0
checksum_verifies p k n c pseudo front back rest ep ek en h e =
    let zero : List ℕ = front ++ 0 ∷ 0 ∷ back in
    let filled : List ℕ = front ++ (c / 256) ∷ (c % 256) ∷ back in
    let same : length filled ≡ 2 * n = omega (
      arith,
      length-append front (0 ∷ 0 ∷ back),
      length-append front ((c / 256) ∷ (c % 256) ∷ back),
    ) in
    let total : ℕ = word_sum pseudo + word_sum zero in
    let made : checksum_with pseudo zero (2 * n) ≡ some (complement (folded total)) =
      rw append-nil at (checksum_with_lem p n pseudo zero [] ep en (omega arith)) in
    let is : c ≡ complement (folded total) = cc in
    let sum : word_sum filled ≡ word_sum zero + c =
      word_sum-field k c front back ek (rw is (omega arith)) in
    let all : word_sum pseudo + word_sum filled ≡ total + complement (folded total) = omega arith in
    checksum_with_lem p n pseudo filled rest ep same (omega arith)
    ∙ ap some (ap (λ (t : ℕ). complement (folded t)) all ∙ folded-complement total)

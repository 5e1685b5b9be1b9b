-- ===== src/Checksum/Sum.antt =====
-- The words of a buffer and their sum, without wrap-around.
use open_vrrp.Prelude.{
  ℕ, zero, suc, ◌+◌, ◌*◌, ◌^◌, ◌≤◌, ◌<◌, ◌≡◌, List, [], ◌∷◌, ◌++◌, some, arith, length, All, IsByte,
}
use open_vrrp.Checksum.{add_words}

-- The sum of the 16-bit words of a buffer, in network order.
abbrev pub word_sum : List ℕ → ℕ
word_sum [] = 0
word_sum (a ∷ []) = 0
word_sum (a ∷ b ∷ bytes) = a * 256 + b + word_sum bytes

pub word_sum-append_even :
    (n : ℕ) (xs ys : List ℕ) → length xs ≡ 2 * n → word_sum (xs ++ ys) ≡ word_sum xs + word_sum ys
word_sum-append_even zero [] ys e = omega arith
word_sum-append_even zero (a ∷ xs) ys e = absurd (omega arith)
word_sum-append_even (suc n) [] ys e = absurd (omega arith)
word_sum-append_even (suc n) (a ∷ []) ys e = absurd (omega arith)
word_sum-append_even (suc n) (a ∷ b ∷ xs) ys e =
    omega (arith, word_sum-append_even n xs ys (omega arith))

pub word_sum-le :
    (n : ℕ) (xs : List ℕ) → length xs ≤ 2 * n → All IsByte xs → word_sum xs ≤ 65535 * n
word_sum-le n [] h bs = omega arith
word_sum-le n (a ∷ []) h bs = omega arith
word_sum-le zero (a ∷ b ∷ xs) h bs = absurd (omega arith)
word_sum-le (suc n) (a ∷ b ∷ xs) h (ba, (bb, bs)) = omega (arith, word_sum-le n xs (omega arith) bs)

-- The loop over the words of a buffer that has them all, as long as the sum stays below 2^32.
pub add_words_lem :
    (n : ℕ) (xs ys : List ℕ) (acc : ℕ)
    → length xs ≡ 2 * n
    → acc + word_sum xs < 2 ^ 32
    → add_words n (xs ++ ys) acc ≡ some (acc + word_sum xs)
unfolding add_words
add_words_lem zero [] ys acc e h = ground arith
add_words_lem zero (a ∷ xs) ys acc e h = absurd (omega arith)
add_words_lem (suc n) [] ys acc e h = absurd (omega arith)
add_words_lem (suc n) (a ∷ []) ys acc e h = absurd (omega arith)
add_words_lem (suc n) (a ∷ b ∷ xs) ys acc e h =
    let c : ℕ = acc + (a * 256 + b) in
    ground (arith, add_words_lem n xs ys c (omega arith) (omega arith))

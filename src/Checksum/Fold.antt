-- ===== src/Checksum/Fold.antt =====
-- The end-around carry: it stops within three rounds, and gives the residue modulo 65535.
use open_vrrp.Prelude.{
  ℕ, suc, ◌+◌, ◌-◌, ◌/◌, ◌%◌, ◌^◌, ◌≤◌, ◌<◌, ◌≡◌, ◌==◌, if◌then◌else◌, some, arith, u32, refl, ap,
  false, ◌∙◌, dec_lt,
}
use open_vrrp.Checksum.{fold}

-- The sum that the loop ends with.
abbrev pub folded : ℕ → ℕ
folded s = if s == 0 then 0 else (s - 1) % 65535 + 1

carry : ℕ → ℕ
carry s = s % 2 ^ 16 + s / 2 ^ 16

folded-carry : (s : ℕ) → folded (carry s) ≡ folded s
unfolding carry
folded-carry s = ground arith

fold_small : (fuel s : ℕ) → s < 2 ^ 16 → fold (suc fuel) s ≡ some s
unfolding fold
fold_small fuel s h = ground arith

folded_eq : (s : ℕ) → s < 2 ^ 16 → s ≡ folded s
folded_eq s h = ground arith

fold_step : (fuel s : ℕ) → 2 ^ 16 ≤ s → s < 2 ^ 32 → fold (suc fuel) s ≡ fold fuel (carry s)
unfolding fold carry
fold_step fuel s h k =
    let more : (s / 2 ^ 16 == 0) ≡ false = ground arith in
    let exact : u32 (s % 2 ^ 16 + s / 2 ^ 16) ≡ s % 2 ^ 16 + s / 2 ^ 16 = omega arith in
    rw (more, exact) refl

carry_bounds : (s : ℕ) → s < 2 ^ 32 → (carry s < 2 ^ 17 - 1) × (s < 2 ^ 17 - 1 → carry s < 2 ^ 16)
unfolding carry
carry_bounds s h = (omega arith, λ k. omega arith)

fold_two : (fuel s : ℕ) → s < 2 ^ 17 - 1 → fold (suc (suc fuel)) s ≡ some (folded s)
fold_two fuel s h = elim (dec_lt s (2 ^ 16)) [
  | yes small ↦ fold_small (suc fuel) s small ∙ ap some (folded_eq s small)
  | no large ↦
      fold_step (suc fuel) s (omega arith) (omega arith)
      ∙ fold_small fuel (carry s) ((carry_bounds s (omega arith)).1 h)
      ∙ ap some (folded_eq (carry s) ((carry_bounds s (omega arith)).1 h) ∙ folded-carry s)
]

-- The loop of the checksum ends within three rounds on every 32-bit sum, with a 16-bit number that
-- is 0 only for 0 and is congruent to the sum modulo 65535.
pub fold-folded : (s : ℕ) → s < 2 ^ 32 → fold 3 s ≡ some (folded s)
fold-folded s h = elim (dec_lt s (2 ^ 16)) [
  | yes small ↦ fold_small 2 s small ∙ ap some (folded_eq s small)
  | no large ↦
      fold_step 2 s (omega arith) h
      ∙ fold_two 0 (carry s) (carry_bounds s h).0
      ∙ ap some (folded-carry s)
]

-- ===== src/Telnet/Receive/Overrun.antt =====
-- What becomes of a read with more than one line.
use open_vrrp.Prelude.{
  ℕ, zero, suc, ◌+◌, ◌-◌, ◌^◌, ◌<◌, ◌≤◌, ltb, Bool, true, false, List, [], ◌∷◌, ◌++◌, some, length,
  take, drop, u32, ◌≡◌, refl, arith, ap, ◌∙◌, length-append, take-append,
}
use open_vrrp.Telnet.Receive.{Input, overruns, take_lines, receive_chunk, collect}
use open_vrrp.Telnet.Receive.Lines.{IsText, found, collects}

module _ {W : Type 0} (act : List ℕ → W → Bool × W) (scratch : List ℕ → W → List ℕ) where
  -- The bytes that memmove is given, where all of the buffer's contents were just read.
  wrapped : (n : ℕ) → n < 2 ^ 32 → 1 ≤ n → u32 (n + 2 ^ 32 - n - 1) ≡ 2 ^ 32 - 1
  wrapped n h k = omega arith

  more_behind :
      (fuel nl : ℕ) (used behind : List ℕ) (w : W)
      → nl + 1 < length used
      → length used < 2 ^ 32
      → (act (take nl used) w).0 ≡ true
      → length (scratch (take nl used ++ 0 ∷ (drop (nl + 1) used ++ behind)) w) < 2 ^ 32
      → take_lines act scratch
          (suc fuel)
          nl
          (length used)
          (record { used = used; behind = behind; overflow = false })
          w
        ≡ overruns
  unfolding take_lines
  more_behind fuel nl used behind w more small going_on size =
      let beyond : ltb (nl + 1) (length used) ≡ true = ground arith in
      let past : ltb (length (scratch (take nl used ++ 0 ∷ (drop (nl + 1) used ++ behind)) w))
            (nl + 1 + (2 ^ 32 - 1))
          ≡ true =
        ground arith in
      rw (going_on, beyond, wrapped (length used) small (omega arith), past) refl

  starts :
      (fuel n nl : ℕ) (chunk used behind : List ℕ) (overflow : Bool) (w : W)
      → nl ≡ n
      → used ≡ chunk
      → overflow ≡ false
      → take_lines act scratch
          (suc fuel)
          nl
          (length chunk)
          (record { used = used; behind = behind; overflow = overflow })
          w
        ≡ take_lines act scratch
            (suc fuel)
            n
            (length chunk)
            (record { used = chunk; behind = behind; overflow = false })
            w
  starts fuel n nl chunk used behind overflow w e u o = rw (e, u, o) refl

  at_start :
      (fuel : ℕ) (c chunk : List ℕ) (s : Input) (w : W)
      → s.used ≡ []
      → s.overflow ≡ false
      → collect act scratch (suc fuel) (some (length c)) chunk s w
        ≡ take_lines act scratch
            (suc fuel)
            (length c)
            (length chunk)
            (record { used = chunk; behind = drop (length chunk) s.behind; overflow = false })
            w
  unfolding collect
  at_start fuel c chunk s w empty o =
      starts fuel (length c) (length s.used + length c) chunk (s.used ++ chunk)
        (drop (length chunk) s.behind) s.overflow w (rw empty (omega arith)) (rw empty refl) o

  drop-past :
      (c : List ℕ) (x : ℕ) (d : List ℕ) (n : ℕ) → n ≡ suc (length c) → drop n (c ++ x ∷ d) ≡ d
  drop-past [] x d n e = rw e refl
  drop-past (y ∷ c) x d n e = rw e (drop-past c x d (suc (length c)) refl)

  length-drop : (n : ℕ) (xs : List ℕ) → length (drop n xs) ≤ length xs
  length-drop zero xs = omega arith
  length-drop (suc n) [] = omega arith
  length-drop (suc n) (x ∷ xs) = omega (arith, length-drop n xs)

  whole_buffer :
      (c : List ℕ) (b : ℕ) (d behind : List ℕ)
      → length (
          take (length c) (c ++ 10 ∷ b ∷ d)
          ++ 0 ∷ (drop (length c + 1) (c ++ 10 ∷ b ∷ d) ++ behind))
        ≡ length (c ++ 10 ∷ b ∷ d) + length behind
  whole_buffer c b d behind =
      rw (take-append c (10 ∷ b ∷ d), drop-past c 10 (b ∷ d) (length c + 1) (omega arith))
        (omega (
          arith,
          length-append c (10 ∷ b ∷ d),
          length-append c (0 ∷ (b ∷ d) ++ behind),
          length-append (b ∷ d) behind,
        ))

  -- If one read gives a session with an empty buffer of 1024 bytes a line and more behind it, the line
  -- does not end the session, and handleCommand works in place, then memmove reads past the end of the
  -- buffer.
  pub two_lines :
      (fuel : ℕ) (c : List ℕ) (b : ℕ) (d : List ℕ) (s : Input) (w : W)
      → s.used ≡ []
      → length s.behind ≡ 1024
      → s.overflow ≡ false
      → IsText c
      → length (c ++ 10 ∷ b ∷ d) ≤ 1024
      → (act c w).0 ≡ true
      → ((buffer : List ℕ) → length (scratch buffer w) ≡ length buffer)
      → receive_chunk act scratch (suc fuel) (c ++ 10 ∷ b ∷ d) s w ≡ overruns
  two_lines fuel c b d s w empty size o text fits going_on in_place =
      let chunk : List ℕ = c ++ 10 ∷ b ∷ d in
      let behind : List ℕ = drop (length chunk) s.behind in
      let line : take (length c) chunk ≡ c = take-append c (10 ∷ b ∷ d) in
      let buffer : List ℕ = take (length c) chunk ++ 0 ∷ (drop (length c + 1) chunk ++ behind) in
      collects act scratch c (b ∷ d) (suc fuel) s w
      ∙ ap (λ found_at. collect act scratch (suc fuel) found_at chunk s w) (found c (b ∷ d) text)
      ∙ at_start fuel c chunk s w empty o
      ∙ more_behind fuel (length c) chunk behind w (omega (arith, length-append c (10 ∷ b ∷ d)))
          (omega arith) (rw line going_on)
          (omega (
            arith,
            in_place buffer,
            whole_buffer c b d behind,
            length-drop (length chunk) s.behind,
          ))

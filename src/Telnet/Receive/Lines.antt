-- ===== src/Telnet/Receive/Lines.antt =====
-- The lines that a session handles are those that the client sends, as long as no read gives more
-- than the rest of one line.
use open_vrrp.Prelude.{
  ℕ, suc, ◌+◌, ◌<◌, ◌==◌, ltb, not, if◌then◌else◌, Bool, true, false, List, [], ◌∷◌, ◌++◌, Option,
  none, some, length, take, drop, ◌≡◌, ◌≢◌, refl, arith, ap, subst, sym, ◌∙◌, length-append,
  append_assoc, append-nil, take-append, drop-append,
}
use open_vrrp.Telnet.Receive.{
  Input, find_newline, Outcome, returns, overruns, unfinished, take_lines, receive_chunk, collect,
}

-- A text without a newline.
abbrev pub IsText : List ℕ → Type 0
IsText c = find_newline c ≡ none

first-IsText : (b : ℕ) (c : List ℕ) → IsText (b ∷ c) → ((b == 10) ≡ false) × IsText c
unfolding find_newline
first-IsText b c h = ground arith

pub found : (c more : List ℕ) → IsText c → find_newline (c ++ 10 ∷ more) ≡ some (length c)
unfolding find_newline
found [] more h = refl
found (b ∷ c) more h =
    let (other, text) = first-IsText b c h in rw (other, found c more text) (ap some (omega arith))

-- What one read gives: a part of a line, or the rest of one with its newline.
pub data Read : Type 0 where
  part ends : List ℕ → Read

abbrev pub chunk_of : Read → List ℕ
chunk_of (part c) = c
chunk_of (ends c) = c ++ 10 ∷ []

-- The reads have no other newlines, a part is not empty, and no line fills the buffer; `begun` is what
-- there is of the line already.
abbrev pub AreFit : List Read → List ℕ → Type 0
AreFit [] begun = Unit {0}
AreFit (part c ∷ reads) begun =
    IsText c × (c ≢ []) × (length (begun ++ c) < 1024) × AreFit reads (begun ++ c)
AreFit (ends c ∷ reads) begun = IsText c × (length (begun ++ c) < 1024) × AreFit reads []

-- The lines that are sent.
abbrev pub lines_of : List Read → List ℕ → List (List ℕ)
lines_of [] begun = []
lines_of (part c ∷ reads) begun = lines_of reads (begun ++ c)
lines_of (ends c ∷ reads) begun = (begun ++ c) ∷ lines_of reads []

nothing_behind : (line : List ℕ) → drop (length line + 1) (line ++ 10 ∷ []) ≡ []
nothing_behind line =
    let size : length (line ++ 10 ∷ []) ≡ length line + 1 =
      omega (arith, length-append line (10 ∷ [])) in
    subst (λ n. drop n (line ++ 10 ∷ []) ≡ []) size
      (rw append-nil at (drop-append (line ++ 10 ∷ []) []))

module _ {W : Type 0} (act : List ℕ → W → Bool × W) (scratch : List ℕ → W → List ℕ) where
  -- The lines one after the other, up to one that ends the session.
  abbrev pub handle_lines : List (List ℕ) → W → Bool × W
  handle_lines [] w = (true, w)
  handle_lines (l ∷ ls) w =
      let (going_on, w') = act l w in if going_on then handle_lines ls w' else (false, w')

  abbrev after : Outcome W → (Input → W → Option (Bool × W)) → Option (Bool × W)
  after overruns next = none
  after unfinished next = none
  after (returns none w) next = some (false, w)
  after (returns (some s) w) next = next s w

  -- The reads one after the other, up to one after which the session is deleted; `fuel` is for the
  -- lines of one read, and nothing is left where it does not last or memmove overruns.
  abbrev pub receive_all : ℕ → List Read → Input → W → Option (Bool × W)
  receive_all fuel [] s w = some (true, w)
  receive_all fuel (r ∷ reads) s w =
      after (receive_chunk act scratch fuel (chunk_of r) s w) (receive_all fuel reads)

  receive-part :
      (fuel : ℕ) (c : List ℕ) (s : Input) (w : W)
      → s.overflow ≡ false
      → IsText c
      → c ≢ []
      → length (s.used ++ c) < 1024
      → receive_chunk act scratch fuel c s w
        ≡ returns
            (some
              (record { used = s.used ++ c; behind = drop (length c) s.behind; overflow = false }))
            w
  unfolding receive_chunk collect
  receive-part fuel [] s w o text full fits = absurd (full refl)
  receive-part fuel (b ∷ c) s w o text full fits =
      let small : (length (s.used ++ b ∷ c) == 1024) ≡ false = ground arith in
      rw (receive_chunk, text) (rw (o, small) refl)

  -- What is left after a line that ends what was read.
  abbrev line_done : Bool × W → List ℕ → Outcome W
  line_done (true, w) buffer =
      returns (some (record { used = []; behind = buffer; overflow = false })) w
  line_done (false, w) buffer = returns none w

  done :
      (o : Bool × W) (buffer : List ℕ)
      → (if not o.0
          then returns none o.1
          else returns (some (record { used = []; behind = buffer; overflow = false })) o.1)
        ≡ line_done o buffer
  done (true, w) buffer = refl
  done (false, w) buffer = refl

  last_line :
      (fuel got : ℕ) (line behind : List ℕ) (w : W)
      → take_lines act scratch
          (suc fuel)
          (length line)
          got
          (record { used = line ++ 10 ∷ []; behind = behind; overflow = false })
          w
        ≡ line_done (act line w) (scratch (line ++ 0 ∷ behind) w)
  unfolding take_lines
  last_line fuel got line behind w =
      let taken : take (length line) (line ++ 10 ∷ []) ≡ line = take-append line (10 ∷ []) in
      let dropped : drop (length line + 1) (line ++ 10 ∷ []) ≡ [] = nothing_behind line in
      let last : ltb (length line + 1) (length (line ++ 10 ∷ [])) ≡ false =
        ground (arith, length-append line (10 ∷ [])) in
      rw (taken, dropped, last) (done (act line w) (scratch (line ++ 0 ∷ behind) w))

  last_line_lem :
      (fuel got nl : ℕ) (line used behind : List ℕ) (overflow : Bool) (w : W)
      → nl ≡ length line
      → used ≡ line ++ 10 ∷ []
      → overflow ≡ false
      → take_lines act scratch
          (suc fuel)
          nl
          got
          (record { used = used; behind = behind; overflow = overflow })
          w
        ≡ line_done (act line w) (scratch (line ++ 0 ∷ behind) w)
  last_line_lem fuel got nl line used behind overflow w n u o =
      rw (n, u, o) (last_line fuel got line behind w)

  pub collects :
      (c d : List ℕ) (fuel : ℕ) (s : Input) (w : W)
      → receive_chunk act scratch fuel (c ++ 10 ∷ d) s w
        ≡ collect act scratch fuel (find_newline (c ++ 10 ∷ d)) (c ++ 10 ∷ d) s w
  unfolding receive_chunk
  collects [] d fuel s w = refl
  collects (b ∷ c) d fuel s w = refl

  receive-ends :
      (fuel : ℕ) (c : List ℕ) (s : Input) (w : W)
      → s.overflow ≡ false
      → IsText c
      → receive_chunk act scratch (suc fuel) (c ++ 10 ∷ []) s w
        ≡ line_done
            (act (s.used ++ c) w)
            (scratch ((s.used ++ c) ++ 0 ∷ drop (length (c ++ 10 ∷ [])) s.behind) w)
  unfolding receive_chunk collect
  receive-ends fuel c s w o text =
      let chunk : List ℕ = c ++ 10 ∷ [] in
      let behind : List ℕ = drop (length chunk) s.behind in
      let place : length s.used + length c ≡ length (s.used ++ c) =
        omega (arith, length-append s.used c) in
      let whole : s.used ++ chunk ≡ (s.used ++ c) ++ 10 ∷ [] =
        sym (append_assoc s.used c (10 ∷ [])) in
      collects c [] (suc fuel) s w
      ∙ ap (λ found_at. collect act scratch (suc fuel) found_at chunk s w) (found c [] text)
      ∙ last_line_lem fuel (length chunk) (length s.used + length c) (s.used ++ c) (s.used ++ chunk)
          behind s.overflow w place whole o

  ended :
      (o : Bool × W) (buffer : List ℕ) (next : Input → W → Option (Bool × W)) (lines : W → Bool × W)
      → ((w : W)
          → next (record { used = []; behind = buffer; overflow = false }) w ≡ some (lines w))
      → after (line_done o buffer) next ≡ some (if o.0 then lines o.1 else (false, o.1))
  ended (true, w) buffer next lines h = h w
  ended (false, w) buffer next lines h = refl

  -- A client that sends each line in one read or in several, so that no read goes beyond the end of a
  -- line, and no line that fills the buffer: whatever is in the buffer behind its contents, the session
  -- hands handleCommand exactly these lines, in their order and whole, up to one after which it ends,
  -- and is deleted exactly if there is such a line.
  pub receive_all-lines :
      (fuel : ℕ) (reads : List Read) (s : Input) (w : W)
      → s.overflow ≡ false
      → AreFit reads s.used
      → receive_all (suc fuel) reads s w ≡ some (handle_lines (lines_of reads s.used) w)
  receive_all-lines fuel [] s w o fit = refl
  receive_all-lines fuel (part c ∷ reads) s w o (text, full, fits, fit) =
      rw (receive-part (suc fuel) c s w o text full fits) (
        receive_all-lines fuel reads
          (record { used = s.used ++ c; behind = drop (length c) s.behind; overflow = false }) w
          refl fit)
  receive_all-lines fuel (ends c ∷ reads) s w o (text, fits, fit) =
      let buffer : List ℕ =
        scratch ((s.used ++ c) ++ 0 ∷ drop (length (c ++ 10 ∷ [])) s.behind) w in
      rw (receive-ends fuel c s w o text) (
        ended (act (s.used ++ c) w) buffer (receive_all (suc fuel) reads)
          (handle_lines (lines_of reads []))
          (λ w'.
            receive_all-lines fuel reads (record { used = []; behind = buffer; overflow = false })
              w' refl fit))

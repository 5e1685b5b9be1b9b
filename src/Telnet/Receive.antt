-- ===== src/Telnet/Receive.antt =====
-- TelnetSession::receiveChunk: the bytes that a client sends, collected to lines in `m_buffer`.
pub mod Lines
pub mod Overrun
use open_vrrp.Prelude.{
  ℕ, zero, suc, ◌+◌, ◌-◌, ◌^◌, ◌==◌, ltb, not, if◌then◌else◌, Bool, true, false, List, [], ◌∷◌,
  ◌++◌, Option, none, some, length, take, drop, u32,
}

-- `m_buffer` as its first m_bufferSize bytes and those behind them, and `m_overflow`.
pub record Input : Type 0 where
  pub used : List ℕ
  pub behind : List ℕ
  pub overflow : Bool

abbrev pub behind_one : Option ℕ → Option ℕ
behind_one none = none
behind_one (some n) = some (n + 1)

-- `memchr` for a newline: how many bytes are before it.
unfoldable pub find_newline : List ℕ → Option ℕ
find_newline [] = none
find_newline (b ∷ bytes) =
    let rest = find_newline bytes in if b == 10 then some 0 else behind_one rest

-- How receiveChunk ends: what is left of the session and of what it works on, no input if the session
-- is deleted; or memmove reads past the end of the buffer; or the fuel does not last.
pub data Outcome (W : Type 0) : Type 0 where
  returns : Option Input → W → Outcome W
  overruns unfinished : Outcome W

-- `act` is handleCommand with a line, which tells whether to go on; `scratch` is what it makes of the
-- buffer, in which it works.
module _ {W : Type 0} (act : List ℕ → W → Bool × W) (scratch : List ℕ → W → List ℕ) where
  -- A line, which is only refused after an overflow.
  abbrev answer_line : Bool → List ℕ → List ℕ → W → Bool × List ℕ × W
  answer_line true line buffer w = (true, buffer, w)
  answer_line false line buffer w = ((act line w).0, scratch buffer w, (act line w).1)

  -- memmove(m_buffer, nl + 1, n): `none` where it reads past the end of the buffer.
  abbrev move : ℕ → ℕ → List ℕ → Option (List ℕ)
  move nl n buffer =
      if ltb (length buffer) (nl + 1 + n)
      then none
      else some (take n (drop (nl + 1) buffer) ++ drop n buffer)

  -- The loop over the lines, on fuel: a newline is at `nl`, and read gave `got` bytes.
  unfoldable pub take_lines : ℕ → ℕ → ℕ → Input → W → Outcome W
  unfolding find_newline
  take_lines zero nl got s w = unfinished
  take_lines (suc fuel) nl got s w =
      let (going_on, buffer, w') =
        answer_line s.overflow (take nl s.used)
          (take nl s.used ++ 0 ∷ (drop (nl + 1) s.used ++ s.behind)) w in
      if not going_on
      then returns none w'
      else if ltb (nl + 1) (length s.used)
      then (elim (move nl (u32 (length s.used + 2 ^ 32 - got - 1)) buffer) [
        | none ↦ overruns
        | some moved ↦
            let next : Input = record {
              used = take (length s.used) moved;
              behind = drop (length s.used) moved;
              overflow = false;
            } in
            elim (find_newline next.used) [
              | none ↦ returns (some next) w'
              | some nl' ↦ take_lines fuel nl' got next w'
            ]
      ])
      else returns (some (record { used = []; behind = buffer; overflow = false })) w'

  -- From the search for a newline in what was read, at the end of the buffer's contents.
  unfoldable pub collect : ℕ → Option ℕ → List ℕ → Input → W → Outcome W
  unfolding take_lines
  collect fuel none chunk s w =
      let used : List ℕ = s.used ++ chunk in
      let behind : List ℕ = drop (length chunk) s.behind in
      if s.overflow
      then returns (some (record { used = []; behind = used ++ behind; overflow = true })) w
      else returns (some (record { used = used; behind = behind; overflow = length used == 1024 }))
          w
  collect fuel (some n) chunk s w =
      take_lines fuel (length s.used + n) (length chunk)
        (record {
          used = s.used ++ chunk;
          behind = drop (length chunk) s.behind;
          overflow = s.overflow;
        })
        w

  -- `chunk` is what read gives, at most the bytes behind; nothing if it gives 0 or fails.
  unfoldable pub receive_chunk : ℕ → List ℕ → Input → W → Outcome W
  unfolding find_newline collect
  receive_chunk fuel [] s w = returns none w
  receive_chunk fuel (b ∷ more) s w = collect fuel (find_newline (b ∷ more)) (b ∷ more) s w

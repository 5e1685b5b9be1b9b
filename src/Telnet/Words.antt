-- ===== src/Telnet/Words.antt =====
-- splitCommand.
use open_vrrp.Prelude.{
  ℕ, ◌==◌, ◌||◌, if◌then◌else◌, Bool, true, false, List, [], ◌∷◌, ◌++◌, ◌≡◌, refl, All, ap, ◌∙◌,
  Bool-cases, inl, inr, arith,
}
use open_vrrp.Text.{is_space}

-- The loop, by its variable `whiteSpace`: the rest of the word that it is in, empty where it is in
-- none, and the words that begin later. It ends at a byte of 0, as at the end of the line.
unfoldable pub split_from : Bool → List ℕ → List ℕ × List (List ℕ)
split_from white [] = ([], [])
split_from white (c ∷ cs) =
    let after = split_from true cs in
    let inside = split_from false cs in
    if c == 0
    then ([], [])
    else if is_space c
    then ([], after.1)
    else if white
    then ([], (c ∷ inside.0) ∷ inside.1)
    else (c ∷ inside.0, inside.1)

unfoldable pub split_command : List ℕ → List (List ℕ)
unfolding split_from
split_command command = (split_from true command).1

-- A byte that ends a word.
abbrev pub is_end : ℕ → Bool
is_end c = c == 0 || is_space c

-- A word: at least one byte, and no space or 0.
abbrev pub IsWord : List ℕ → Type 0
IsWord [] = ⊥
IsWord (c ∷ cs) = All (λ x. is_end x ≡ false) (c ∷ cs)

-- Words with one space behind each.
abbrev pub unwords : List (List ℕ) → List ℕ
unwords [] = []
unwords (w ∷ ws) = w ++ b' ' ∷ unwords ws

split_from-word :
    (cs rest : List ℕ)
    → All (λ x. is_end x ≡ false) cs
    → split_from false (cs ++ b' ' ∷ rest) ≡ (cs, (split_from true rest).1)
unfolding split_from
split_from-word [] rest h = refl
split_from-word (c ∷ cs) rest (n, h) =
    let zero : (c == 0) ≡ false = ground arith in
    let space : is_space c ≡ false = ground arith in
    rw (zero, space, split_from-word cs rest h) refl

split_from-first :
    (c : ℕ) (cs rest : List ℕ)
    → IsWord (c ∷ cs)
    → (split_from true ((c ∷ cs) ++ b' ' ∷ rest)).1 ≡ (c ∷ cs) ∷ (split_from true rest).1
unfolding split_from
split_from-first c cs rest (n, h) =
    let zero : (c == 0) ≡ false = ground arith in
    let space : is_space c ≡ false = ground arith in
    rw (zero, space, split_from-word cs rest h) refl

split_from-stop :
    (white : Bool) (cs rest : List ℕ) → split_from white (cs ++ 0 ∷ rest) ≡ split_from white cs
unfolding split_from
split_from-stop white [] rest = refl
split_from-stop white (c ∷ cs) rest =
    rw (split_from-stop true cs rest, split_from-stop false cs rest) refl

split_command-words : (ws : List (List ℕ)) → All IsWord ws → split_command (unwords ws) ≡ ws
unfolding split_command
split_command-words [] h = refl
split_command-words ([] ∷ ws) (h, hs) = absurd h
split_command-words ((c ∷ cs) ∷ ws) ((n, h), hs) =
    split_from-first c cs (unwords ws) (n, h)
    ∙ ap (λ (vs : List (List ℕ)). (c ∷ cs) ∷ vs) (split_command-words ws hs)

split_command-stop :
    (command rest : List ℕ) → split_command (command ++ 0 ∷ rest) ≡ split_command command
unfolding split_command
split_command-stop command rest =
    ap (λ (r : List ℕ × List (List ℕ)). r.1) (split_from-stop true command rest)

-- Words, each with at least one byte and no space or 0, that are written with a space behind each
-- are read as they are, and nothing behind a byte of 0 is read.
pub split_command-unwords :
    (ws : List (List ℕ)) (rest : List ℕ)
    → All IsWord ws
    → (split_command (unwords ws) ≡ ws) × (split_command (unwords ws ++ 0 ∷ rest) ≡ ws)
split_command-unwords ws rest h =
    let read : split_command (unwords ws) ≡ ws = split_command-words ws h in
    (read, split_command-stop (unwords ws) rest ∙ read)

word_of :
    (white : Bool) (c : ℕ) (r : List ℕ × List (List ℕ))
    → is_end c ≡ false
    → All (λ x. is_end x ≡ false) r.0 × All IsWord r.1
    → let r' : List ℕ × List (List ℕ) = if white then ([], (c ∷ r.0) ∷ r.1) else (c ∷ r.0, r.1) in
      All (λ x. is_end x ≡ false) r'.0 × All IsWord r'.1
word_of true c r e h = (tt, ((e, h.0), h.1))
word_of false c r e h = ((e, h.0), h.1)

split_from_words :
    (white : Bool) (command : List ℕ)
    → All (λ x. is_end x ≡ false) (split_from white command).0
      × All IsWord (split_from white command).1
unfolding split_from
split_from_words white [] = (tt, tt)
split_from_words white (c ∷ cs) =
    let after = split_from_words true cs in
    let inside = split_from_words false cs in
    elim (Bool-cases (c == 0)) [
      | inl z ↦ rw z (tt, tt)
      | inr z ↦ elim (Bool-cases (is_space c)) [
        | inl e ↦ rw (z, e) (tt, after.1)
        | inr e ↦ rw (z, e) (word_of white c (split_from false cs) (rw (z, e) refl) inside)
      ]
    ]

-- Whatever a line holds, each argument has at least one byte, and no space or 0.
pub split_command-IsWord : (command : List ℕ) → All IsWord (split_command command)
unfolding split_command
split_command-IsWord command = (split_from_words true command).1

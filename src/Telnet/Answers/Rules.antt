-- ===== src/Telnet/Answers/Rules.antt =====
-- Computations that stay within their arguments, and how they compose.
use open_vrrp.Prelude.{
  ℕ, zero, suc, ◌<◌, [], ◌∷◌, Bool, true, false, if◌then◌else◌, List, Option, none, some, ◌≡◌, ◌≢◌,
  refl, get_elem?, length, Option-cases, inl, inr, arith,
}
use open_vrrp.Service.{Service, Call}
use open_vrrp.Service.Run.{Event}
use open_vrrp.Manager.{VrrpServiceMap}
use open_vrrp.Telnet.{
  Response, Session, T, ◌>>=◌, continue, pure, respond, word, get_services, put_services, invoke,
}

-- The computation never reads past `argv`.
pub record Answers {A : Type 0} (m : T A) : Type 0 where
  pub run : (s : Session) → m s ≢ none

get_elem?-some : (argv : List (List ℕ)) (i : ℕ) → i < length argv → get_elem? argv i ≢ none
get_elem?-some [] i h = absurd (omega arith)
get_elem?-some (w ∷ ws) zero h = λ e. cc
get_elem?-some (w ∷ ws) (suc i) h = get_elem?-some ws i (omega arith)

continue-Answers :
    {A B : Type 0} (o : Option (A × Session)) (f : A → T B)
    → o ≢ none
    → ((a : A) → Answers (f a))
    → continue o f ≢ none
continue-Answers none f h k = absurd (h refl)
continue-Answers (some (a, s)) f h k = (k a).run s

module _ {A : Type 0} where
  pub Answers-bind :
      {B : Type 0} (m : T A) (f : A → T B)
      → Answers m
      → ((a : A) → Answers (f a))
      → Answers (m >>= f)
  Answers-bind m f h k = record { run = λ s. continue-Answers (m s) f (h.run s) k }

  pub Answers-pure : (a : A) → Answers (pure a)
  Answers-pure a = record { run = λ s e. cc }

  pub Answers-if :
      (b : Bool) (m k : T A)
      → (b ≡ true → Answers m)
      → (b ≡ false → Answers k)
      → Answers (if b then m else k)
  Answers-if true m k hm hk = hm refl
  Answers-if false m k hm hk = hk refl

  pub Answers-word :
      (argv : List (List ℕ)) (i : ℕ) (f : List ℕ → T A)
      → i < length argv
      → ((w : List ℕ) → get_elem? argv i ≡ some w → Answers (f w))
      → Answers (word argv i >>= f)
  Answers-word argv i f h k = elim (Option-cases (get_elem? argv i)) [
    | inl e ↦ absurd (get_elem?-some argv i h e)
    | inr (w, e) ↦ rw e (k w e)
  ]

pub respond-Answers : (r : Response) → Answers (respond r)
respond-Answers r = record { run = λ s e. cc }

pub get_services-Answers : Answers get_services
get_services-Answers = record { run = λ s e. cc }

pub put_services-Answers : (m : VrrpServiceMap) (calls : List Call) → Answers (put_services m calls)
put_services-Answers m calls = record { run = λ s e. cc }

pub invoke-Answers : (e : Event) (t : Service) → Answers (invoke e t)
unfolding invoke
invoke-Answers e t = record { run = λ s e. cc }

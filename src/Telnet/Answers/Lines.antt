-- ===== src/Telnet/Answers/Lines.antt =====
-- The command lines that stay within their arguments, and those that do not.
use open_vrrp.Prelude.{
  ℕ, ◌==◌, ◌<◌, ◌&&◌, if◌then◌else◌, Bool, true, false, List, [], ◌∷◌, Option, none, some, ◌≡◌, ◌↔◌,
  refl, sym, ap, subst, arith, length, get_elem?, Bool-cases, inl, inr,
}
use open_vrrp.Service.{Service}
use open_vrrp.Service.Run.{Event}
use open_vrrp.Text.{codes, text_eq}
use open_vrrp.Telnet.{Environment, Session, T, continue, pure, get_services, invoke}
use open_vrrp.Telnet.Lookup.{use_if_any}
use open_vrrp.Telnet.Words.{split_command}
use open_vrrp.Telnet.Lookup.{has_word, lookup_service}
use open_vrrp.Telnet.Settings.{on_set_router_command, on_set_command}
use open_vrrp.Telnet.Show.{on_save_command}
use open_vrrp.Manager.{find_service}
use open_vrrp.Telnet.Daemon.{Input, line, happens, turn, unless_ended, run}
use open_vrrp.Telnet.Commands.{going_on, on_command, is_empty, handle_command}
use open_vrrp.Telnet.Answers.Rules.{
  Answers, Answers-bind, Answers-pure, Answers-if, Answers-word, respond-Answers,
  get_services-Answers, invoke-Answers,
}
use open_vrrp.Telnet.Answers.Handlers.{
  on_add_command-Answers, on_remove_command-Answers, on_enable_command-Answers,
  on_disable_command-Answers,
}
use open_vrrp.Telnet.Answers.Settings.{lacks_names, on_set_command-Answers, on_show_command-Answers}

abbrev pub overreads : Environment → List (List ℕ) → Bool
overreads env argv =
    has_word argv 0 (codes "set") && has_word argv 1 (codes "router") && lacks_names env argv

on_save_command-Answers :
    (env : Environment) (argv : List (List ℕ)) → Answers (on_save_command env argv)
unfolding on_save_command
on_save_command-Answers env argv = respond-Answers _

going_on-Answers : (m : T (Unit {0})) → Answers m → Answers (going_on m)
going_on-Answers m h = Answers-bind m _ h λ _. Answers-pure true

set_is_complete :
    (env : Environment) (argv : List (List ℕ)) (name : List ℕ)
    → overreads env argv ≡ false
    → get_elem? argv 0 ≡ some name
    → text_eq name (codes "set") ≡ true
    → (has_word argv 1 (codes "router") && lacks_names env argv) ≡ false
set_is_complete env argv name reads e is_set =
    let first : has_word argv 0 (codes "set") ≡ true = rw (e, has_word) is_set in cc

on_command-Answers :
    (env : Environment) (argv : List (List ℕ))
    → 0 < length argv
    → overreads env argv ≡ false
    → Answers (on_command env argv)
unfolding on_command
on_command-Answers env argv h reads = Answers-word argv 0 _ h λ name e.
    Answers-if (text_eq name (codes "add")) _ _
      (λ _. going_on-Answers _ (on_add_command-Answers env argv))
      λ _.
        Answers-if (text_eq name (codes "remove")) _ _
          (λ _. going_on-Answers _ (on_remove_command-Answers env argv))
          λ _.
            Answers-if (text_eq name (codes "set")) _ _
              (λ is_set.
                going_on-Answers _
                  (on_set_command-Answers env argv (set_is_complete env argv name reads e is_set)))
              λ _.
                Answers-if (text_eq name (codes "enable")) _ _
                  (λ _. going_on-Answers _ (on_enable_command-Answers env argv))
                  λ _.
                    Answers-if (text_eq name (codes "disable")) _ _
                      (λ _. going_on-Answers _ (on_disable_command-Answers env argv))
                      λ _.
                        Answers-if (text_eq name (codes "show")) _ _
                          (λ _. going_on-Answers _ (on_show_command-Answers env argv))
                          λ _.
                            Answers-if (text_eq name (codes "exit")) _ _ (λ _. Answers-pure false)
                              λ _.
                                Answers-if (text_eq name (codes "help")) _ _
                                  (λ _. going_on-Answers _ (respond-Answers _))
                                  λ _.
                                    Answers-if (text_eq name (codes "save")) _ _
                                      (λ _. going_on-Answers _ (on_save_command-Answers env argv))
                                      λ _. going_on-Answers _ (respond-Answers _)

-- A name of an interface is not needed behind the router id.
on_set_command-none :
    (env : Environment) (argv : List (List ℕ)) (s : Session)
    → has_word argv 1 (codes "router") ≡ true
    → lacks_names env argv ≡ true
    → on_set_command env argv s ≡ none
unfolding on_set_command on_set_router_command lookup_service
on_set_command-none env (a ∷ b ∷ []) s h l = rw h refl
on_set_command-none env (a ∷ b ∷ name ∷ []) s h l =
    elim (Bool-cases (env.if_nametoindex name == 0)) [
      | inl e ↦ absurd (ground arith)
      | inr e ↦ rw (h, e) refl
    ]
on_set_command-none env [] s h l = cc
on_set_command-none env (a ∷ []) s h l = cc
on_set_command-none env (a ∷ b ∷ c ∷ d ∷ ws) s h l = absurd (ground arith)

text_eq_eq : (a b : List ℕ) → text_eq a b ≡ true → a ≡ b
unfolding text_eq
text_eq_eq [] [] h = refl
text_eq_eq [] (b ∷ bs) h = cc
text_eq_eq (a ∷ as') [] h = cc
text_eq_eq (a ∷ as') (b ∷ bs) h =
    let heads : a ≡ b = ground arith in
    let tails : text_eq as' bs ≡ true = ground arith in cc (heads, text_eq_eq as' bs tails)

on_command-set :
    (env : Environment) (ws : List (List ℕ)) (s : Session)
    → on_set_command env (codes "set" ∷ ws) s ≡ none
    → on_command env (codes "set" ∷ ws) s ≡ none
unfolding on_command text_eq
on_command-set env ws s h = ap (λ (o : Option (Unit {0} × Session)). continue o (λ _. pure true)) h

on_command-none :
    (env : Environment) (argv : List (List ℕ)) (s : Session)
    → overreads env argv ≡ true
    → on_command env argv s ≡ none
on_command-none env [] s h = cc
on_command-none env (name ∷ ws) s h =
    let is_set : name ≡ codes "set" = text_eq_eq name (codes "set") (ground arith) in
    let faults = on_set_command-none env (name ∷ ws) s (ground arith) (ground arith) in
    subst (λ (n : List ℕ). on_command env (n ∷ ws) s ≡ none) (sym is_set)
      (on_command-set env ws s
        (subst (λ (n : List ℕ). on_set_command env (n ∷ ws) s ≡ none) is_set faults))

argv_faults :
    (env : Environment) (argv : List (List ℕ)) (s : Session)
    → let m : T Bool = if is_empty argv then pure true else on_command env argv in
      (m s ≡ none) ↔ (overreads env argv ≡ true)
argv_faults env [] s = (λ e. cc, λ e. cc)
argv_faults env (name ∷ ws) s = elim (Bool-cases (overreads env (name ∷ ws))) [
  | inl e ↦ (λ _. e, λ _. on_command-none env (name ∷ ws) s e)
  | inr e ↦ (
    λ faults. absurd ((on_command-Answers env (name ∷ ws) (omega arith) e).run s faults),
    λ reads. absurd (cc),
  )
]

-- A command line reads past the end of its arguments exactly if its first words are `set router`
-- and then nothing, or only the name of an interface that there is. Every other line is handled to
-- the end, whatever its words are.
pub handle_command-overreads :
    (env : Environment) (text : List ℕ) (s : Session)
    → (handle_command env text s ≡ none) ↔ (overreads env (split_command text) ≡ true)
unfolding handle_command
handle_command-overreads env text s = argv_faults env (split_command text) s

-- No line reads past its arguments.
abbrev pub AreComplete : List Input → Type 0
AreComplete [] = Unit
AreComplete (line env text ∷ xs) = (overreads env (split_command text) ≡ false) × AreComplete xs
AreComplete (happens i v f e ∷ xs) = AreComplete xs

complete-Answers :
    (env : Environment) (text : List ℕ)
    → overreads env (split_command text) ≡ false
    → Answers (handle_command env text)
complete-Answers env text e = record {
  run = λ s faults. let reads = (handle_command-overreads env text s).0 faults in absurd (cc);
}

found-Answers : (e : Event) (o : Option Service) → Answers (use_if_any (invoke e) o)
found-Answers e none = Answers-pure tt
found-Answers e (some s) = invoke-Answers e s

unless_ended-Answers : (m : T Bool) (b : Bool) → Answers m → Answers (unless_ended m b)
unless_ended-Answers m true h = h
unless_ended-Answers m false h = Answers-pure false

pub run-Answers : (xs : List Input) → AreComplete xs → Answers (run xs)
unfolding run turn
run-Answers [] h = Answers-pure true
run-Answers (line env text ∷ xs) h =
    Answers-bind (handle_command env text) _ (complete-Answers env text h.0)
      λ b. unless_ended-Answers (run xs) b (run-Answers xs h.1)
run-Answers (happens i v f e ∷ xs) h =
    Answers-bind (turn (happens i v f e)) _
      (Answers-bind get_services _ get_services-Answers λ services.
        Answers-bind (use_if_any (invoke e) (find_service i v f services)) _
          (found-Answers e (find_service i v f services)) λ _. Answers-pure true)
      λ b. unless_ended-Answers (run xs) b (run-Answers xs h)

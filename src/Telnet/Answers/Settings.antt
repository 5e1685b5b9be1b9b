-- ===== src/Telnet/Answers/Settings.antt =====
-- The settings, and what is shown, stay within their arguments.
use open_vrrp.Prelude.{
  ℕ, zero, suc, ◌+◌, ◌==◌, ◌<◌, ltb, ◌&&◌, ◌||◌, not, if◌then◌else◌, Bool, true, false, List, [],
  ◌∷◌, Option, none, some, ◌≡◌, refl, arith, length, get_elem?, any,
}
use open_vrrp.Address.{inet6, number}
use open_vrrp.Service.{Service}
use open_vrrp.Service.Run.{Event, preempt, accept, on_master, on_backup}
use open_vrrp.Text.{codes, text_eq}
use open_vrrp.Telnet.{Response, Environment, T, respond, get_services, invoke}
use open_vrrp.Telnet.Lookup.{has_word}
use open_vrrp.Telnet.Settings.{
  argument, set_command, set_primary, set_priority_text, set_interval, set_flag, set_router,
  on_set_router_command, on_set_command, true_values, false_values,
}
use open_vrrp.Telnet.Show.{
  Chosen, chosen, refused, shown, respond_all, show_chosen, on_show_router_command, on_show_command,
}
use open_vrrp.Telnet.Answers.Rules.{
  Answers, Answers-bind, Answers-pure, Answers-if, Answers-word, respond-Answers,
  get_services-Answers, invoke-Answers,
}
use open_vrrp.Telnet.Answers.Handlers.{HasNames, with_service-Answers}

module _ (s : Service) where
  argument-Answers :
      (argv : List (List ℕ)) (offset : ℕ) (usage : Response) (f : List ℕ → T (Unit {0}))
      → ((text : List ℕ) → Answers (f text))
      → Answers (argument argv offset usage f)
  argument-Answers argv offset usage f h =
      Answers-if (ltb (offset + 1) (length argv)) _ _
        (λ e. Answers-word argv (offset + 1) f (ground arith) λ text _. h text)
        λ _. respond-Answers usage

  invoke_unless-Answers :
      (b : Bool) (usage : Response) (e : Event) → Answers (if b then respond usage else invoke e s)
  invoke_unless-Answers b usage e =
      Answers-if b _ _ (λ _. respond-Answers usage) λ _. invoke-Answers e s

  set_flag-Answers :
      (usage : Response) (event : Bool → Event) (text : List ℕ)
      → Answers (set_flag usage event s text)
  unfolding set_flag
  set_flag-Answers usage event text =
      Answers-if (any (text_eq text) true_values) _ _ (λ _. invoke-Answers (event true) s)
        λ _.
          Answers-if (any (text_eq text) false_values) _ _ (λ _. invoke-Answers (event false) s)
            λ _. respond-Answers usage

  set_command-Answers :
      (argv : List (List ℕ)) (offset : ℕ) (usage : Response) (event : List ℕ → Event)
      → Answers (set_command argv offset usage event s)
  set_command-Answers argv offset usage event =
      Answers-if (has_word argv (offset + 1) (codes "command")) _ _ (λ _. invoke-Answers _ s)
        λ _. respond-Answers usage

  set_router-Answers :
      (env : Environment) (argv : List (List ℕ)) (offset : ℕ)
      → Answers (set_router env argv offset s)
  unfolding set_router set_primary set_priority_text set_interval
  set_router-Answers env argv offset =
      Answers-if (not (ltb offset (length argv))) _ _ (λ _. respond-Answers _)
        λ _.
          Answers-if (has_word argv offset (codes "primary")) _ _
            (λ _. argument-Answers argv offset _ _ λ t. invoke_unless-Answers _ _ _)
            λ _.
              Answers-if (has_word argv offset (codes "priority")) _ _
                (λ _. argument-Answers argv offset _ _ λ t. invoke_unless-Answers _ _ _)
                λ _.
                  Answers-if (has_word argv offset (codes "interval")) _ _
                    (λ _. argument-Answers argv offset _ _ λ t. invoke_unless-Answers _ _ _)
                    λ _.
                      Answers-if (has_word argv offset (codes "accept")) _ _
                        (λ _. argument-Answers argv offset _ _ (set_flag-Answers _ accept))
                        λ _.
                          Answers-if (has_word argv offset (codes "preempt")) _ _
                            (λ _. argument-Answers argv offset _ _ (set_flag-Answers _ preempt))
                            λ _.
                              Answers-if (has_word argv offset (codes "master")) _ _
                                (λ _. set_command-Answers argv offset _ on_master)
                                λ _.
                                  Answers-if (has_word argv offset (codes "backup")) _ _
                                    (λ _. set_command-Answers argv offset _ on_backup)
                                    λ _. respond-Answers _

respond_all-Answers : (b : Bool) (l : List Service) → Answers (respond_all b l)
unfolding respond_all
respond_all-Answers b [] = Answers-pure tt
respond_all-Answers b (s ∷ rest) =
    Answers-bind (respond _) _ (respond-Answers _) λ _. respond_all-Answers b rest

show_chosen-Answers : (c : Chosen) → Answers (show_chosen c)
show_chosen-Answers (refused r) = respond-Answers r
show_chosen-Answers (chosen c) =
    Answers-bind get_services _ get_services-Answers
      λ services. respond_all-Answers c.stats (shown c services)

pub on_show_command-Answers :
    (env : Environment) (argv : List (List ℕ)) → Answers (on_show_command env argv)
unfolding on_show_command on_show_router_command
on_show_command-Answers env argv =
    Answers-if (has_word argv 1 (codes "router")) _ _ (λ _. show_chosen-Answers _)
      λ _.
        Answers-if (has_word argv 1 (codes "stats")) _ _ (λ _. respond-Answers _)
          λ _. respond-Answers _

abbrev is_known : Environment → Option (List ℕ) → Bool
is_known env none = false
is_known env (some name) = not (env.if_nametoindex name == 0)

-- A line that the handler of `set router` takes without the words that getService reads.
abbrev pub lacks_names : Environment → List (List ℕ) → Bool
lacks_names env argv = length argv == 2 || (length argv == 3 && is_known env (get_elem? argv 2))

has_word-length :
    (argv : List (List ℕ)) (i : ℕ) (t : List ℕ) → has_word argv i t ≡ true → i < length argv
has_word-length [] i t h = cc
has_word-length (w ∷ ws) zero t h = omega arith
has_word-length (w ∷ ws) (suc i) t h = omega (arith, has_word-length ws i t h)

lacks_names-HasNames :
    (env : Environment) (argv : List (List ℕ))
    → 1 < length argv
    → lacks_names env argv ≡ false
    → HasNames env argv
lacks_names-HasNames env argv h e = (
  ground arith,
  λ name f unknown.
      let known : is_known env (get_elem? argv 2) ≡ true = rw (f, unknown) refl in ground arith,
)

pub on_set_command-Answers :
    (env : Environment) (argv : List (List ℕ))
    → (has_word argv 1 (codes "router") && lacks_names env argv) ≡ false
    → Answers (on_set_command env argv)
unfolding on_set_command on_set_router_command
on_set_command-Answers env argv h =
    Answers-if (has_word argv 1 (codes "router")) _ _
      (λ e.
        with_service-Answers env argv _
          (lacks_names-HasNames env argv (has_word-length argv 1 (codes "router") e) (cc))
          λ s. set_router-Answers s env argv (if number s.family == number inet6 then 5 else 4))
      λ _. respond-Answers _

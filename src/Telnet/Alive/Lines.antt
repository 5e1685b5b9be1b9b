-- ===== src/Telnet/Alive/Lines.antt =====
-- Every command line keeps every service in order.
use Prim.{tt}
use open_vrrp.Prelude.{ℕ, if◌then◌else◌, Bool, true, false, List, [], ◌∷◌, Option-cases, inl, inr}
use open_vrrp.Service.{Service}
use open_vrrp.Service.Run.{Event}
use open_vrrp.Service.Run.Liveness.{IsFeasible}
use open_vrrp.Text.{codes, text_eq}
use open_vrrp.Manager.{VrrpServiceMap, find_service}
use open_vrrp.Telnet.{
  help, invalid_command, stats, show_usage, router, router_stats, Environment, T, respond, word,
  get_services, invoke,
}
use open_vrrp.Telnet.Lookup.{has_word, use_if_any}
use open_vrrp.Telnet.Words.{split_command}
use open_vrrp.Telnet.Show.{
  Chosen, chosen, refused, shown, respond_all, show_chosen, on_show_router_command, on_show_command,
  on_save_command,
}
use open_vrrp.Telnet.Commands.{going_on, on_command, is_empty, handle_command}
use open_vrrp.Telnet.Daemon.{Input, line, happens, turn, unless_ended, run}
use open_vrrp.Manager.Sound.{AreSound}
use open_vrrp.Telnet.Alive.Rules.{
  Ensures-bind, Ensures-pure, Ensures-if, IsOrderly, respond-IsOrderly, word-IsOrderly,
  invoke-IsOrderly, get_services-Ensures, skip-IsOrderly,
}
use open_vrrp.Telnet.Alive.Handlers.{on_add_command-IsOrderly, on_remove_command-IsOrderly}
use open_vrrp.Telnet.Alive.Settings.{
  on_set_command-IsOrderly, on_enable_command-IsOrderly, on_disable_command-IsOrderly,
}

respond_all-IsOrderly : (b : Bool) (l : List Service) → IsOrderly (respond_all b l)
unfolding respond_all
respond_all-IsOrderly b [] = skip-IsOrderly
respond_all-IsOrderly b (s ∷ rest) =
    Ensures-bind (respond (if b then router_stats s else router s)) _ (respond-IsOrderly _)
      λ _ _. respond_all-IsOrderly b rest

show_chosen-IsOrderly : (c : Chosen) → IsOrderly (show_chosen c)
show_chosen-IsOrderly (refused r) = respond-IsOrderly r
show_chosen-IsOrderly (chosen c) =
    Ensures-bind get_services _ get_services-Ensures
      λ services _. respond_all-IsOrderly c.stats (shown c services)

on_show_command-IsOrderly :
    (env : Environment) (argv : List (List ℕ)) → IsOrderly (on_show_command env argv)
unfolding on_show_command on_show_router_command
on_show_command-IsOrderly env argv = Ensures-if _ _ _ (show_chosen-IsOrderly _) (
    Ensures-if (has_word argv 1 (codes "stats")) _ _ (respond-IsOrderly (stats env.counters))
      (respond-IsOrderly show_usage))

on_save_command-IsOrderly :
    (env : Environment) (argv : List (List ℕ)) → IsOrderly (on_save_command env argv)
unfolding on_save_command
on_save_command-IsOrderly env argv = respond-IsOrderly _

going_on-IsOrderly : (m : T (Unit {0})) → IsOrderly m → IsOrderly (going_on m)
going_on-IsOrderly m h = Ensures-bind m _ h λ _ _. Ensures-pure true tt

on_command-IsOrderly : (env : Environment) (argv : List (List ℕ)) → IsOrderly (on_command env argv)
unfolding on_command
on_command-IsOrderly env argv = Ensures-bind (word argv 0) _ (word-IsOrderly argv 0) λ name _.
    Ensures-if (text_eq name (codes "add")) _ _
      (going_on-IsOrderly _ (on_add_command-IsOrderly env argv))
      (Ensures-if (text_eq name (codes "remove")) _ _
        (going_on-IsOrderly _ (on_remove_command-IsOrderly env argv))
        (Ensures-if (text_eq name (codes "set")) _ _
          (going_on-IsOrderly _ (on_set_command-IsOrderly env argv))
          (Ensures-if (text_eq name (codes "enable")) _ _
            (going_on-IsOrderly _ (on_enable_command-IsOrderly env argv))
            (Ensures-if (text_eq name (codes "disable")) _ _
              (going_on-IsOrderly _ (on_disable_command-IsOrderly env argv))
              (Ensures-if (text_eq name (codes "show")) _ _
                (going_on-IsOrderly _ (on_show_command-IsOrderly env argv))
                (Ensures-if (text_eq name (codes "exit")) _ _ (Ensures-pure false tt) (
                  Ensures-if (text_eq name (codes "help")) _ _
                    (going_on-IsOrderly _ (respond-IsOrderly help))
                    (Ensures-if (text_eq name (codes "save")) _ _
                      (going_on-IsOrderly _ (on_save_command-IsOrderly env argv))
                      (going_on-IsOrderly _ (respond-IsOrderly invalid_command))))))))))

handle_command-IsOrderly : (env : Environment) (text : List ℕ) → IsOrderly (handle_command env text)
unfolding handle_command
handle_command-IsOrderly env text =
    Ensures-if (is_empty (split_command text)) _ _ (Ensures-pure true tt)
      (on_command-IsOrderly env (split_command text))

-- The events have numbers in the range of their types.
abbrev pub IsPossible : Input → Type 0
IsPossible (line env text) = Unit
IsPossible (happens i v f e) = IsFeasible e

abbrev pub ArePossible : List Input → Type 0
ArePossible [] = Unit
ArePossible (x ∷ xs) = IsPossible x × ArePossible xs

use_found-IsOrderly :
    (e : Event) (i v f : ℕ) (m : VrrpServiceMap)
    → IsFeasible e
    → AreSound m
    → IsOrderly (use_if_any (invoke e) (find_service i v f m))
use_found-IsOrderly e i v f m h all = elim (Option-cases (find_service i v f m)) [
  | inl none_found ↦ rw none_found skip-IsOrderly
  | inr (s, found) ↦ rw found (invoke-IsOrderly e s h (all i v f s found))
]

turn-IsOrderly : (x : Input) → IsPossible x → IsOrderly (turn x)
unfolding turn
turn-IsOrderly (line env text) h = handle_command-IsOrderly env text
turn-IsOrderly (happens i v f e) h =
    Ensures-bind get_services _ get_services-Ensures λ services all.
      Ensures-bind (use_if_any (invoke e) (find_service i v f services)) _
        (use_found-IsOrderly e i v f services h all) λ _ _. Ensures-pure true tt

unless_ended-IsOrderly : (m : T Bool) (b : Bool) → IsOrderly m → IsOrderly (unless_ended m b)
unless_ended-IsOrderly m true h = h
unless_ended-IsOrderly m false h = Ensures-pure false tt

pub run-IsOrderly : (xs : List Input) → ArePossible xs → IsOrderly (run xs)
unfolding run
run-IsOrderly [] h = Ensures-pure true tt
run-IsOrderly (x ∷ xs) h =
    Ensures-bind (turn x) _ (turn-IsOrderly x h.0)
      λ b _. unless_ended-IsOrderly (run xs) b (run-IsOrderly xs h.1)

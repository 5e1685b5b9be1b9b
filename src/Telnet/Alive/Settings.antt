-- ===== src/Telnet/Alive/Settings.antt =====
-- The settings keep every service in order.
use Prim.{tt}
use Prim.Native.String.{String}
use open_vrrp.Prelude.{
  word_of_byte, ℕ, ◌+◌, ◌==◌, ◌≤◌, ltb, ◌||◌, not, if◌then◌else◌, Bool, true, false, List, ◌≡◌,
  refl, length, pos, less_int, word_of, drop, tenth, is_tens, eq_int,
}
use open_vrrp.Address.{inet6, number}
use open_vrrp.Address.Parse.{parse_address}
use open_vrrp.Service.{Service}
use open_vrrp.Service.Run.{
  Event, enabling, disabling, primary, prioritise, advertise_every, preempt, accept, on_master,
  on_backup,
}
use open_vrrp.Service.Run.Liveness.{IsFeasible}
use open_vrrp.Text.{codes, atoi}
use open_vrrp.Telnet.{
  Response, invalid_ip, invalid_priority, invalid_interval, set_usage, set_primary_usage,
  set_priority_usage, set_interval_usage, enable_usage, disable_usage, set_accept_usage,
  set_preempt_usage, set_master_command_usage, set_backup_command_usage, Environment, T, respond,
  word, invoke,
}
use open_vrrp.Telnet.Lookup.{has_word}
use open_vrrp.Telnet.Settings.{
  argument, set_command, set_primary, set_priority_text, set_interval, set_flag, set_router, join,
  on_set_router_command, on_set_command, on_enable_command, on_disable_command,
}
use open_vrrp.Manager.Sound.{IsSound}
use open_vrrp.Telnet.Alive.Rules.{
  Ensures-bind, Ensures-if, IsOrderly, respond-IsOrderly, word-IsOrderly, invoke-IsOrderly,
}
use open_vrrp.Telnet.Alive.Handlers.{with_service-IsOrderly}

module _ (s : Service) (sound : IsSound s) where
  argument-IsOrderly :
      (argv : List (List ℕ)) (offset : ℕ) (usage : Response) (f : List ℕ → T (Unit {0}))
      → ((text : List ℕ) → IsOrderly (f text))
      → IsOrderly (argument argv offset usage f)
  argument-IsOrderly argv offset usage f h =
      Ensures-if (ltb (offset + 1) (length argv)) _ _
        (Ensures-bind (word argv (offset + 1)) f (word-IsOrderly argv (offset + 1))
          λ text _. h text)
        (respond-IsOrderly usage)

  set_primary-IsOrderly : (env : Environment) (text : List ℕ) → IsOrderly (set_primary env s text)
  unfolding set_primary
  set_primary-IsOrderly env text =
      let address = parse_address env.inet_pton text in
      Ensures-if (not (number address.family == number s.family)) _ _ (respond-IsOrderly invalid_ip)
        (invoke-IsOrderly (primary address) s tt sound)

  prioritise-IsOrderly :
      (b : Bool) (p : ℕ)
      → (b ≡ false → p ≤ 255)
      → IsOrderly (if b then respond invalid_priority else invoke (prioritise p) s)
  prioritise-IsOrderly true p h = respond-IsOrderly invalid_priority
  prioritise-IsOrderly false p h = invoke-IsOrderly (prioritise p) s (h refl) sound

  set_priority_text-IsOrderly : (text : List ℕ) → IsOrderly (set_priority_text s text)
  unfolding set_priority_text
  set_priority_text-IsOrderly text =
      prioritise-IsOrderly (less_int (atoi text) (pos 1) || less_int (pos 255) (atoi text))
        (word_of (atoi text)) (word_of_byte (atoi text))

  set_interval-IsOrderly : (text : List ℕ) → IsOrderly (set_interval s text)
  unfolding set_interval
  set_interval-IsOrderly text =
      let n = atoi text in
      Ensures-if (eq_int n (pos 0) || not (is_tens n) || less_int (pos 40950) n) _ _
        (respond-IsOrderly invalid_interval)
        (invoke-IsOrderly (advertise_every (word_of (tenth n))) s tt sound)

  set_flag-IsOrderly :
      (usage : Response) (event : Bool → Event) (text : List ℕ)
      → ((on : Bool) → IsFeasible (event on))
      → IsOrderly (set_flag usage event s text)
  unfolding set_flag
  set_flag-IsOrderly usage event text h =
      Ensures-if _ (invoke (event true) s) _ (invoke-IsOrderly (event true) s (h true) sound) (
        Ensures-if _ (invoke (event false) s) _ (invoke-IsOrderly (event false) s (h false) sound)
          (respond-IsOrderly usage))

  set_command-IsOrderly :
      (argv : List (List ℕ)) (offset : ℕ) (usage : Response) (event : List ℕ → Event)
      → ((command : List ℕ) → IsFeasible (event command))
      → IsOrderly (set_command argv offset usage event s)
  set_command-IsOrderly argv offset usage event h =
      let command : List ℕ = join (drop (offset + 2) argv) in
      Ensures-if (has_word argv (offset + 1) (codes "command")) (invoke (event command) s) _
        (invoke-IsOrderly (event command) s (h command) sound) (respond-IsOrderly usage)

  set_router-IsOrderly :
      (env : Environment) (argv : List (List ℕ)) (offset : ℕ)
      → IsOrderly (set_router env argv offset s)
  unfolding set_router
  set_router-IsOrderly env argv offset =
      let is = λ (text : String). has_word argv offset (codes text) in
      Ensures-if (not (ltb offset (length argv))) _ _ (respond-IsOrderly set_usage) (
        Ensures-if (is "primary") _ _
          (argument-IsOrderly argv offset set_primary_usage (set_primary env s)
            (set_primary-IsOrderly env))
          (Ensures-if (is "priority") _ _
            (argument-IsOrderly argv offset set_priority_usage (set_priority_text s)
              set_priority_text-IsOrderly)
            (Ensures-if (is "interval") _ _
              (argument-IsOrderly argv offset set_interval_usage (set_interval s)
                set_interval-IsOrderly)
              (Ensures-if (is "accept") _ _
                (argument-IsOrderly argv offset set_accept_usage
                  (set_flag set_accept_usage accept s)
                  (λ t. set_flag-IsOrderly set_accept_usage accept t (λ on. tt)))
                (Ensures-if (is "preempt") _ _
                  (argument-IsOrderly argv offset set_preempt_usage
                    (set_flag set_preempt_usage preempt s)
                    (λ t. set_flag-IsOrderly set_preempt_usage preempt t (λ on. tt)))
                  (Ensures-if (is "master") _ _
                    (set_command-IsOrderly argv offset set_master_command_usage on_master (λ c. tt))
                    (Ensures-if (is "backup") _ _
                      (set_command-IsOrderly argv offset set_backup_command_usage on_backup
                        (λ c. tt))
                      (respond-IsOrderly set_usage))))))))

pub on_set_command-IsOrderly :
    (env : Environment) (argv : List (List ℕ)) → IsOrderly (on_set_command env argv)
unfolding on_set_command on_set_router_command
on_set_command-IsOrderly env argv =
    Ensures-if (has_word argv 1 (codes "router")) _ _
      (with_service-IsOrderly env argv _ λ s sound.
        set_router-IsOrderly s sound env argv (if number s.family == number inet6 then 5 else 4))
      (respond-IsOrderly set_usage)

pub on_enable_command-IsOrderly :
    (env : Environment) (argv : List (List ℕ)) → IsOrderly (on_enable_command env argv)
unfolding on_enable_command
on_enable_command-IsOrderly env argv =
    Ensures-if (ltb (length argv) 4) _ _ (respond-IsOrderly enable_usage) (
      with_service-IsOrderly env argv (λ s. invoke (enabling (env.is_interface_up s.interface)) s)
        λ s sound. invoke-IsOrderly (enabling (env.is_interface_up s.interface)) s tt sound)

pub on_disable_command-IsOrderly :
    (env : Environment) (argv : List (List ℕ)) → IsOrderly (on_disable_command env argv)
unfolding on_disable_command
on_disable_command-IsOrderly env argv =
    Ensures-if (ltb (length argv) 4) _ _ (respond-IsOrderly disable_usage) (
      with_service-IsOrderly env argv (invoke disabling)
        λ s sound. invoke-IsOrderly disabling s tt sound)

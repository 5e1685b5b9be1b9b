-- ===== src/Telnet/Settings.antt =====
-- The commands that set a router's values, enable it and disable it.
use open_vrrp.Prelude.{
  ℕ, ◌+◌, ◌==◌, ltb, ◌||◌, not, if◌then◌else◌, Bool, true, false, List, [], ◌∷◌, ◌++◌, length, drop,
  any, pos, less_int, eq_int, is_tens, tenth, word_of,
}
use open_vrrp.Address.{inet6, number}
use open_vrrp.Address.Parse.{parse_address}
use open_vrrp.Service.{Service}
use open_vrrp.Service.Run.{
  Event, enabling, disabling, primary, prioritise, advertise_every, preempt, accept, on_master,
  on_backup,
}
use open_vrrp.Text.{codes, text_eq, atoi}
use open_vrrp.Telnet.{
  Response, invalid_ip, invalid_priority, invalid_interval, set_usage, set_primary_usage,
  set_priority_usage, set_interval_usage, set_accept_usage, set_preempt_usage,
  set_master_command_usage, set_backup_command_usage, enable_usage, disable_usage, Environment, T,
  ◌>>=◌, respond, word, invoke,
}
use open_vrrp.Telnet.Lookup.{has_word, with_service}

abbrev pub true_values : List (List ℕ)
true_values = codes "true" ∷ codes "on" ∷ codes "1" ∷ codes "enabled" ∷ []

abbrev pub false_values : List (List ℕ)
false_values = codes "false" ∷ codes "off" ∷ codes "0" ∷ codes "disabled" ∷ []

-- A setting with one argument behind its name at `offset`.
abbrev pub argument : List (List ℕ) → ℕ → Response → (List ℕ → T (Unit {0})) → T (Unit {0})
argument argv offset usage f =
    if ltb (offset + 1) (length argv)
    then (do text ← word argv (offset + 1); f text)
    else respond usage

unfoldable pub set_primary : Environment → Service → List ℕ → T (Unit {0})
set_primary env service text =
    let address = parse_address env.inet_pton text in
    if not (number address.family == number service.family)
    then respond invalid_ip
    else invoke (primary address) service

unfoldable pub set_priority_text : Service → List ℕ → T (Unit {0})
set_priority_text service text =
    let prio = atoi text in
    if less_int prio (pos 1) || less_int (pos 255) prio
    then respond invalid_priority
    else invoke (prioritise (word_of prio)) service

unfoldable pub set_interval : Service → List ℕ → T (Unit {0})
set_interval service text =
    let interval = atoi text in
    if eq_int interval (pos 0) || not (is_tens interval) || less_int (pos 40950) interval
    then respond invalid_interval
    else invoke (advertise_every (word_of (tenth interval))) service

-- The two loops over the texts of a truth value.
unfoldable pub set_flag : Response → (Bool → Event) → Service → List ℕ → T (Unit {0})
set_flag usage event service text =
    if any (text_eq text) true_values
    then invoke (event true) service
    else if any (text_eq text) false_values
    then invoke (event false) service
    else respond usage

-- The words joined by spaces.
unfoldable pub join : List (List ℕ) → List ℕ
join [] = []
join (w ∷ []) = w
join (w ∷ v ∷ ws) = w ++ b' ' ∷ join (v ∷ ws)

abbrev pub set_command : List (List ℕ) → ℕ → Response → (List ℕ → Event) → Service → T (Unit {0})
set_command argv offset usage event service =
    if has_word argv (offset + 1) (codes "command")
    then invoke (event (join (drop (offset + 2) argv))) service
    else respond usage

-- The settings, by the word at `offset`.
unfoldable pub set_router : Environment → List (List ℕ) → ℕ → Service → T (Unit {0})
set_router env argv offset service =
    if not (ltb offset (length argv))
    then respond set_usage
    else if has_word argv offset (codes "primary")
    then argument argv offset set_primary_usage (set_primary env service)
    else if has_word argv offset (codes "priority")
    then argument argv offset set_priority_usage (set_priority_text service)
    else if has_word argv offset (codes "interval")
    then argument argv offset set_interval_usage (set_interval service)
    else if has_word argv offset (codes "accept")
    then argument argv offset set_accept_usage (set_flag set_accept_usage accept service)
    else if has_word argv offset (codes "preempt")
    then argument argv offset set_preempt_usage (set_flag set_preempt_usage preempt service)
    else if has_word argv offset (codes "master")
    then set_command argv offset set_master_command_usage on_master service
    else if has_word argv offset (codes "backup")
    then set_command argv offset set_backup_command_usage on_backup service
    else respond set_usage

unfoldable pub on_set_router_command : Environment → List (List ℕ) → T (Unit {0})
on_set_router_command env argv =
    with_service env argv λ service.
      set_router env argv (if number service.family == number inet6 then 5 else 4) service

unfoldable pub on_set_command : Environment → List (List ℕ) → T (Unit {0})
on_set_command env argv =
    if has_word argv 1 (codes "router") then on_set_router_command env argv else respond set_usage

unfoldable pub on_enable_command : Environment → List (List ℕ) → T (Unit {0})
on_enable_command env argv =
    if ltb (length argv) 4
    then respond enable_usage
    else with_service env argv
        λ service. invoke (enabling (env.is_interface_up service.interface)) service

unfoldable pub on_disable_command : Environment → List (List ℕ) → T (Unit {0})
on_disable_command env argv =
    if ltb (length argv) 4 then respond disable_usage else with_service env argv (invoke disabling)

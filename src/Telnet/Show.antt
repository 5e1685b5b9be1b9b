-- ===== src/Telnet/Show.antt =====
-- The commands that show routers and statistics, and the one that saves the configuration.
use open_vrrp.Prelude.{
  ℕ, ◌==◌, ltb, ◌&&◌, if◌then◌else◌, Bool, true, false, List, [], ◌∷◌, ◌++◌, map, drop, get_elem?,
  ℤ, pos, negsuc, less_int, eq_int, word_of,
}
use open_vrrp.Containers.{map_find}
use open_vrrp.Containers.Nested.{inner}
use open_vrrp.Service.{Service}
use open_vrrp.Text.{codes, text_eq, is_digit, atoi}
use open_vrrp.Manager.{VrrpServiceMap}
use open_vrrp.Telnet.{
  Response, no_such_interface, invalid_router_id, router, router_stats, stats, show_usage,
  save_succeeded, save_failed, Environment, T, ◌>>=◌, ◌>>◌, skip, respond, get_services,
}
use open_vrrp.Telnet.Lookup.{has_word, is_bad_id}

-- The variables of onShowRouterCommand. Its variable `family` keeps the value AF_INET, so the branch
-- for AF_UNSPEC and the word `ipv6` is never taken.
pub record Choice : Type 0 where
  pub interface : ℤ
  pub vrid : ℤ
  pub stats : Bool

abbrev zero_if_unset : ℤ → ℤ
zero_if_unset z = if eq_int z (negsuc 0) then pos 0 else z

abbrev starts_with_digit : List ℕ → Bool
starts_with_digit [] = false
starts_with_digit (c ∷ cs) = is_digit c

pub data Chosen : Type 0 where
  chosen : Choice → Chosen
  refused : Response → Chosen

-- The loop over the arguments.
unfoldable pub choose : Environment → List (List ℕ) → Choice → Chosen
choose env [] c = chosen c
choose env (w ∷ ws) c =
    let id = atoi w in
    let interface = env.if_nametoindex w in
    let by_id = choose env ws (record c { interface = zero_if_unset c.interface; vrid = id }) in
    let by_name = choose env ws (record c { interface = pos interface }) in
    let rest = choose env ws c in
    if text_eq w (codes "stats")
    then chosen (record c { stats = true })
    else if eq_int c.vrid (negsuc 0) && starts_with_digit w
    then (if is_bad_id id then refused invalid_router_id else by_id)
    else if eq_int c.interface (negsuc 0)
    then (if interface == 0 then refused no_such_interface else by_name)
    else rest

abbrev services_of : List (ℕ × Service) → List Service
services_of = map (λ f. f.1)

unfoldable pub routers_at : ℕ → List (ℕ × List (ℕ × Service)) → List Service
routers_at vrid [] = []
routers_at vrid ((v, families) ∷ rest) = services_of families ++ routers_at vrid rest

-- The services of an interface, or those with one router id if it is not 0.
abbrev at_interface : ℕ → List (ℕ × List (ℕ × Service)) → List Service
at_interface vrid routers =
    if vrid == 0 then routers_at vrid routers else services_of (inner (map_find ltb vrid routers))

unfoldable pub everywhere : ℕ → VrrpServiceMap → List Service
unfolding routers_at
everywhere vrid [] = []
everywhere vrid ((i, routers) ∷ rest) = at_interface vrid routers ++ everywhere vrid rest

-- The services shown, in their order.
unfoldable pub shown : Choice → VrrpServiceMap → List Service
unfolding everywhere
shown c services =
    let vrid = word_of (zero_if_unset c.vrid) in
    if less_int (pos 0) (zero_if_unset c.interface)
    then at_interface vrid (inner (map_find ltb (word_of (zero_if_unset c.interface)) services))
    else everywhere vrid services

unfoldable pub respond_all : Bool → List Service → T (Unit {0})
respond_all with_stats [] = skip
respond_all with_stats (s ∷ rest) = do
  respond (if with_stats then router_stats s else router s)
  respond_all with_stats rest

-- The answer to the words chosen.
abbrev pub show_chosen : Chosen → T (Unit {0})
show_chosen (refused response) = respond response
show_chosen (chosen c) = do services ← get_services; respond_all c.stats (shown c services)

unfoldable pub on_show_router_command : Environment → List (List ℕ) → T (Unit {0})
on_show_router_command env argv =
    show_chosen
      (choose env (drop 2 argv) (record { interface = negsuc 0; vrid = negsuc 0; stats = false }))

unfoldable pub on_show_command : Environment → List (List ℕ) → T (Unit {0})
on_show_command env argv =
    if has_word argv 1 (codes "router")
    then on_show_router_command env argv
    else if has_word argv 1 (codes "stats")
    then respond (stats env.counters)
    else respond show_usage

unfoldable pub on_save_command : Environment → List (List ℕ) → T (Unit {0})
on_save_command env argv =
    respond (if env.is_written (get_elem? argv 1) then save_succeeded else save_failed)

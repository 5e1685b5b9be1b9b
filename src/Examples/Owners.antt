-- ===== src/Examples/Owners.antt =====
-- A master and its addresses on the host.
use Prim.{tt}
use open_vrrp.Prelude.{true, List, [], ◌∷◌, ◌≡◌, refl, arith, inl, inr}
use open_vrrp.Address.{inet}
use open_vrrp.Service.{disabled, backup, Service}
use open_vrrp.Service.Actions.{
  run_backup_command, set_default_mac, run_master_command, send_advertisement, add_ip_addresses,
  set_virtual_mac, send_arps,
}
use open_vrrp.Service.Timing.{start_advertisement_timer}
use open_vrrp.Service.Transitions.{enable, disable, set_state, master_down_timer_expires}
use open_vrrp.Service.Config.{set_priority, set_accept_mode, add_ip_address, remove_ip_address}
use open_vrrp.Service.Lifecycle.{construct}
use open_vrrp.Service.Run.{Event, enabling, master_down, add, run}
use open_vrrp.Ledger.{Ledger, replay, blank, Holds}
use open_vrrp.Ledger.Transitions.{set_state-Holds}
use open_vrrp.Ledger.Setters.{
  set_priority-Holds, set_accept_mode-Holds, add_ip_address-Holds, remove_ip_address-Holds,
}
use open_vrrp.Ledger.Runs.{IsCarefulRun, run-construct-Holds}
use open_vrrp.Ledger.Leaks.{added_address_leaks}
use open_vrrp.Examples.{address, subnet, host, macvlan_host}

abbrev newborn : Service
newborn = (construct (host 2) 3 inet 7 0).service

abbrev rise : List Event
rise = add (subnet 100) ∷ add (subnet 101) ∷ enabling true ∷ master_down ∷ []

rise-IsCarefulRun : IsCarefulRun rise newborn
unfolding construct run add_ip_address
rise-IsCarefulRun = (inl refl, (inl refl, (tt, (tt, tt))))

abbrev risen : Service
risen = (run rise newborn).service

abbrev ledger : Ledger
ledger = replay (run rise newborn).calls blank

risen-Holds : Holds risen ledger
risen-Holds = run-construct-Holds (host 2) 3 inet 7 0 rise rise-IsCarefulRun

set_state-Holds_example :
    Holds (set_state backup risen).service (replay (set_state backup risen).calls ledger)
set_state-Holds_example = set_state-Holds backup risen ledger risen-Holds

set_priority-Holds_example :
    Holds (set_priority 255 risen).service (replay (set_priority 255 risen).calls ledger)
set_priority-Holds_example = set_priority-Holds 255 risen ledger risen-Holds

set_accept_mode-Holds_example :
    Holds (set_accept_mode true risen).service (replay (set_accept_mode true risen).calls ledger)
set_accept_mode-Holds_example = set_accept_mode-Holds true risen ledger risen-Holds (inr refl)

add_ip_address-Holds_example :
    Holds
      (add_ip_address (subnet 102) risen).service
      (replay (add_ip_address (subnet 102) risen).calls ledger)
unfolding construct run add_ip_address enable set_state master_down_timer_expires run_backup_command
    set_default_mac start_advertisement_timer send_arps run_master_command send_advertisement
    add_ip_addresses set_virtual_mac
add_ip_address-Holds_example =
    add_ip_address-Holds (subnet 102) risen ledger risen-Holds (inr (inr refl))

-- The owner of the addresses gives one up.
abbrev owner : Service
owner = (set_priority 255 risen).service

remove_ip_address-Holds_example :
    let l = replay (set_priority 255 risen).calls ledger in
    Holds
      (remove_ip_address (subnet 100) owner).service
      (replay (remove_ip_address (subnet 100) owner).calls l)
unfolding construct run add_ip_address enable set_state master_down_timer_expires set_priority
    run_backup_command set_default_mac start_advertisement_timer send_arps run_master_command
    send_advertisement add_ip_addresses set_virtual_mac
remove_ip_address-Holds_example =
    remove_ip_address-Holds (subnet 100) owner (replay (set_priority 255 risen).calls ledger)
      set_priority-Holds_example (inr refl)

-- The same life over a MACVLAN interface.
abbrev virtual : Service
virtual = (run rise (construct (macvlan_host 2) 3 inet 7 0).service).service

added_address_leaks_example :
    let added = add_ip_address (subnet 102) virtual in
    let l' = replay added.calls ledger in
    let stopped = disable added.service in
    (stopped.service.state ≡ disabled)
    × ((replay stopped.calls l').answered virtual.output_interface (address 102) ≡ true)
unfolding construct run add_ip_address enable set_state master_down_timer_expires run_backup_command
    set_default_mac start_advertisement_timer send_arps run_master_command send_advertisement
    add_ip_addresses set_virtual_mac
added_address_leaks_example =
    added_address_leaks (subnet 102) virtual ledger refl refl (ground arith) refl

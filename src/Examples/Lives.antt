-- ===== src/Examples/Lives.antt =====
-- Runs of services.
use Prim.{tt}
use open_vrrp.Prelude.{true, false, List, [], ◌∷◌, ◌≡◌, refl, arith, inl, inr}
use open_vrrp.Address.{inet}
use open_vrrp.Service.{backup, Service}
use open_vrrp.Service.Actions.{
  run_backup_command, set_default_mac, send_arps, run_master_command, send_advertisement,
  add_ip_addresses, set_virtual_mac, remove_ip_addresses,
}
use open_vrrp.Service.Advertisements.{on_incoming_vrrp_packet, outranks}
use open_vrrp.Service.Config.{set_priority, remove_ip_address, add_ip_address}
use open_vrrp.Service.Transitions.{enable, master_down_timer_expires, set_state}
use open_vrrp.Service.Transitions.Timers.{TimersMatch}
use open_vrrp.Service.Lifecycle.{construct}
use open_vrrp.Service.Run.{
  Event, enabling, link, master_down, packet, prioritise, add, remove, step, run,
}
use open_vrrp.Service.Run.Timers.{run-construct-TimersMatch}
use open_vrrp.Service.Run.Liveness.{IsAlive, run-construct-IsAlive}
use open_vrrp.Service.Run.Graph.{IsEdge, step-IsEdge}
use open_vrrp.Ledger.{replay, blank, Holds}
use open_vrrp.Ledger.Runs.{IsCarefulRun, run-construct-Holds}
use open_vrrp.Examples.{subnet, host, advertisement}

-- A backup that takes over, becomes the owner of its addresses, gives one up, and yields.
abbrev life : List Event
life =
    add (subnet 100)
    ∷ add (subnet 101)
    ∷ enabling true
    ∷ master_down
    ∷ prioritise 255
    ∷ remove (subnet 101)
    ∷ prioritise 120
    ∷ packet (advertisement 9 200 100)
    ∷ []

abbrev newborn : Service
newborn = (construct (host 2) 3 inet 7 0).service

life-state : (run life newborn).service.state ≡ backup
unfolding run construct on_incoming_vrrp_packet set_priority remove_ip_address
    master_down_timer_expires enable add_ip_address set_state run_backup_command set_default_mac
    send_arps run_master_command send_advertisement add_ip_addresses set_virtual_mac outranks
    remove_ip_addresses
life-state = refl

life-IsCarefulRun : IsCarefulRun life newborn
unfolding run construct on_incoming_vrrp_packet set_priority remove_ip_address
    master_down_timer_expires enable add_ip_address set_state run_backup_command set_default_mac
    send_arps run_master_command send_advertisement add_ip_addresses set_virtual_mac outranks
    remove_ip_addresses
life-IsCarefulRun = (inl refl, (inl refl, (tt, (tt, (tt, (inr refl, (tt, (tt, tt))))))))

run-construct-Holds_example :
    let after = run life newborn in Holds after.service (replay after.calls blank)
run-construct-Holds_example = run-construct-Holds (host 2) 3 inet 7 0 life life-IsCarefulRun

run-construct-TimersMatch_example : TimersMatch (run life newborn).service
run-construct-TimersMatch_example = run-construct-TimersMatch (host 2) 3 inet 7 0 life

run-construct-IsAlive_example : IsAlive (run life newborn).service
run-construct-IsAlive_example =
    run-construct-IsAlive (host 2) 3 inet 7 0 life
      (tt, (tt, (tt, (tt, (omega arith, (tt, (omega arith, (omega arith, tt))))))))

-- The link of the life's router goes away.
step-IsEdge_example :
    IsEdge
      (link false)
      (run life newborn).service.state
      (step (link false) (run life newborn).service).service.state
step-IsEdge_example = step-IsEdge (link false) (run life newborn).service

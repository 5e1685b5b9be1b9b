-- ===== src/Ledger/Leaks.antt =====
-- The runs that leave addresses behind.
use open_vrrp.Prelude.{
  ℕ, ◌==◌, ==_iff, true, false, [], ◌∷◌, ◌≡◌, ◌≢◌, refl, append-nil, arith, ap, ◌∙◌,
}
use open_vrrp.Timer.{stop}
use open_vrrp.Address.{number, IpAddress, IpSubnet, less, subnet_less}
use open_vrrp.Address.Order.{less-IsStrictOrder}
use open_vrrp.Containers.Laws.{equivalent_refl}
use open_vrrp.Service.{Service, add_fake_arp, State, disabled, link_down, backup, master, is_state}
use open_vrrp.Service.Actions.{on_interface, remove_ip_addresses, send_advertisement}
use open_vrrp.Service.Transitions.Members.{shutdown-service}
use open_vrrp.Containers.{set_insert}
use open_vrrp.Service.Transitions.{disable, shutdown, shutdown_from}
use open_vrrp.Service.Config.{add_ip_address}
use open_vrrp.Ledger.{Ledger, replay}
use open_vrrp.Ledger.Replay.{answered-unfake_all}
use open_vrrp.Ledger.Transitions.{set_state-replay, enter_other-replay}

shutdown_master-replay :
    (old : State) (s : Service) (l : Ledger)
    → s.state ≡ master
    → old ≡ master
    → replay (shutdown_from old disabled s).calls l ≡ replay (remove_ip_addresses s).calls l
unfolding send_advertisement remove_ip_addresses
shutdown_master-replay master s l e o =
    let t : Service = record s { advertisement_timer = stop s.advertisement_timer } in
    let away : is_state s.state disabled ≡ false = ground arith in
    let was : is_state s.state master ≡ true = ground arith in
    rw append-nil (
      set_state-replay disabled t l
      ∙ rw away (
          enter_other-replay disabled s.state (record t { state = disabled }) l refl ∙ rw was refl))
shutdown_master-replay disabled s l e o = cc
shutdown_master-replay link_down s l e o = cc
shutdown_master-replay backup s l e o = cc

-- Disabling a master undoes what removeIpAddresses undoes, and no more.
pub disable_master-replay :
    (s : Service) (l : Ledger)
    → s.state ≡ master
    → replay (disable s).calls l ≡ replay (remove_ip_addresses s).calls l
unfolding disable shutdown
disable_master-replay s l e =
    let away : is_state s.state disabled ≡ false = ground arith in
    rw away (shutdown_master-replay s.state s l e e)

disable_master-state : (s : Service) → s.state ≡ master → (disable s).service.state ≡ disabled
unfolding disable
disable_master-state s e =
    let away : is_state s.state disabled ≡ false = ground arith in
    rw away (ground (arith, shutdown-service disabled s))

-- What a service that answers by the ARP service of another interface keeps when it is disabled.
disable_arp-answered :
    (s : Service) (l : Ledger) (j : ℕ) (b : IpAddress)
    → s.state ≡ master
    → on_interface s ≡ false
    → j ≢ s.interface
    → (replay (disable s).calls l).answered j b ≡ l.answered j b
unfolding remove_ip_addresses
disable_arp-answered s l j b e off differ =
    rw (disable_master-replay s l e, off)
      (ground (arith, answered-unfake_all s.interface s.subnets l j b))

added : IpSubnet → Service → Service
added x s = record s {
  subnets = set_insert subnet_less x s.subnets;
  addresses = set_insert less x.address s.addresses;
}

add_ip_address_arp :
    (x : IpSubnet) (s : Service)
    → s.state ≡ master
    → on_interface s ≡ false
    → x.address.family ≡ s.family
    → add_ip_address x s ≡ record {
      result = true;
      service = added x s;
      calls = add_fake_arp s.output_interface x.address s.mac ∷ [];
    }
unfolding add_ip_address added
add_ip_address_arp x s e off fits =
    let same_family : (number x.address.family == number s.family) ≡ true =
      (==_iff _ _).1 (ap number fits) in
    let here : is_state s.state master ≡ true = ground arith in rw (same_family, here, off) refl

-- A master that leaves its addresses to the ARP service, with another output interface than its
-- own, gets a subnet of its family: after it is then disabled, ARP requests for the subnet's
-- address are still answered on the output interface.
pub added_address_leaks :
    (x : IpSubnet) (s : Service) (l : Ledger)
    → s.state ≡ master
    → on_interface s ≡ false
    → s.output_interface ≢ s.interface
    → x.address.family ≡ s.family
    → let added = add_ip_address x s in
      let l' = replay added.calls l in
      let stopped = disable added.service in
      (stopped.service.state ≡ disabled)
      × ((replay stopped.calls l').answered s.output_interface x.address ≡ true)
unfolding added
added_address_leaks x s l e off differ fits = rw (add_ip_address_arp x s e off fits) (
  disable_master-state (added x s) e,
  rw (disable_arp-answered (added x s) _ s.output_interface x.address e off differ)
      (ground (arith, equivalent_refl less less-IsStrictOrder x.address)),
)

-- ===== src/Service/Run/Settings.antt =====
-- What a user has set: only the setters change it.
use open_vrrp.Prelude.{
  ◌≡◌, refl, ℕ, ◌==◌, ltb, ◌||◌, not, if◌then◌else◌, Bool, true, false, List, [], ◌∷◌, ap, ◌∙◌,
  arith,
}
use open_vrrp.Address.{Family, inet6, number, IpAddress, IpSubnet, subnet_less}
use open_vrrp.Containers.{set_insert, set_erase}
use open_vrrp.Timer.{stop}
use open_vrrp.Service.{Service, State, disabled, link_down, backup, master}
use open_vrrp.Service.Timing.{start_master_down_timer, start_advertisement_timer}
use open_vrrp.Service.Actions.{send_advertisement}
use open_vrrp.Service.Transitions.{
  startup, shutdown, on_advertisement_timer, master_down_timer_expires, advertisement_timer_expires,
  interface_callback, enable, disable,
}
use open_vrrp.Service.Transitions.Members.{
  startup-service, shutdown-service, set_state-service, on_master_down_timer-service,
}
use open_vrrp.Service.Advertisements.{
  Advertisement, start_skew_timer, follow_master, packet_in_backup, packet_in_master, packet_in,
  on_incoming_vrrp_error,
}
use open_vrrp.Service.Advertisements.Members.{
  counted, on_incoming_vrrp_packet-service, yield_to-service,
}
use open_vrrp.Service.Config.{
  set_primary_ip_address, unset_primary_ip_address, set_priority, set_advertisement_interval,
  set_preempt_mode, set_accept_mode, set_master_command, set_backup_command, add_ip_address,
  remove_ip_address,
}
use open_vrrp.Service.Run.{
  Event, enabling, disabling, link, master_down, advertise_now, packet, primary, auto_primary,
  prioritise, advertise_every, preempt, accept, on_master, on_backup, add, remove, step, run,
}

-- What the constructor is given, and what the setters set.
pub record Settings : Type 0 where
  pub interface : ℕ
  pub virtual_router_id : ℕ
  pub vlan_id : ℕ
  pub family : Family
  pub primary_address : IpAddress
  pub automatic : Bool
  pub priority : ℕ
  pub interval : ℕ
  pub preempting : Bool
  pub accepting : Bool
  pub master_command : List ℕ
  pub backup_command : List ℕ
  pub subnets : List IpSubnet

abbrev pub settings_of : Service → Settings
settings_of s = record {
  interface = s.interface;
  virtual_router_id = s.virtual_router_id;
  vlan_id = s.vlan_id;
  family = s.family;
  primary_address = s.primary_ip_address;
  automatic = s.auto_primary_ip_address;
  priority = s.priority;
  interval = s.advertisement_interval;
  preempting = s.preempt_mode;
  accepting = s.accept_mode;
  master_command = s.master_command;
  backup_command = s.backup_command;
  subnets = s.subnets;
}

-- What an event makes of them. `unset_primary_ip_address` takes the host's address only where one was
-- set, and leaves it as if set.
abbrev pub changed : Event → Settings → Settings
changed (primary a) c =
    if number a.family == number c.family
    then record c { primary_address = a; automatic = false }
    else c
changed (auto_primary a) c =
    if c.automatic then c else record c { primary_address = a; automatic = false }
changed (prioritise p) c = if p == 0 then c else record c { priority = p }
changed (advertise_every n) c = if ltb n 1 || ltb 4095 n then c else record c { interval = n }
changed (preempt on) c = record c { preempting = on }
changed (accept on) c =
    if number c.family == number inet6 || not (c.vlan_id == 0)
    then c
    else record c { accepting = on }
changed (on_master command) c = record c { master_command = command }
changed (on_backup command) c = record c { backup_command = command }
changed (add x) c =
    if number x.address.family == number c.family
    then record c { subnets = set_insert subnet_less x c.subnets }
    else c
changed (remove x) c = record c { subnets = set_erase subnet_less x c.subnets }
changed _ c = c

startup-settings : (s : Service) → settings_of (startup s).service ≡ settings_of s
startup-settings s = ground (arith, startup-service s)

shutdown-settings : (t : State) (s : Service) → settings_of (shutdown t s).service ≡ settings_of s
shutdown-settings t s = ground (arith, shutdown-service t s)

packet_in-settings :
    (ad : Advertisement) (st : State) (s : Service)
    → settings_of (packet_in st ad s).service ≡ settings_of s
unfolding packet_in packet_in_backup packet_in_master follow_master start_skew_timer
    send_advertisement start_advertisement_timer start_master_down_timer
packet_in-settings ad backup s = ground arith
packet_in-settings ad master s = ground (arith, yield_to-service ad s)
packet_in-settings ad disabled s = refl
packet_in-settings ad link_down s = refl

master_down-settings :
    (s : Service) → settings_of (master_down_timer_expires s).service ≡ settings_of s
unfolding master_down_timer_expires
master_down-settings s = ground (
  arith,
  on_master_down_timer-service (record s { master_down_timer = stop s.master_down_timer }),
)

advertise-settings :
    (s : Service) → settings_of (advertisement_timer_expires s).service ≡ settings_of s
unfolding advertisement_timer_expires on_advertisement_timer send_advertisement
    start_advertisement_timer stop
advertise-settings s = ground arith

-- Every event changes the settings of a service as `changed` says.
pub step-settings :
    (e : Event) (s : Service) → settings_of (step e s).service ≡ changed e (settings_of s)
unfolding step set_primary_ip_address unset_primary_ip_address set_priority
    set_advertisement_interval set_preempt_mode set_accept_mode set_master_command
    set_backup_command add_ip_address remove_ip_address enable disable interface_callback
    on_incoming_vrrp_error
step-settings (enabling up) s = ground (arith, startup-settings s, set_state-service link_down s)
step-settings disabling s = ground (arith, shutdown-settings disabled s)
step-settings (link true) s = ground (arith, startup-settings s)
step-settings (link false) s = ground (arith, shutdown-settings link_down s)
step-settings master_down s = master_down-settings s
step-settings advertise_now s = advertise-settings s
step-settings (packet ad) s =
    ap settings_of (on_incoming_vrrp_packet-service ad s)
    ∙ packet_in-settings ad s.state (record s { stats = counted ad s })
step-settings _ s = ground arith

unfoldable pub changed_by : List Event → Settings → Settings
changed_by [] c = c
changed_by (e ∷ es) c = changed_by es (changed e c)

-- A run of events changes what a user has set, and what the constructor was given, as its setter
-- calls say one after the other: no packet, timer or change of the link touches it.
pub run-settings :
    (es : List Event) (s : Service) → settings_of (run es s).service ≡ changed_by es (settings_of s)
unfolding run changed_by
run-settings [] s = refl
run-settings (e ∷ es) s =
    run-settings es (step e s).service ∙ ap (changed_by es) (step-settings e s)

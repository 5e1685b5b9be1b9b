-- ===== src/Configurator/RoundTrip.antt =====
-- The configuration file, written and read.
use open_vrrp.Prelude.{
  ℕ, ◌*◌, ◌^◌, ◌<◌, ◌≤◌, ltb, if◌then◌else◌, Bool, true, false, List, [], ◌∷◌, ◌++◌, map, some,
  length, u32, ℤ, pos, int_of, ◌≡◌, refl, arith, append_assoc, append-nil, ap, All, ◌∙◌,
}
use open_vrrp.Address.{number, IpAddress, no_address, IsSized}
use open_vrrp.Service.{Service}
use open_vrrp.Service.Transitions.{enabled}
use open_vrrp.Configurator.{
  read_int, write_int, read_ip, write_ip, Router, has_primary, flags_of, read_if, read_router,
  write_router, read_routers, write_routers, read_file, write_configuration,
}
use open_vrrp.Configurator.Values.{
  read-write_int, read-write_word, read-write_boolean, read-write_string, read-write_ip,
  read-write_subnets, IsStorable, IsIncreasing,
}

-- A service whose configuration fits the file's fields: texts of at most 255 bytes, numbers in the
-- range of an int, addresses as long as their family says, and the subnets in the order of the set.
pub record IsSavable (name : List ℕ) (s : Service) : Type 0 where
  pub name_fits : length name ≤ 255
  pub master_command_fits : length s.master_command ≤ 255
  pub backup_command_fits : length s.backup_command ≤ 255
  pub vrid_fits : s.virtual_router_id < 2 ^ 31
  pub priority_fits : s.priority < 2 ^ 31
  pub interval_fits : s.advertisement_interval * 10 < 2 ^ 31
  pub vlan_fits : s.vlan_id < 2 ^ 31
  pub count_fits : length s.subnets < 2 ^ 31
  pub primary_sized : IsSized s.primary_ip_address
  pub subnets_stored : All IsStorable s.subnets
  pub subnets_increasing : IsIncreasing s.subnets

-- The configuration of a service, as the file has it.
abbrev pub router_of : List ℕ → Service → Router
router_of name s = record {
  interface = name;
  vrid = pos s.virtual_router_id;
  address_family = pos (number s.family);
  priority = pos s.priority;
  interval = pos (s.advertisement_interval * 10);
  accept = s.accept_mode;
  preempt = s.preempt_mode;
  enable = enabled s;
  flags = flags_of s;
  primary_ip = if has_primary (flags_of s) then s.primary_ip_address else no_address;
  master_command = s.master_command;
  backup_command = s.backup_command;
  vlan_id = pos s.vlan_id;
  subnets = s.subnets;
}

read-write_primary :
    (b : Bool) (a : IpAddress) (rest : List ℕ)
    → IsSized a
    → read_if b read_ip no_address ((if b then write_ip a else []) ++ rest)
      ≡ some (if b then a else no_address, rest)
read-write_primary true a rest h = read-write_ip a rest h
read-write_primary false a rest h = refl

pos_of : (n : ℕ) → n < 2 ^ 31 → int_of n ≡ pos n
pos_of n h = ground arith

read-write_pos :
    (n : ℕ) (rest : List ℕ)
    → n < 2 ^ 31
    → read_int (write_int (int_of (u32 n)) ++ rest) ≡ some (pos n, rest)
read-write_pos n rest h =
    read-write_word n rest (omega arith) ∙ ap (λ (z : ℤ). some (z, rest)) (pos_of n h)

-- A router that is written is read as its configuration, whatever follows it in the file.
pub read-write_router :
    (name : List ℕ) (s : Service) (vlan : ℤ) (rest : List ℕ)
    → IsSavable name s
    → read_router (pos 3) vlan (write_router name s ++ rest) ≡ some (router_of name s, rest)
unfolding read_router write_router
read-write_router name s vlan rest h =
    let count : u32 (length s.subnets) ≡ length s.subnets = omega (arith, h.count_fits) in
    simp
      (
        append_assoc,
        λ (more : List ℕ). read-write_string name more h.name_fits,
        λ (more : List ℕ). read-write_int (pos s.virtual_router_id) more h.vrid_fits,
        λ (more : List ℕ). read-write_int (pos (number s.family)) more (ground arith),
        λ (more : List ℕ). read-write_int (pos s.priority) more h.priority_fits,
        λ (more : List ℕ). read-write_pos (s.advertisement_interval * 10) more h.interval_fits,
        read-write_boolean,
        λ (more : List ℕ). read-write_int (flags_of s) more (ground arith),
        λ (more : List ℕ).
            read-write_primary (has_primary (flags_of s)) s.primary_ip_address more h.primary_sized,
        λ (more : List ℕ). read-write_string s.master_command more h.master_command_fits,
        λ (more : List ℕ). read-write_string s.backup_command more h.backup_command_fits,
        λ (more : List ℕ). read-write_pos s.vlan_id more h.vlan_fits,
        λ (more : List ℕ). read-write_pos (length s.subnets) more h.count_fits,
      )
      (rw (count, read-write_subnets s.subnets rest h.subnets_stored h.subnets_increasing) refl)

-- The services are savable under the names of their interfaces.
abbrev pub AreSavable : (ℕ → List ℕ) → List Service → Type 0
AreSavable name = All (λ s. IsSavable (name s.interface) s)

abbrev pub routers_of : (ℕ → List ℕ) → List Service → List Router
routers_of name = map (λ s. router_of (name s.interface) s)

read-write_routers :
    (name : ℕ → List ℕ) (services : List Service) (vlan : ℤ) (rest : List ℕ)
    → AreSavable name services
    → read_routers (length services) (pos 3) vlan (write_routers name services ++ rest)
      ≡ (routers_of name services, true)
unfolding read_routers write_routers
read-write_routers name [] vlan rest h = refl
read-write_routers name (s ∷ services) vlan rest (h, hs) =
    rw
      (
        append_assoc,
        read-write_router (name s.interface) s vlan (write_routers name services ++ rest) h,
        read_routers,
        read-write_routers name services vlan rest hs,
      )
      refl

-- What writeConfiguration writes of services that are savable, fewer than 2^31, readConfiguration
-- reads without an error: the configuration of each, in their order, whatever the uninitialised
-- variable for the VLAN holds.
pub read-write_file :
    (name : ℕ → List ℕ) (services : List Service) (vlan : ℤ)
    → AreSavable name services
    → length services < 2 ^ 31
    → read_file vlan (write_configuration name services) ≡ (routers_of name services, true)
unfolding read_file write_configuration
read-write_file name services vlan h few =
    let count : u32 (length services) ≡ length services = omega arith in
    let counted : ltb (length services) 0 ≡ false = ground arith in
    rw
      (
        read-write_int (pos 3)
            (write_int (int_of (u32 (length services))) ++ write_routers name services)
            (omega arith),
        read_file,
        ← append-nil (write_routers name services),
        read-write_pos (length services) (write_routers name services ++ []) few,
        read_file,
      )
      (rw (counted, count) (read-write_routers name services vlan [] h))

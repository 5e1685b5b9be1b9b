-- ===== src/Configurator.antt =====
-- src/configurator.h and src/configurator.cpp: the configuration file. A file is its bytes; readsome
-- is taken to give as many of them as it is asked for, or all that are left.
pub mod Values
pub mod RoundTrip
pub mod Load
pub mod Sound
pub mod Restore
pub mod Enabled
pub mod Reloaded
pub mod Reload
pub mod Registry
pub mod Saved
use open_vrrp.Prelude.{
  ℕ, zero, suc, ◌+◌, ◌*◌, ◌/◌, ◌%◌, ◌^◌, ◌==◌, ltb, not, ◌||◌, ◌&&◌, if◌then◌else◌, Bool, true,
  false, List, [], ◌∷◌, ◌++◌, Option, none, some, length, take, drop, u32, ℤ, pos, negsuc, less_int,
  eq_int, is_tens, word_of, int_of,
}
use open_vrrp.Address.{
  Family, unspec, inet, inet6, number, family_size, IpAddress, no_address, IpSubnet, subnet_less,
}
use open_vrrp.Containers.{set_insert}
use open_vrrp.Checksum.{be32}
use open_vrrp.Service.{Service}
use open_vrrp.Service.Transitions.{enabled}

-- `none` is `false`.
abbrev pub Reader {ℓ} : Type ℓ → Type ℓ
Reader A = List ℕ → Option (A × List ℕ)

abbrev pub continue {ℓ κ} :
    {A : Type ℓ} {B : Type κ} → Option (A × List ℕ) → (A → Reader B) → Option (B × List ℕ)
continue none f = none
continue (some (a, rest)) f = f a rest

infixl 5 ◌>>=◌
abbrev pub ◌>>=◌ {ℓ κ} : {A : Type ℓ} {B : Type κ} → Reader A → (A → Reader B) → Reader B
m >>= f = λ bytes. continue (m bytes) f

abbrev pub pure {ℓ} : {A : Type ℓ} → A → Reader A
pure a bytes = some (a, bytes)

unfoldable pub read_some : ℕ → Reader (List ℕ)
read_some size bytes =
    if ltb (length bytes) size then none else some (take size bytes, drop size bytes)

unfoldable pub read_int : Reader ℤ
read_int (a ∷ b ∷ c ∷ d ∷ rest) = some (int_of (a * 2 ^ 24 + b * 2 ^ 16 + c * 256 + d), rest)
read_int _ = none

unfoldable pub write_int : ℤ → List ℕ
write_int value = be32 (word_of value)

unfoldable pub read_boolean : Reader Bool
read_boolean [] = none
read_boolean (a ∷ rest) = some (not (a == 0), rest)

unfoldable pub write_boolean : Bool → List ℕ
write_boolean value = (if value then 0xff else 0) ∷ []

unfoldable pub read_string : Reader (List ℕ)
read_string [] = none
read_string (size ∷ rest) = read_some size rest

unfoldable pub write_string : List ℕ → List ℕ
write_string value =
    let size : ℕ = if ltb 255 (length value) then 255 else length value in size ∷ take size value

abbrev pub family_of : ℤ → Family
family_of (pos n) = if n == 2 then inet else if n == 10 then inet6 else unspec
family_of (negsuc n) = unspec

abbrev pub read_bytes : Family → Reader IpAddress
read_bytes unspec = pure no_address
read_bytes family = do
  bytes ← read_some (family_size family)
  pure (record { family = family; bytes = bytes })

unfoldable pub read_ip : Reader IpAddress
read_ip = do family ← read_int; read_bytes (family_of family)

unfoldable pub write_ip : IpAddress → List ℕ
write_ip address =
    write_int (pos (number address.family)) ++ take (family_size address.family) address.bytes

-- The mask is an unsigned int in the subnet, and an int in the file.
unfoldable pub read_subnet : Reader IpSubnet
read_subnet = do
  address ← read_ip
  cidr ← read_int
  pure (record { address = address; cidr = word_of cidr })

unfoldable pub write_subnet : IpSubnet → List ℕ
write_subnet subnet = write_ip subnet.address ++ write_int (int_of (u32 subnet.cidr))

-- What the loop of readConfiguration reads of one router.
pub record Router : Type 0 where
  pub interface : List ℕ
  pub vrid : ℤ
  pub address_family : ℤ
  pub priority : ℤ
  pub interval : ℤ
  pub accept : Bool
  pub preempt : Bool
  pub enable : Bool
  pub flags : ℤ
  pub primary_ip : IpAddress
  pub master_command : List ℕ
  pub backup_command : List ℕ
  pub vlan_id : ℤ
  pub subnets : List IpSubnet

-- `flags & FLAG_HAS_PRIMARY_IP_ADDRESS`
abbrev pub has_primary : ℤ → Bool
has_primary flags = word_of flags % 2 == 1

unfoldable pub read_subnets : ℕ → List IpSubnet → Reader (List IpSubnet)
read_subnets zero subnets = pure subnets
read_subnets (suc count) subnets = do
  subnet ← read_subnet
  read_subnets count (set_insert subnet_less subnet subnets)

abbrev pub read_if {ℓ} : {A : Type ℓ} → Bool → Reader A → A → Reader A
read_if true r a = r
read_if false r a = pure a

abbrev pub read_commands : Reader (List ℕ × List ℕ)
read_commands = do master ← read_string; backup ← read_string; pure (master, backup)

-- `vlan` is the value that the variable `vlanId` holds when the file does not give it. A negative
-- count of addresses is the number of rounds after which `j` meets it.
unfoldable pub read_router : ℤ → ℤ → Reader Router
read_router version vlan = do
  interface ← read_string
  vrid ← read_int
  address_family ← read_int
  priority ← read_int
  interval ← read_int
  accept ← read_boolean
  preempt ← read_boolean
  enable ← read_boolean
  flags ← read_int
  primary_ip ← read_if (has_primary flags) read_ip no_address
  commands ← read_if (less_int (pos 1) version) read_commands ([], [])
  vlan_id ← read_if (less_int (pos 2) version) read_int vlan
  count ← read_int
  subnets ← read_subnets (word_of count) []
  pure (record {
    interface = interface;
    vrid = vrid;
    address_family = address_family;
    priority = priority;
    interval = interval;
    accept = accept;
    preempt = preempt;
    enable = enable;
    flags = flags;
    primary_ip = primary_ip;
    master_command = commands.0;
    backup_command = commands.1;
    vlan_id = vlan_id;
    subnets = subnets;
  })

-- The routers that are read before the first error, and whether there was none.
unfoldable pub read_routers : ℕ → ℤ → ℤ → List ℕ → List Router × Bool
read_routers zero version vlan bytes = ([], true)
read_routers (suc count) version vlan bytes = elim (read_router version vlan bytes) [
  | none ↦ ([], false)
  | some (router, rest) ↦
      let more = read_routers count version vlan rest in (router ∷ more.0, more.1)
]

abbrev pub known_version : ℤ → Bool
known_version version = eq_int version (pos 1) || eq_int version (pos 2) || eq_int version (pos 3)

-- The part of readConfiguration that reads: the routers in the order in which they are handled, and
-- the result.
unfoldable pub read_file : ℤ → List ℕ → List Router × Bool
read_file vlan bytes = elim (read_int bytes) [
  | none ↦ ([], false)
  | some (version, rest) ↦
      if not (known_version version) then ([], false) else elim (read_int rest) [
        | none ↦ ([], false)
        | some (count, rest') ↦
            if less_int count (pos 0)
            then ([], false)
            else read_routers (word_of count) version vlan rest'
      ]
]

unfoldable pub write_subnets : List IpSubnet → List ℕ
write_subnets [] = []
write_subnets (subnet ∷ subnets) = write_subnet subnet ++ write_subnets subnets

abbrev pub flags_of : Service → ℤ
flags_of s = if s.auto_primary_ip_address then pos 0 else pos 1

-- The body of the loop of writeConfiguration; `name` is what if_indextoname gives.
unfoldable pub write_router : List ℕ → Service → List ℕ
write_router name s =
    write_string name
    ++ (write_int (pos s.virtual_router_id)
        ++ (write_int (pos (number s.family))
            ++ (write_int (pos s.priority)
                ++ (write_int (int_of (u32 (s.advertisement_interval * 10)))
                    ++ (write_boolean s.accept_mode
                        ++ (write_boolean s.preempt_mode
                            ++ (write_boolean (enabled s)
                                ++ (write_int (flags_of s)
                                    ++ ((if has_primary (flags_of s)
                                          then write_ip s.primary_ip_address
                                          else [])
                                        ++ (write_string s.master_command
                                            ++ (write_string s.backup_command
                                                ++ (write_int (int_of (u32 s.vlan_id))
                                                    ++ (write_int (int_of (u32 (length s.subnets)))
                                                        ++ write_subnets s.subnets)))))))))))))

unfoldable pub write_routers : (ℕ → List ℕ) → List Service → List ℕ
write_routers name [] = []
write_routers name (s ∷ services) = write_router (name s.interface) s ++ write_routers name services

-- writeConfiguration, for the services in the order of Configurator::services.
unfoldable pub write_configuration : (ℕ → List ℕ) → List Service → List ℕ
write_configuration name services =
    write_int (pos 3) ++ (write_int (int_of (u32 (length services))) ++ write_routers name services)

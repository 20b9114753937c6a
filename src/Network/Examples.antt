-- ===== src/Network/Examples.antt =====
-- Runs of the network on a small machine, whose state is the configuration file that Squid has.
use aetherium.Base.{
  ℕ, ◌≤◌, ◌%◌, ◌^◌, ◌≡◌, ◌↔◌, ◌⊎◌, refl, true, false, Option, none, some, List, [], ◌∷◌, ◌++◌,
  reverse, take, ok, err, Text, text, lookup, Lacks,
}
use aetherium.Network.Address.{Subnet, ip_string, mask}
use aetherium.Network.Allocator.{
  IpAllocator, no_available_ips, new_allocator, is_allocated, claim, allocate_ip,
}
use aetherium.Network.Allocator.Contract.{Claims, address, new_allocator-InRange, allocate_ip_cases}
use aetherium.Network.Host.{Host, found, no_file, SquidData}
use aetherium.Network.Log.{blocked_in}
use aetherium.Network.Log.Blocked.{requests, blocked_in-requests}
use aetherium.Network.Mac.{generate_mac}
use aetherium.Network.Mac.Collisions.{polynomial, generate_mac_iff}
use aetherium.Network.Manager.{NetworkConfig, TapDevice, Manager, tap_not_created, initial_manager}
use aetherium.Network.Manager.Leases
use aetherium.Network.Manager.Leases.{SameLeases, initial_manager-IsValid}
use aetherium.Network.Manager.Lifecycle.{create_tap_device-IsValid, create_tap_device_failed}
use aetherium.Network.Manager.Release.{delete_tap_device-create_tap_device}
use aetherium.Network.Manager.Tap.{new_tap, set_up_tap, create_tap_device, delete_tap_device}

abbrev pub Machine : Type 0
Machine = Option SquidData

-- Every command succeeds.
abbrev pub willing : Host Machine
willing = record {
  run = λ args w. (true, w);
  output = λ args w. (none, w);
  interface_up = λ name w. some true;
  spawn = λ args w. (some 7, w);
  alive = λ pid w. true;
  kill = λ pid w. w;
  exits = λ pid w. (true, w);
  on_path = λ name w. true;
  stat = λ path w. found;
  read_lines = λ path w. no_file;
  load_template = λ path w. true;
  create_file = λ path w. (true, w);
  execute_template = λ path d w. (true, some d);
}

-- Every command fails.
abbrev pub refusing : Host Machine
refusing = record willing { run = λ args w. (false, w) }

abbrev pub subnet : Subnet
subnet = record { a = 172; b = 16; c = 0; d = 0 }

abbrev pub network : NetworkConfig
network = record {
  bridge_name = text "aetherium0";
  bridge_ip = text "172.16.0.1/24";
  subnet_cidr = text "172.16.0.0/24";
  tap_prefix = text "aether-";
  enable_nat = true;
  host_interface = [];
}

abbrev pub fresh : Manager
fresh = initial_manager network subnet

abbrev vm_1 : Text
vm_1 = text "vm-1"

abbrev tap_1 : TapDevice
tap_1 = new_tap vm_1 (ip_string subnet 2 ++ mask) fresh

abbrev with_tap : Manager
with_tap = (create_tap_device willing vm_1 fresh none).1

created : (create_tap_device willing vm_1 fresh none).0 ≡ ok tap_1
unfolding create_tap_device set_up_tap allocate_ip initial_manager new_allocator is_allocated lookup
created = refl

fresh-IsValid : Leases.IsValid fresh
fresh-IsValid = initial_manager-IsValid network subnet

with_tap-IsValid : Leases.IsValid with_tap
with_tap-IsValid = create_tap_device-IsValid willing vm_1 fresh none fresh-IsValid

no_device : lookup vm_1 fresh.tap_devices ≡ none
unfolding initial_manager lookup
no_device = refl

create_tap_device-IsValid_example :
    Leases.IsValid (create_tap_device willing (text "vm-2") with_tap none).1
create_tap_device-IsValid_example =
    create_tap_device-IsValid willing (text "vm-2") with_tap none with_tap-IsValid

refused : (create_tap_device refusing vm_1 fresh none).0 ≡ err tap_not_created
unfolding create_tap_device set_up_tap allocate_ip initial_manager new_allocator is_allocated lookup
refused = refl

create_tap_device_failed_example : SameLeases fresh (create_tap_device refusing vm_1 fresh none).1
create_tap_device_failed_example =
    create_tap_device_failed refusing vm_1 fresh none tap_not_created fresh-IsValid refused

abbrev without_tap : Manager
without_tap = (delete_tap_device willing vm_1 with_tap none).0

delete_tap_device-create_tap_device_example :
    ((k : Text) → lookup k without_tap.tap_devices ≡ lookup k fresh.tap_devices)
    × ((s : Text) → is_allocated without_tap.ip_allocator s ≡ is_allocated fresh.ip_allocator s)
delete_tap_device-create_tap_device_example =
    delete_tap_device-create_tap_device willing vm_1 fresh none none tap_1 fresh-IsValid no_device
      created

abbrev pool : IpAllocator
pool = new_allocator subnet

allocate_ip_cases_example :
    ((x : ℕ) × (a' : IpAllocator) × Claims pool a' x
      × (allocate_ip pool ≡ (ok (address pool x ++ mask), a')))
    ⊎ (((x : ℕ) → 2 ≤ x → x ≤ 254 → is_allocated pool (address pool x) ≡ true)
        × (allocate_ip pool ≡ (err no_available_ips, pool)))
allocate_ip_cases_example = allocate_ip_cases pool (new_allocator-InRange subnet)

first_address : allocate_ip pool ≡ (ok (ip_string subnet 2 ++ mask), claim pool 2)
unfolding allocate_ip new_allocator lookup
first_address = refl

abbrev host_name : Text
host_name = text "a.io"

host-no_slash : Lacks b'/' host_name
host-no_slash = (refl, (refl, (refl, (refl, tt))))

host-no_colon : Lacks b':' host_name
host-no_colon = (refl, (refl, (refl, (refl, tt))))

abbrev log_lines : List Text
log_lines =
    text "100.5 0 10.0.0.2 TCP_DENIED/403 0 CONNECT a.io:443 - HIER_NONE/- text/html"
    ∷ text "101.5 0 10.0.0.2 TCP_MISS/200 0 CONNECT go.dev:443 - HIER_NONE/- text/html"
    ∷ []

blocked_in-requests_example : blocked_in 5 log_lines ≡ take 5 (requests (reverse log_lines))
blocked_in-requests_example = blocked_in-requests 5 log_lines

generate_mac_iff_example :
    (generate_mac (text "ab") ≡ generate_mac (text "bC"))
    ↔ (polynomial 0 (text "ab") % 2 ^ 24 ≡ polynomial 0 (text "bC") % 2 ^ 24)
generate_mac_iff_example = generate_mac_iff (text "ab") (text "bC")

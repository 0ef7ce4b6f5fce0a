-- ===== src/Tests/Registry.antt =====
-- The registry of two containers: "web" runs under a shim that is gone, and "db" is stopped.
use minicontainer.Base.{
  ℕ, ◌+◌, ◌≤◌, ◌≡◌, ◌↔◌, refl, false, Option, none, some, List, [], ◌∷◌, Bytes, codes, All, ◌==◌,
  if◌then◌else◌, str_eq,
}
use minicontainer.Network.{Publish}
use minicontainer.State.Registry.{
  World, Leaf, config, state, opened, ok, err, resolve, resolves, allocate_ip,
  published_port_is_taken, exit_conflict, subnet, skipped, stored_publish, stored_publishes,
}
use minicontainer.State.Reconcile.{Outcome, written, reconcile, stale, repaired, store}
use minicontainer.State.Identity.{contains}
use minicontainer.State.Resolve.{select, the_only, resolve-the_only}
use minicontainer.State.Ipam.{IsLeased, allocate_ip-fresh, allocate_ip_exhausted}
use minicontainer.State.Ports.{Clash, published_port_is_taken-IsFree}
use minicontainer.State.Sweep.{reconcile_sound, reconcile_twice}
use minicontainer.Tests.Json.{
  trees, trees-IsJson, Tree, str, num, empty, member, nothing, item, member_of, items_of,
}

abbrev web : Bytes
web = codes "0123456789abcdef0123456789abcdef"

abbrev db : Bytes
db = codes "fedcba9876543210fedcba9876543210"

abbrev web_config : Tree
web_config = member (codes "name") (str (codes "web")) (
    member (codes "ipv4_host") (num (0x0a2c0000 + 2)) (
      member (codes "publishes")
        (item
          (member (codes "host_ipv4") (num 0)
            (member (codes "host_port") (num 8080) (member (codes "protocol") (num 6) empty)))
          nothing)
        empty))

abbrev web_state : Tree
web_state =
    member (codes "status") (str (codes "running"))
      (member (codes "shim_pid") (num 77) (member (codes "shim_start_time") (num 5000) empty))

abbrev db_state : Tree
db_state = member (codes "status") (str (codes "stopped")) empty

abbrev files : Bytes → Leaf → Option Tree
files id config = if str_eq id web then some web_config else none
files id state =
    if str_eq id web then some web_state else if str_eq id db then some db_state else none

abbrev entries : List Bytes
entries = codes "." ∷ codes ".." ∷ web ∷ db ∷ []

abbrev host : World trees
host = record {
  listing = opened entries;
  file = files;
  state_dir_length = 22;
  start_time = λ pid. if pid == 77 then 9000 else 0;
}

abbrev all_written : Bytes → Outcome
all_written id = written

by_name : resolve trees host (codes "web") ≡ ok web
unfolding resolve member_of
by_name = refl

by_prefix : resolve trees host (codes "fe") ≡ ok db
unfolding resolve member_of
by_prefix = refl

resolve-the_only_example :
    resolve trees host (codes "fe") ≡ the_only (select (resolves trees host (codes "fe")) entries)
resolve-the_only_example = resolve-the_only trees host b'f' (codes "e") entries refl

next_address : allocate_ip trees host ≡ ok (subnet + 3)
unfolding allocate_ip member_of
next_address = refl

allocate_ip-fresh_example :
    (h : ℕ) × (subnet + 3 ≡ subnet + h) × (2 ≤ h) × (h ≤ 254) × (¬ IsLeased trees host entries h)
allocate_ip-fresh_example = allocate_ip-fresh trees host entries refl next_address

allocate_ip_exhausted_example :
    (allocate_ip trees host ≡ err exit_conflict)
    ↔ ((h : ℕ) → 2 ≤ h → h ≤ 254 → IsLeased trees host entries h)
allocate_ip_exhausted_example = allocate_ip_exhausted trees host entries refl

abbrev requested : List Publish
requested = record { host_ipv4 = 0; host_port = 9090; container_port = 80; protocol = 6 } ∷ []

port_free : published_port_is_taken trees host requested db ≡ false
unfolding published_port_is_taken member_of items_of
port_free = refl

published_port_is_taken-IsFree_example :
    All
      (λ id.
        skipped trees host db id ≡ false
        → All
            (λ stored.
              (existing : Publish)
              → stored_publish trees stored ≡ some existing
              → All (λ r. ¬ Clash r existing) requested)
            (stored_publishes trees host id))
      entries
published_port_is_taken-IsFree_example =
    published_port_is_taken-IsFree trees host requested db entries refl (λ e. cc) port_free

swept : (reconcile trees all_written host).status ≡ 0
unfolding reconcile stale repaired store contains member_of
swept = refl

reconcile_sound_example :
    ((reconcile trees all_written host).status ≡ 0
      → All (λ id. stale trees (reconcile trees all_written host).world id ≡ none) entries)
    × ((j : Bytes)
        → stale trees host j ≡ none
        → (leaf : Leaf) → (reconcile trees all_written host).world.file j leaf ≡ host.file j leaf)
    × ((j : Bytes) → (reconcile trees all_written host).world.file j config ≡ host.file j config)
reconcile_sound_example = reconcile_sound trees trees-IsJson all_written host entries refl

reconcile_twice_example :
    let after = (reconcile trees all_written host).world in
    reconcile trees all_written after ≡ record { world = after; effects = []; status = 0 }
reconcile_twice_example = reconcile_twice trees trees-IsJson all_written host entries refl swept

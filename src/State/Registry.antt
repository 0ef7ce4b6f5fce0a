-- ===== src/State/Registry.antt =====
-- state/store.c: the registry, a directory with one subdirectory for each container, and the reads
-- that scan it.
use minicontainer.Base.{
  ℕ, zero, suc, ◌+◌, ◌/◌, ◌%◌, ◌^◌, Bool, true, false, not, ◌||◌, Option, none, some, List, [], ◌∷◌,
  Bytes, codes, length, ◌==◌, ltb, if◌then◌else◌, ◌>>=◌, str_eq, starts_with, any,
}
use minicontainer.Network.{Publish, clashes}
use minicontainer.State.Json.{Json}

-- The leaves "config.json" and "state.json".
pub data Leaf : Type 0 where
  config state : Leaf

abbrev pub leaf_length : Leaf → ℕ
leaf_length config = 11
leaf_length state = 10

-- What opendir returns, and the names that readdir then lists.
pub data Listing : Type 0 where
  opened : List Bytes → Listing
  missing unreadable : Listing

-- MC_EXIT_*, and 0 where a call returns -1 without an error of its own.
pub data Result {ℓ} (A : Type ℓ) : Type ℓ where
  ok : A → Result A
  err : ℕ → Result A

abbrev pub exit_conflict : ℕ
exit_conflict = 4

abbrev pub exit_not_found : ℕ
exit_not_found = 5

abbrev pub exit_runtime : ℕ
exit_runtime = 7

-- PATH_MAX
abbrev pub path_max : ℕ
path_max = 4096

abbrev pub id_length : ℕ
id_length = 32

abbrev pub is_hidden : Bytes → Bool
is_hidden [] = false
is_hidden (c ∷ s) = c == b'.'

-- 10.44.0.0/24: `address & 0xffffff00` is the subnet, and `address & 0xff` the host.
abbrev pub subnet : ℕ
subnet = 0x0a2c0000

-- The search for a free host, with `rounds` candidates left.
unfoldable pub free_host : (ℕ → Bool) → ℕ → ℕ → Option ℕ
free_host used zero candidate = none
free_host used (suc rounds) candidate =
    let later = free_host used rounds (candidate + 1) in
    if used candidate then later else some candidate

abbrev pub lease : (ℕ → Bool) → Result ℕ
unfolding free_host
lease used = elim (free_host used 253 2) [
  | none ↦ err exit_conflict
  | some host ↦ ok (subnet + host)
]

module _ (J : Json) where
  -- The files that the program reads, by container and leaf, and field 22 of /proc/<pid>/stat (0
  -- where there is no such process).
  pub record World : Type 0 where
    pub listing : Listing
    pub file : Bytes → Leaf → Option J.Text
    pub state_dir_length : ℕ
    pub start_time : ℕ → ℕ

  -- make_path returns 0: "%s/containers/%s/%s" fits the buffer.
  abbrev pub path_fits : World → Bytes → Leaf → Bool
  path_fits w id leaf = ltb (w.state_dir_length + 13 + length id + leaf_length leaf) path_max

  -- json_object_from_file
  abbrev pub read : World → Bytes → Leaf → Option J.Value
  read w id leaf = w.file id leaf >>= J.parse

  abbrev pub field : Option J.Value → Bytes → Option J.Value
  field root key = root >>= λ r. J.get r key

  abbrev pub string_is : Option J.Value → Bytes → Bool
  string_is none text = false
  string_is (some v) text = str_eq (J.get_string v) text

  abbrev pub names_container : World → Bytes → Bytes → Bool
  names_container w id name = string_is (field (read w id config) (codes "name")) name

  -- A directory that is passed over in the scans for names and ports.
  abbrev pub skipped : World → Bytes → Bytes → Bool
  skipped w own_id id = is_hidden id || str_eq id own_id || not (path_fits w id config)

  unfoldable pub name_loop : World → Bytes → Bytes → List Bytes → Bool
  name_loop w name own_id [] = false
  name_loop w name own_id (id ∷ ids) =
      let rest = name_loop w name own_id ids in
      if skipped w own_id id then rest else if names_container w id name then true else rest

  unfoldable pub name_is_taken : World → Option Bytes → Bytes → Bool
  unfolding name_loop
  name_is_taken w none own_id = false
  name_is_taken w (some name) own_id = elim w.listing [
    | opened ids ↦ name_loop w name own_id ids
    | missing ↦ false
    | unreadable ↦ true
  ]

  -- The casts to uint32_t, uint16_t and uint8_t.
  abbrev pub stored_publish : J.Value → Option Publish
  stored_publish published = J.get published (codes "host_ipv4") >>= λ address.
      J.get published (codes "host_port") >>= λ port.
      J.get published (codes "protocol") >>= λ protocol. some (record {
        host_ipv4 = J.get_int64 address % 2 ^ 32;
        host_port = J.get_int port % 2 ^ 16;
        container_port = 0;
        protocol = J.get_int protocol % 2 ^ 8;
      })

  abbrev pub stored_clash : List Publish → J.Value → Bool
  stored_clash requested published = elim (stored_publish published) [
    | none ↦ false
    | some existing ↦ any (λ r. clashes r existing) requested
  ]

  abbrev pub stored_publishes : World → Bytes → List J.Value
  stored_publishes w id = elim (field (read w id config) (codes "publishes")) [
    | none ↦ []
    | some array ↦ if J.is_array array then J.items array else []
  ]

  unfoldable pub port_loop : World → List Publish → Bytes → List Bytes → Bool
  port_loop w requested own_id [] = false
  port_loop w requested own_id (id ∷ ids) =
      let rest = port_loop w requested own_id ids in
      if skipped w own_id id
      then rest
      else if any (stored_clash requested) (stored_publishes w id)
      then true
      else rest

  unfoldable pub published_port_is_taken : World → List Publish → Bytes → Bool
  unfolding port_loop
  published_port_is_taken w [] own_id = false
  published_port_is_taken w (p ∷ requested) own_id = elim w.listing [
    | opened ids ↦ port_loop w (p ∷ requested) own_id ids
    | missing ↦ false
    | unreadable ↦ true
  ]

  -- One round of mc_state_resolve: whether the entry is counted.
  abbrev pub resolves : World → Bytes → Bytes → Bool
  resolves w reference id =
      if is_hidden id || not (length id == id_length)
      then false
      else if starts_with reference id
      then true
      else if not (path_fits w id config)
      then false
      else names_container w id reference

  -- The loop: the identifier that was copied last, and the number of matches.
  unfoldable pub resolve_loop : World → Bytes → List Bytes → Bytes → ℕ → Bytes × ℕ
  resolve_loop w reference [] id matches = (id, matches)
  resolve_loop w reference (entry ∷ entries) id matches =
      let counted = resolve_loop w reference entries entry (matches + 1) in
      let passed = resolve_loop w reference entries id matches in
      if resolves w reference entry then counted else passed

  abbrev pub resolve_result : Bytes × ℕ → Result Bytes
  resolve_result (id, matches) =
      if matches == 1 then ok id else if matches == 0 then err exit_not_found else err exit_conflict

  unfoldable pub resolve : World → Bytes → Result Bytes
  unfolding resolve_loop
  resolve w [] = err exit_not_found
  resolve w (c ∷ reference) = elim w.listing [
    | opened entries ↦ resolve_result (resolve_loop w (c ∷ reference) entries [] 0)
    | missing ↦ err exit_not_found
    | unreadable ↦ err exit_not_found
  ]

  abbrev pub lease_of : Option J.Value → Option ℕ
  lease_of none = none
  lease_of (some v) =
      let address = J.get_int64 v % 2 ^ 32 in
      if address / 256 == subnet / 256 then some (address % 256) else none

  -- The host that an entry marks in `used`.
  abbrev pub leased : World → Bytes → Option ℕ
  leased w id =
      if is_hidden id || not (path_fits w id config)
      then none
      else lease_of (field (read w id config) (codes "ipv4_host"))

  abbrev pub marks : World → ℕ → Bytes → Bool
  marks w host id = elim (leased w id) [ none ↦ false | some used ↦ used == host ]

  -- used[host] after the loop over the directory.
  abbrev pub is_used : World → List Bytes → ℕ → Bool
  is_used w ids host = any (marks w host) ids

  unfoldable pub allocate_ip : World → Result ℕ
  unfolding free_host
  allocate_ip w = elim w.listing [
    | opened ids ↦ lease (is_used w ids)
    | missing ↦ lease (λ _. false)
    | unreadable ↦ err exit_runtime
  ]

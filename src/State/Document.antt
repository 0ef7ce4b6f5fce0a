-- ===== src/State/Document.antt =====
-- state/store.c: the document config.json that config_json builds of a configuration.
use minicontainer.Base.{
  ℕ, ◌%◌, ◌^◌, Option, none, some, List, [], ◌∷◌, ◌++◌, map, Bytes, codes, length, leb,
  if◌then◌else◌, ◌>>=◌, take, drop, starts_with,
}
use minicontainer.Network.{Publish}
use minicontainer.Mount.{Mount, MountType, bind, tmpfs}
use minicontainer.Cli.{Options}
use minicontainer.Launch.{RunConfig, denied_names}
use minicontainer.State.Json.{Json}

-- What strstr finds, less the text that it looks for.
pub after_text : Bytes → Bytes → Option Bytes
after_text needle [] = if starts_with needle [] then some [] else none
after_text needle (c ∷ s) =
    let later = after_text needle s in
    if starts_with needle (c ∷ s) then some (drop (length needle) (c ∷ s)) else later

-- The 64 bytes behind the first "/sha256/" of the root file system.
unfoldable pub image_digest : Bytes → Option Bytes
unfolding after_text
image_digest rootfs = after_text (codes "/sha256/") rootfs >>= λ digest.
    if leb 64 (length digest) then some (take 64 digest) else none

abbrev pub type_number : MountType → ℕ
type_number bind = 1
type_number tmpfs = 2

-- The time, and the two texts that the build file gives.
pub record Stamp : Type 0 where
  pub now : ℕ
  pub build_version : Bytes
  pub git_commit : Bytes

module _ (J : Json) where
  -- The calls of json_object_object_add, in their order.
  abbrev pub add_all : J.Value → List (Bytes × J.Value) → J.Value
  add_all o [] = o
  add_all o ((key, v) ∷ fields) = add_all (J.set o key v) fields

  abbrev pub optional_field : Bytes → Option Bytes → List (Bytes × J.Value)
  optional_field key none = []
  optional_field key (some text) = (key, J.new_string text) ∷ []

  abbrev pub strings : List Bytes → J.Value
  strings texts = J.array (map J.new_string texts)

  abbrev pub publish_fields : Publish → List (Bytes × J.Value)
  publish_fields p =
      (codes "host_ipv4", J.new_int64 p.host_ipv4)
      ∷ (codes "host_port", J.new_int p.host_port)
      ∷ (codes "container_port", J.new_int p.container_port)
      ∷ (codes "protocol", J.new_int p.protocol)
      ∷ []

  abbrev pub mount_fields : Mount → List (Bytes × J.Value)
  mount_fields m =
      (codes "type", J.new_int (type_number m.type)) ∷ optional_field (codes "source") m.source
      ++ ((codes "target", J.new_string m.target)
          ∷ (codes "size", J.new_uint64 m.size)
          ∷ (codes "readonly", J.new_boolean m.readonly)
          ∷ [])

  abbrev pub resource_fields : Options → List (Bytes × J.Value)
  resource_fields o =
      (codes "memory_max", J.new_uint64 o.memory_max)
      ∷ (codes "swap_max", J.new_uint64 o.swap_max)
      ∷ (codes "cpu_quota", J.new_uint64 o.cpu_quota)
      ∷ (codes "pids_max", J.new_uint64 o.pids_max)
      ∷ []

  abbrev pub publish_json : Publish → J.Value
  publish_json p = add_all J.new_object (publish_fields p)

  abbrev pub mount_json : Mount → J.Value
  mount_json m = add_all J.new_object (mount_fields m)

  -- The fields from "rootfs" on.
  abbrev pub later_fields : Stamp → RunConfig → List (Bytes × J.Value)
  later_fields stamp config =
      let o = config.options in
      (codes "rootfs", J.new_string config.rootfs)
      ∷ (codes "hostname", J.new_string config.hostname)
      ∷ (codes "workdir", J.new_string o.workdir)
      ∷ (codes "user", J.new_int64 o.user)
      ∷ (codes "group", J.new_int64 o.group)
      ∷ (codes "capability_mask", J.new_uint64 o.capability_mask)
      ∷ (codes "readonly_root", J.new_boolean o.readonly_root)
      ∷ (
        codes "network_mode",
        J.new_string (if o.network_bridge then codes "bridge" else codes "none"),
      )
      ∷ (codes "ipv4_host", J.new_int64 config.ipv4_host)
      ∷ (codes "publishes", J.array (map publish_json o.publishes))
      ∷ (codes "mounts", J.array (map mount_json o.mounts))
      ∷ (codes "seccomp_denies", strings (denied_names o.seccomp_denies))
      ∷ (codes "created_at_unix_ns", J.new_uint64 (stamp.now % 2 ^ 64))
      ∷ (codes "build_version", J.new_string stamp.build_version)
      ∷ (codes "git_commit", J.new_string stamp.git_commit)
      ∷ (codes "resources", add_all J.new_object (resource_fields o))
      ∷ (codes "environment", strings o.environment)
      ∷ (codes "command", strings config.command)
      ∷ []

  abbrev pub config_fields :
      Stamp → RunConfig → Bytes → Option Bytes → Option Bytes → List (Bytes × J.Value)
  config_fields stamp config image name digest =
      (codes "schema_version", J.new_int 1)
        ∷ (codes "id", J.new_string config.id)
        ∷ optional_field (codes "name") name
      ++ ((codes "image", J.new_string image) ∷ optional_field (codes "image_digest") digest
          ++ later_fields stamp config)

  unfoldable pub config_json : Stamp → RunConfig → Bytes → J.Value
  config_json stamp config image =
      add_all J.new_object
        (config_fields stamp config image config.options.name (image_digest config.rootfs))

-- ===== src/State/Stored.antt =====
-- state/store.c: the configuration that is stored is the one that is loaded.
use minicontainer.Base.{
  ℕ, ◌-◌, ◌%◌, ◌^◌, ◌<◌, ◌≡◌, refl, ap, ◌∙◌, Bool, true, false, Option, none, some, List, [], ◌∷◌,
  ◌++◌, map, arith, Bytes, codes, length, All, ◌==◌, if◌then◌else◌, str_eq, length-map, take_all,
}
use minicontainer.Network.{Publish}
use minicontainer.Mount.{Mount, MountType, bind, tmpfs}
use minicontainer.Cli.{default_options}
use minicontainer.Launch.{RunConfig, denied_names}
use minicontainer.State.Json.{Json, IsJson}
use minicontainer.State.Registry.{path_max, stored_publish}
use minicontainer.State.Document.{
  Stamp, image_digest, add_all, optional_field, strings, publish_fields, mount_fields,
  resource_fields, publish_json, mount_json, later_fields, config_fields, config_json, type_number,
}
use minicontainer.State.Load.{
  type_of_number, has_source, copy_string, array_of, load_publish, load_mount, load_each,
  load_arrays, load_resources, load_scalars, load_document,
}

-- The ranges of the types uint32_t, uint16_t, uint8_t and uint64_t.
pub record IsWords (p : Publish) : Type 0 where
  pub address : p.host_ipv4 < 2 ^ 32
  pub host : p.host_port < 2 ^ 16
  pub container : p.container_port < 2 ^ 16
  pub protocol : p.protocol < 2 ^ 8

pub record IsMountWords (m : Mount) : Type 0 where
  pub size : m.size < 2 ^ 64
  pub source : has_source m.type m.source ≡ true

pub record IsStorable (config : RunConfig) (image : Bytes) : Type 0 where
  pub image_fits : length image < path_max
  pub command : 0 < length config.command
  pub user : config.options.user < 2 ^ 32
  pub group : config.options.group < 2 ^ 32
  pub ipv4 : config.ipv4_host < 2 ^ 32
  pub mask : config.options.capability_mask < 2 ^ 64
  pub memory : config.options.memory_max < 2 ^ 64
  pub swap : config.options.swap_max < 2 ^ 64
  pub quota : config.options.cpu_quota < 2 ^ 64
  pub pids : config.options.pids_max < 2 ^ 64
  pub publishes : All IsWords config.options.publishes
  pub mounts : All IsMountWords config.options.mounts

-- The configuration that `start` works with: the image and the host name that were used, not
-- detached, and an empty list of denied system calls where there was none.
abbrev pub restored : RunConfig → Bytes → RunConfig
restored config image = record config {
  options = record config.options {
    image = some image;
    hostname = some config.hostname;
    detach = false;
    seccomp_denies = some (denied_names config.options.seccomp_denies);
  };
}

module _ {J : Json} (laws : IsJson J) where
  -- The last of the fields with the key.
  abbrev lookup_last : List (Bytes × J.Value) → Bytes → Option J.Value → Option J.Value
  lookup_last [] k before = before
  lookup_last ((key, v) ∷ fields) k before =
      lookup_last fields k (if str_eq k key then some v else before)

  get-add_all :
      (o : J.Value) (fields : List (Bytes × J.Value)) (k : Bytes)
      → J.get (add_all J o fields) k ≡ lookup_last fields k (J.get o k)
  get-add_all o [] k = refl
  get-add_all o ((key, v) ∷ fields) k =
      get-add_all (J.set o key v) fields k ∙ ap (lookup_last fields k) (laws.get-set o key v k)

  get_field :
      (fields : List (Bytes × J.Value)) (k : Bytes) {found : Option J.Value}
      → lookup_last fields k none ≡ found
      → J.get (add_all J J.new_object fields) k ≡ found
  get_field fields k h =
      get-add_all J.new_object fields k ∙ (ap (lookup_last fields k) (laws.get-new_object k) ∙ h)

  mod8 : (n : ℕ) → n < 2 ^ 8 → n % 2 ^ 8 ≡ n
  mod8 n h = omega arith

  mod16 : (n : ℕ) → n < 2 ^ 16 → n % 2 ^ 16 ≡ n
  mod16 n h = omega arith

  mod32 : (n : ℕ) → n < 2 ^ 32 → n % 2 ^ 32 ≡ n
  mod32 n h = omega arith

  load_publish-publish_json : (p : Publish) → IsWords p → load_publish J (publish_json J p) ≡ some p
  unfolding load_publish
  load_publish-publish_json p h =
      rw
        (
          get_field (publish_fields J p) (codes "host_ipv4") refl,
          get_field (publish_fields J p) (codes "host_port") refl,
          get_field (publish_fields J p) (codes "container_port") refl,
          get_field (publish_fields J p) (codes "protocol") refl,
          laws.get_int64-new_int64 p.host_ipv4 (omega arith),
          laws.get_int-new_int p.host_port (omega arith),
          laws.get_int-new_int p.container_port (omega arith),
          laws.get_int-new_int p.protocol (omega arith),
          mod32 p.host_ipv4 h.address,
          mod16 p.host_port h.host,
          mod16 p.container_port h.container,
          mod8 p.protocol h.protocol,
        )
        refl

  unfoldable pub new_text : Option Bytes → Option J.Value
  new_text none = none
  new_text (some text) = some (J.new_string text)

  -- A string that is stored, or left out, is copied back.
  copy_string-new_text :
      (root : J.Value) (key : Bytes) (text : Option Bytes)
      → J.get root key ≡ new_text text
      → copy_string J root key ≡ text
  unfolding new_text
  copy_string-new_text root key none e = rw e refl
  copy_string-new_text root key (some text) e =
      rw (e, laws.is_string-new_string text, laws.get_string-new_string text) refl

  mount_fields_at :
      (m : Mount) (source : Option Bytes)
      → let fields = mount_fields J (record m { source = source }) in
        (lookup_last fields (codes "type") none ≡ some (J.new_int (type_number m.type)))
        × (lookup_last fields (codes "source") none ≡ new_text source)
        × (lookup_last fields (codes "target") none ≡ some (J.new_string m.target))
        × (lookup_last fields (codes "size") none ≡ some (J.new_uint64 m.size))
        × (lookup_last fields (codes "readonly") none ≡ some (J.new_boolean m.readonly))
  unfolding new_text
  mount_fields_at m none = (refl, refl, refl, refl, refl)
  mount_fields_at m (some source) = (refl, refl, refl, refl, refl)

  -- The scan for published ports reads all of a publication but the port in the container.
  pub stored_publish-publish_json :
      (p : Publish)
      → IsWords p
      → stored_publish J (publish_json J p) ≡ some (record p { container_port = 0 })
  stored_publish-publish_json p h =
      rw
        (
          get_field (publish_fields J p) (codes "host_ipv4") refl,
          get_field (publish_fields J p) (codes "host_port") refl,
          get_field (publish_fields J p) (codes "protocol") refl,
          laws.get_int64-new_int64 p.host_ipv4 (omega arith),
          laws.get_int-new_int p.host_port (omega arith),
          laws.get_int-new_int p.protocol (omega arith),
          mod32 p.host_ipv4 h.address,
          mod16 p.host_port h.host,
          mod8 p.protocol h.protocol,
        )
        refl

  type_of_number-type_number :
      (type : MountType) → type_of_number (J.get_int (J.new_int (type_number type))) ≡ type
  type_of_number-type_number bind = rw (laws.get_int-new_int 1 (omega arith)) refl
  type_of_number-type_number tmpfs = rw (laws.get_int-new_int 2 (omega arith)) refl

  load_mount-mount_json : (m : Mount) → IsMountWords m → load_mount J (mount_json J m) ≡ some m
  unfolding load_mount new_text
  load_mount-mount_json m h =
      let (type, source, target, size, readonly) = mount_fields_at m m.source in
      let fields = mount_fields J m in
      let root = mount_json J m in
      rw
        (
          get_field fields (codes "type") type,
          get_field fields (codes "size") size,
          get_field fields (codes "readonly") readonly,
          copy_string-new_text root (codes "target") (some m.target)
              (get_field fields (codes "target") target),
          copy_string-new_text root (codes "source") m.source
              (get_field fields (codes "source") source),
          type_of_number-type_number m.type,
          h.source,
          laws.get_uint64-new_uint64 m.size h.size,
          laws.get_boolean-new_boolean m.readonly,
        )
        refl

  load_each-map {ℓ κ} :
      {A : Type ℓ} (P : A → Type κ) (load : J.Value → Option A) (print : A → J.Value)
      → ((a : A) → P a → load (print a) ≡ some a)
      → (items : List A) → All P items
      → load_each J load (map print items) ≡ some items
  load_each-map P load print step [] h = refl
  load_each-map P load print step (a ∷ items) h =
      rw (step a h.0, load_each-map P load print step items h.1) refl

  strings_back : (texts : List Bytes) → map J.get_string (map J.new_string texts) ≡ texts
  strings_back [] = refl
  strings_back (text ∷ texts) = rw (laws.get_string-new_string text, strings_back texts) refl

  array_of-array :
      (root : J.Value) (key : Bytes) (vs : List J.Value)
      → J.get root key ≡ some (J.array vs)
      → array_of J root key ≡ some vs
  array_of-array root key vs e = rw (e, laws.is_array-array vs, laws.items-array vs) refl

  module _ (stamp : Stamp) (config : RunConfig) (image : Bytes) where
    -- The value under each of the keys that are read.
    record HasFields (root : J.Value) : Type 0 where
      id : J.get root (codes "id") ≡ some (J.new_string config.id)
      name : J.get root (codes "name") ≡ new_text config.options.name
      image_name : J.get root (codes "image") ≡ some (J.new_string image)
      rootfs : J.get root (codes "rootfs") ≡ some (J.new_string config.rootfs)
      hostname : J.get root (codes "hostname") ≡ some (J.new_string config.hostname)
      workdir : J.get root (codes "workdir") ≡ some (J.new_string config.options.workdir)
      user : J.get root (codes "user") ≡ some (J.new_int64 config.options.user)
      group : J.get root (codes "group") ≡ some (J.new_int64 config.options.group)
      mask :
          J.get root (codes "capability_mask") ≡ some (J.new_uint64 config.options.capability_mask)
      readonly :
          J.get root (codes "readonly_root") ≡ some (J.new_boolean config.options.readonly_root)
      mode :
          J.get root (codes "network_mode")
          ≡ some (
              J.new_string (if config.options.network_bridge then codes "bridge" else codes "none"))
      ipv4 : J.get root (codes "ipv4_host") ≡ some (J.new_int64 config.ipv4_host)
      publishes :
          J.get root (codes "publishes")
          ≡ some (J.array (map (publish_json J) config.options.publishes))
      mounts :
          J.get root (codes "mounts") ≡ some (J.array (map (mount_json J) config.options.mounts))
      denies :
          J.get root (codes "seccomp_denies")
          ≡ some (strings J (denied_names config.options.seccomp_denies))
      resources :
          J.get root (codes "resources")
          ≡ some (add_all J J.new_object (resource_fields J config.options))
      environment : J.get root (codes "environment") ≡ some (strings J config.options.environment)
      command : J.get root (codes "command") ≡ some (strings J config.command)

    -- What the fields in front of "rootfs" leave under a key.
    before_rootfs : Option Bytes → Option Bytes → Bytes → Option J.Value
    before_rootfs name digest k =
        lookup_last
          ((codes "schema_version", J.new_int 1)
              ∷ (codes "id", J.new_string config.id)
              ∷ optional_field J (codes "name") name
            ++ ((codes "image", J.new_string image)
                ∷ optional_field J (codes "image_digest") digest))
          k none

    lookup-config_fields :
        (name digest : Option Bytes) (k : Bytes)
        → lookup_last (config_fields J stamp config image name digest) k none
          ≡ lookup_last (later_fields J stamp config) k (before_rootfs name digest k)
    unfolding before_rootfs
    lookup-config_fields none none k = refl
    lookup-config_fields none (some digest) k = refl
    lookup-config_fields (some name) none k = refl
    lookup-config_fields (some name) (some digest) k = refl

    first_fields :
        (name digest : Option Bytes)
        → let fields = config_fields J stamp config image name digest in
          (lookup_last fields (codes "id") none ≡ some (J.new_string config.id))
          × (lookup_last fields (codes "name") none ≡ new_text name)
          × (lookup_last fields (codes "image") none ≡ some (J.new_string image))
    unfolding new_text
    first_fields none none = (refl, refl, refl)
    first_fields none (some digest) = (refl, refl, refl)
    first_fields (some name) none = (refl, refl, refl)
    first_fields (some name) (some digest) = (refl, refl, refl)

    config_json-HasFields : HasFields (config_json J stamp config image)
    unfolding config_json
    config_json-HasFields =
        let fields =
          config_fields J stamp config image config.options.name (image_digest config.rootfs) in
        let first = first_fields config.options.name (image_digest config.rootfs) in
        record {
          id = get_field fields (codes "id") first.0;
          name = get_field fields (codes "name") first.1;
          image_name = get_field fields (codes "image") first.2;
          rootfs = later (codes "rootfs") (λ b. refl);
          hostname = later (codes "hostname") (λ b. refl);
          workdir = later (codes "workdir") (λ b. refl);
          user = later (codes "user") (λ b. refl);
          group = later (codes "group") (λ b. refl);
          mask = later (codes "capability_mask") (λ b. refl);
          readonly = later (codes "readonly_root") (λ b. refl);
          mode = later (codes "network_mode") (λ b. refl);
          ipv4 = later (codes "ipv4_host") (λ b. refl);
          publishes = later (codes "publishes") (λ b. refl);
          mounts = later (codes "mounts") (λ b. refl);
          denies = later (codes "seccomp_denies") (λ b. refl);
          resources = later (codes "resources") (λ b. refl);
          environment = later (codes "environment") (λ b. refl);
          command = later (codes "command") (λ b. refl);
        }
      where
        later :
            (k : Bytes) {found : Option J.Value}
            → ((before : Option J.Value)
                → lookup_last (later_fields J stamp config) k before ≡ found)
            → J.get
                (add_all J J.new_object (
                  config_fields J stamp config image config.options.name
                    (image_digest config.rootfs)))
                k
              ≡ found
        later k h =
            get_field
              (config_fields J stamp config image config.options.name (image_digest config.rootfs))
              k (lookup-config_fields config.options.name (image_digest config.rootfs) k ∙ h _)

    mode_back :
        (b : Bool) → str_eq (if b then codes "bridge" else codes "none") (codes "bridge") ≡ b
    mode_back true = refl
    mode_back false = refl

    module _ (h : IsStorable config image) (root : J.Value) (has : HasFields root) where
      load_resources-resource_fields :
          load_resources J (add_all J J.new_object (resource_fields J config.options))
          ≡ some (
            config.options.memory_max, config.options.swap_max, config.options.cpu_quota,
            config.options.pids_max,
          )
      unfolding load_resources
      load_resources-resource_fields =
          let fields = resource_fields J config.options in
          rw
            (
              get_field fields (codes "memory_max") refl,
              get_field fields (codes "swap_max") refl,
              get_field fields (codes "cpu_quota") refl,
              get_field fields (codes "pids_max") refl,
              laws.get_uint64-new_uint64 config.options.memory_max h.memory,
              laws.get_uint64-new_uint64 config.options.swap_max h.swap,
              laws.get_uint64-new_uint64 config.options.cpu_quota h.quota,
              laws.get_uint64-new_uint64 config.options.pids_max h.pids,
            )
            refl

      load_arrays-HasFields :
          load_arrays J root
          ≡ some (record {
            environment = config.options.environment;
            command = config.command;
            publishes = config.options.publishes;
            mounts = config.options.mounts;
            denies = some (denied_names config.options.seccomp_denies);
          })
      unfolding load_arrays
      load_arrays-HasFields =
          let nonempty : length (map J.new_string config.command) == 0 ≡ false =
            ground (arith, length-map J.new_string config.command, h.command) in
          rw
            (
              array_of-array root (codes "environment") _ has.environment,
              array_of-array root (codes "command") _ has.command,
              array_of-array root (codes "publishes") _ has.publishes,
              has.mounts,
              has.denies,
              nonempty,
              load_each-map IsWords (load_publish J) (publish_json J) load_publish-publish_json
                  config.options.publishes h.publishes,
              laws.is_array-array (map (mount_json J) config.options.mounts),
              laws.items-array (map (mount_json J) config.options.mounts),
              load_each-map IsMountWords (load_mount J) (mount_json J) load_mount-mount_json
                  config.options.mounts h.mounts,
              laws.is_array-array (map J.new_string (denied_names config.options.seccomp_denies)),
              laws.items-array (map J.new_string (denied_names config.options.seccomp_denies)),
              strings_back config.options.environment,
              strings_back config.command,
              strings_back (denied_names config.options.seccomp_denies),
            )
            refl

      copy :
          (key text : Bytes)
          → J.get root key ≡ some (J.new_string text)
          → copy_string J root key ≡ some text
      unfolding new_text
      copy key text e = copy_string-new_text root key (some text) e

      load_scalars-HasFields :
          load_scalars J root
          ≡ some (
            record default_options {
              image = some image;
              name = config.options.name;
              workdir = config.options.workdir;
              user = config.options.user;
              group = config.options.group;
              capability_mask = config.options.capability_mask;
              readonly_root = config.options.readonly_root;
              network_bridge = config.options.network_bridge;
              memory_max = config.options.memory_max;
              swap_max = config.options.swap_max;
              cpu_quota = config.options.cpu_quota;
              pids_max = config.options.pids_max;
            },
            config.ipv4_host,
          )
      unfolding load_scalars
      load_scalars-HasFields =
          rw
            (
              has.image_name,
              has.user,
              has.group,
              has.mode,
              has.ipv4,
              has.resources,
              load_resources-resource_fields,
              copy (codes "workdir") config.options.workdir has.workdir,
              copy_string-new_text root (codes "name") config.options.name has.name,
              has.mask,
              has.readonly,
              laws.get_string-new_string image,
              take_all (path_max - 1) image (omega (arith, h.image_fits)),
              laws.get_int64-new_int64 config.options.user (omega (arith, h.user)),
              laws.get_int64-new_int64 config.options.group (omega (arith, h.group)),
              laws.get_int64-new_int64 config.ipv4_host (omega (arith, h.ipv4)),
              mod32 config.options.user h.user,
              mod32 config.options.group h.group,
              mod32 config.ipv4_host h.ipv4,
              laws.get_uint64-new_uint64 config.options.capability_mask h.mask,
              laws.get_boolean-new_boolean config.options.readonly_root,
              laws.get_string-new_string
                  (if config.options.network_bridge then codes "bridge" else codes "none"),
              mode_back config.options.network_bridge,
            )
            refl

      load_document-HasFields : load_document J root ≡ some (restored config image)
      unfolding load_document
      load_document-HasFields =
          rw
            (
              load_scalars-HasFields,
              copy (codes "id") config.id has.id,
              copy (codes "rootfs") config.rootfs has.rootfs,
              copy (codes "hostname") config.hostname has.hostname,
              load_arrays-HasFields,
            )
            refl

    -- The document of a configuration whose numbers are in the ranges of their types, whose bind
    -- mounts have a source, whose image path is shorter than PATH_MAX (4096), and which has a command,
    -- is loaded as that configuration, with the image and the host name that were used, not detached,
    -- and an empty list of denied system calls where there was none, whatever the time and the version
    -- are.
    pub load_document-config_json :
        IsStorable config image
        → load_document J (config_json J stamp config image) ≡ some (restored config image)
    load_document-config_json h =
        load_document-HasFields h (config_json J stamp config image) config_json-HasFields

    pub get-config_json_name :
        J.get (config_json J stamp config image) (codes "name") ≡ new_text config.options.name
    get-config_json_name = config_json-HasFields.name

    pub get-config_json_publishes :
        J.get (config_json J stamp config image) (codes "publishes")
        ≡ some (J.array (map (publish_json J) config.options.publishes))
    get-config_json_publishes = config_json-HasFields.publishes

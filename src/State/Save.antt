-- ===== src/State/Save.antt =====
-- state/store.c: what a new container adds to the registry, and what its removal takes away:
-- mc_state_save_config, mc_state_mark_created and mc_state_remove.
use minicontainer.Base.{
  ℕ, ◌+◌, Bool, true, false, not, ◌&&◌, ◌||◌, Option, none, some, List, [], ◌∷◌, ◌++◌, Bytes, codes,
  length, leb, ltb, if◌then◌else◌, any, str_eq,
}
use minicontainer.Network.{Publish}
use minicontainer.Launch.{RunConfig}
use minicontainer.State.Json.{Json}
use minicontainer.State.Registry.{
  World, Leaf, config, state, Listing, opened, missing, unreadable, exit_conflict, exit_runtime,
  path_max, path_fits, name_is_taken, published_port_is_taken,
}
use minicontainer.State.Reconcile.{Outcome, written, kept, unsynced}
use minicontainer.State.Document.{Stamp, config_json}

abbrev pub exit_internal : ℕ
exit_internal = 125

abbrev pub same_leaf : Leaf → Leaf → Bool
same_leaf config config = true
same_leaf state state = true
same_leaf a b = false

-- The directory of a container stands in the listing of the registry.
abbrev pub list_directory : Bytes → Listing → Listing
list_directory id (opened ids) =
    if any (str_eq id) ids then opened ids else opened (ids ++ (id ∷ []))
list_directory id missing = opened (id ∷ [])
list_directory id unreadable = unreadable

abbrev pub without : Bytes → List Bytes → List Bytes
without id [] = []
without id (other ∷ ids) = if str_eq id other then without id ids else other ∷ without id ids

abbrev pub unlist_directory : Bytes → Listing → Listing
unlist_directory id (opened ids) = opened (without id ids)
unlist_directory id missing = missing
unlist_directory id unreadable = unreadable

-- The document of mc_state_mark_created.
abbrev pub created_document : Bytes → Bytes
created_document id =
    codes "{\"schema_version\":1,\"id\":\""
    ++ (id
        ++ codes
            "\",\"status\":\"created\",\"shim_pid\":0,\"shim_start_time\":0,\"init_pid\":0,\"init_start_time\":0,\"exit_code\":0,\"cgroup_path\":\"\"}\n")

module _ (J : Json) where
  -- What the calls of one command do: the ports that can be bound, the code with which mc_mkdir_p
  -- fails, and what mc_write_atomic does to each leaf.
  pub record Calls : Type 0 where
    pub can_bind : Publish → Bool
    pub mkdir_error : Option ℕ
    pub outcome : Leaf → Outcome
    pub remove_works : Bool
    pub text : Bytes → J.Text

  unfoldable pub put : World J → Bytes → Leaf → J.Text → World J
  put w id leaf text = record w {
    file = λ j l. if str_eq j id && same_leaf l leaf then some text else w.file j l;
  }

  -- mc_write_atomic of a leaf: the registry after it, and the code where it fails.
  abbrev pub write_leaf : Calls → World J → Bytes → Leaf → J.Text → World J × Option ℕ
  write_leaf calls w id leaf text = elim (calls.outcome leaf) [
    | written ↦ (put w id leaf text, none)
    | kept ↦ (w, some exit_runtime)
    | unsynced ↦ (put w id leaf text, some exit_runtime)
  ]

  -- "%s/containers/%s/" fits the buffer.
  abbrev pub directory_fits : World J → Bytes → Bool
  directory_fits w id = ltb (w.state_dir_length + 13 + length id) path_max

  abbrev pub make_directory : World J → Bytes → World J
  make_directory w id = record w { listing = list_directory id w.listing }

  abbrev pub all_can_bind : Calls → List Publish → Bool
  all_can_bind calls [] = true
  all_can_bind calls (p ∷ ps) = calls.can_bind p && all_can_bind calls ps

  -- The directory may be made in part where mc_mkdir_p fails; nothing of it is then listed.
  abbrev pub write_config : Calls → World J → Stamp → RunConfig → Bytes → World J × Option ℕ
  write_config calls w stamp c image =
      if not (directory_fits w c.id) || not (path_fits J w c.id config)
      then (w, some 0)
      else (elim calls.mkdir_error [
        | some code ↦ (w, some code)
        | none ↦
            write_leaf calls (make_directory w c.id) c.id config
              (J.print (config_json J stamp c image))
      ])

  unfoldable pub save_config : Calls → World J → Stamp → RunConfig → Bytes → World J × Option ℕ
  save_config calls w stamp c image =
      if name_is_taken J w c.options.name c.id
      then (w, some exit_conflict)
      else if published_port_is_taken J w c.options.publishes c.id
      then (w, some exit_conflict)
      else if not (all_can_bind calls c.options.publishes)
      then (w, some exit_conflict)
      else write_config calls w stamp c image

  unfoldable pub mark_created : Calls → World J → Bytes → World J × Option ℕ
  mark_created calls w id =
      if leb 256 (length (created_document id)) || not (path_fits J w id state)
      then (w, some exit_internal)
      else write_leaf calls w id state (calls.text (created_document id))

  -- The removal of both directory trees; where it fails, what is left of them is not modelled.
  unfoldable pub remove : Calls → World J → Bytes → World J × Option ℕ
  remove calls w id =
      if not (directory_fits w id)
      then (w, some 0)
      else if calls.remove_works
      then (
        record w {
          listing = unlist_directory id w.listing;
          file = λ j l. if str_eq j id then none else w.file j l;
        },
        none,
      )
      else (w, some exit_runtime)

-- ===== src/State/Reconcile.antt =====
-- mc_state_reconcile: containers that are recorded as running under a shim that is gone are marked
-- as stopped, and what they left behind is removed.
use minicontainer.Base.{
  ℕ, Bool, true, false, not, ◌&&◌, ◌||◌, Option, none, some, List, [], ◌∷◌, ◌++◌, Bytes, codes,
  length, ◌==◌, if◌then◌else◌, ◌>>=◌, str_eq, starts_with,
}
use minicontainer.State.Json.{Json}
use minicontainer.State.Registry.{
  World, Leaf, config, state, opened, missing, unreadable, exit_runtime, is_hidden, id_length,
}
use minicontainer.State.Identity.{contains, is_alive, state_of, running, recorded}

-- What mc_write_atomic does to a file: it replaces it and returns 0, leaves it and returns -1, or
-- replaces it and returns -1, where the directory cannot be synced.
pub data Outcome : Type 0 where
  written kept unsynced : Outcome

-- What happens beside the writes: the write of "1" to cgroup.kill, remove_ephemeral_paths and
-- mc_network_cleanup_owned. None of their results is looked at.
pub data Effect : Type 0 where
  kill_cgroup : (cgroup : Bytes) → Effect
  remove_ephemeral : (id : Bytes) → Effect
  network_cleanup : (id : Bytes) → Effect

abbrev pub is_state : Leaf → Bool
is_state config = false
is_state state = true

module _ (J : Json) where
  -- The exit code of the error, and 0 where the call returns 0.
  pub record Reconciled : Type 0 where
    pub world : World J
    pub effects : List Effect
    pub status : ℕ

  -- The document of a container that needs repair: recorded as running, with both fields of the
  -- shim's identity, under a shim that is not alive.
  abbrev pub stale_root : World J → J.Value → Option J.Value
  stale_root w root = elim (recorded J root (codes "shim_pid") (codes "shim_start_time")) [
    | none ↦ none
    | some (pid, start) ↦ if is_alive J w pid start then none else some root
  ]

  abbrev pub stale_of : World J → Option J.Value → Option J.Value
  stale_of w document = running J document >>= stale_root w

  unfoldable pub stale : World J → Bytes → Option J.Value
  stale w id =
      if is_hidden id || not (length id == id_length) then none else stale_of w (state_of J w id)

  unfoldable pub repaired : J.Value → J.Value
  repaired root =
      let r1 = J.set root (codes "status") (J.new_string (codes "stopped")) in
      let r2 = J.set r1 (codes "shim_pid") (J.new_int 0) in
      let r3 = J.set r2 (codes "init_pid") (J.new_int 0) in
      let r4 = J.set r3 (codes "exit_code") (J.new_int 125) in
      J.set r4 (codes "cgroup_path") (J.new_string [])

  -- The control group of the container is killed if its path names the container.
  abbrev pub kill_effects : Bytes → J.Value → List Effect
  kill_effects id root = elim (J.get root (codes "cgroup_path")) [
    | none ↦ []
    | some value ↦
        if starts_with (codes "/sys/fs/cgroup/") (J.get_string value)
          && contains id (J.get_string value)
        then kill_cgroup (J.get_string value) ∷ []
        else []
  ]

  -- The file state.json of a container is replaced.
  unfoldable pub store : World J → Bytes → J.Text → World J
  store w id text = record w {
    file = λ j leaf. if str_eq j id && is_state leaf then some text else w.file j leaf;
  }

  module _ (outcome : Bytes → Outcome) where
    unfoldable pub reconcile_loop : List Bytes → World J → List Effect → Reconciled
    reconcile_loop [] w effects = record { world = w; effects = effects; status = 0 }
    reconcile_loop (id ∷ ids) w effects = elim (stale w id) [
      | none ↦ reconcile_loop ids w effects
      | some root ↦
          let killed = effects ++ kill_effects id root in
          let next = store w id (J.print (repaired root)) in
          elim (outcome id) [
            | written ↦
                reconcile_loop ids next (killed ++ (remove_ephemeral id ∷ network_cleanup id ∷ []))
            | kept ↦ record { world = w; effects = killed; status = exit_runtime }
            | unsynced ↦ record { world = next; effects = killed; status = exit_runtime }
          ]
    ]

    unfoldable pub reconcile : World J → Reconciled
    unfolding reconcile_loop
    reconcile w = elim w.listing [
      | opened ids ↦ reconcile_loop ids w []
      | missing ↦ record { world = w; effects = []; status = 0 }
      | unreadable ↦ record { world = w; effects = []; status = exit_runtime }
    ]

-- ===== src/Cli/Create.antt =====
-- cli/main.c: the end of `run` and `create`: the container is registered under the locks, and what a
-- call that fails has left is removed; then the container is started.
use minicontainer.Base.{ℕ, Bool, true, not, Bytes, if◌then◌else◌}
use minicontainer.Launch.{RunConfig}
use minicontainer.State.Json.{Json}
use minicontainer.State.Registry.{World, Result, ok, err, allocate_ip}
use minicontainer.State.Document.{Stamp}
use minicontainer.State.Save.{save_config, mark_created, remove}
use minicontainer.Cli.Commands.{
  System, Call, then_call, unless_taken, code_call, container_lock, reconcile_call,
}

module _ (J : Json) (S : System J) (stamp : Stamp) (image : Bytes) where
  -- `config.network_bridge != 0 && mc_state_allocate_ip(...)`
  abbrev pub address : World J → RunConfig → Result RunConfig
  address w c =
      if not c.options.network_bridge
      then ok c
      else (elim (allocate_ip J w) as (λ _. Result RunConfig) [
        | err code ↦ err code
        | ok ip ↦ ok (record c { ipv4_host = ip })
      ])

  unfoldable pub save_call : World J → RunConfig → Call J Bool
  save_call w c = code_call J (save_config J S.calls w stamp c image)

  abbrev pub created_call : Bool → World J → Bytes → Call J Bool
  created_call create_only w id =
      if create_only then code_call J (mark_created J S.calls w id) else (w, ok true)

  -- The calls up to the first that fails: the configuration that is stored.
  unfoldable pub register_calls : Bool → World J → RunConfig → Call J RunConfig
  register_calls create_only w c = then_call J (unless_taken J S.takes_registry w) λ w _.
      then_call J (reconcile_call J S w) λ w _. then_call J (container_lock J S w c.id) λ w _.
        then_call J (w, address w c)
          λ w stored.
            then_call J (save_call w stored)
              λ w _. then_call J (created_call create_only w c.id) λ w _. (w, ok stored)

  -- The code of the first error; that of the removal is not looked at.
  abbrev pub clean_up : Bytes → Call J RunConfig → Call J RunConfig
  clean_up id (w, ok stored) = (w, ok stored)
  clean_up id (w, err code) = ((remove J S.calls w id).0, err code)

  unfoldable pub register : Bool → World J → RunConfig → Call J RunConfig
  register create_only w c = clean_up c.id (register_calls create_only w c)

  -- What main returns after the options: 0 for create, and for run what the shim returns.
  unfoldable pub finish : Bool → World J → RunConfig → Call J ℕ
  finish create_only w c =
      then_call J (register create_only w c)
        λ w stored. if create_only then (w, ok 0) else (w, S.launch stored)

-- ===== src/Linux/Released.antt =====
-- linux/container.c: what mc_container_run leaves behind, and what it returns.
use minicontainer.Base.{
  ℕ, ◌<◌, ◌≡◌, ◌≢◌, ◌⊎◌, Bool, true, false, not, Option, none, some, codes, All, Exists, is_some,
  ◌&&◌,
}
use minicontainer.Launch.{RunConfig}
use minicontainer.State.Registry.{Result, ok}
use minicontainer.Linux.Cgroup.{Cgroup, create}
use minicontainer.Linux.Run.{failed, ended, Host, Held, nothing_held, refused}

-- Nothing that was made is held: no child, no active control group, no network, no descriptor that was
-- opened, no signal handler.
pub record IsReleased (held : Held) : Type 0 where
  pub child : held.child ≡ false
  pub cgroup : held.cgroup.active ≡ false
  pub network : held.network ≡ false
  pub barrier_read : held.barrier_read ≡ false
  pub barrier_write : held.barrier_write ≡ false
  pub ready_read : held.ready_read ≡ false
  pub ready_write : held.ready_write ≡ false
  pub pidfd : held.pidfd ≡ false
  pub listener : held.listener ≡ false
  pub forwarders : held.forwarders ≡ false

-- Whether mc_container_run comes to create the child.
abbrev pub has_child : Host → RunConfig → Bool
has_child H config =
    not (is_some (refused H config))
    && (not (is_some (create H.kernel config).1)
        && (not (is_some H.prepare_error) && (H.barrier_opens && (H.ready_opens && H.clones))))

-- The call has returned, holds nothing that it made, and either failed or returned the code that it
-- recorded; `ready_fd` tells whether the descriptor of the caller is open.
pub record IsDone (H : Host) (ready_fd : Bool) (answer : Option (Held × Result ℕ)) : Type 0 where
  pub held : Held
  pub result : Result ℕ
  pub returned : answer ≡ some (held, result)
  pub released : IsReleased held
  pub ready : held.ready_fd ≡ ready_fd
  pub code :
      (n : ℕ)
      → result ≡ ok n
      → (n < 256)
        × ((H.last_error ≡ none)
            → (held.recorded ≡ some (codes "stopped", n))
              ⊎ (held.recorded ≡ some (codes "failed", n)))

module _ (H : Host) (config : RunConfig) (ready_fd : Bool) where
  module _ (returns : Exists (λ w. (status : ℕ) × (w ≡ ended status)) H.waits)
      (waits : All (λ w. w ≢ failed) H.waits) (opens : H.ready_opens ≡ true) where
    -- The state behind both calls of pipe2.
    abbrev piped : Cgroup → Held
    piped cgroup = record (nothing_held ready_fd cgroup) {
      barrier_read = true;
      barrier_write = true;
      ready_read = true;
      ready_write = true;
    }

-- ===== src/State/Sweep.antt =====
-- The loop of a reconciliation, and the whole call.
use minicontainer.Base.{
  ℕ, ◌≡◌, refl, ap, ◌∙◌, Option, none, some, List, [], ◌∷◌, ◌++◌, arith, Bytes, All,
}
use minicontainer.State.Json.{Json, IsJson}
use minicontainer.State.Registry.{
  World, Leaf, config, opened, missing, unreadable, exit_runtime, Listing,
}
use minicontainer.State.Reconcile.{
  Outcome, written, kept, unsynced, Effect, remove_ephemeral, network_cleanup, Reconciled, stale,
  repaired, kill_effects, store, reconcile_loop, reconcile,
}
use minicontainer.State.Stale.{
  IsReconciliation, IsReconciliation-refl, IsReconciliation-trans, store-IsReconciliation,
  stale-store_self,
}

module _ (J : Json) (L : IsJson J) (outcome : Bytes → Outcome) where
  -- What a loop over the listed containers leaves.
  record IsSwept (ids : List Bytes) (w : World J) (r : Reconciled J) : Type 0 where
    kept_alone : IsReconciliation J L w r.world
    calm : r.status ≡ 0 → All (λ id. stale J r.world id ≡ none) ids

  done-IsSwept :
      (w : World J) (effects : List Effect) → IsSwept [] w (reconcile_loop J outcome [] w effects)
  unfolding reconcile_loop
  done-IsSwept w effects = record { kept_alone = IsReconciliation-refl J L w; calm = λ _. tt }

  -- The rest of the round for one container, once its document is known.
  round : List Bytes → World J → List Effect → Bytes → Option J.Value → Reconciled J
  round ids w effects id none = reconcile_loop J outcome ids w effects
  round ids w effects id (some root) =
      let killed = effects ++ kill_effects J id root in
      let next = store J w id (J.print (repaired J root)) in
      elim (outcome id) [
        | written ↦
            reconcile_loop J outcome ids next
              (killed ++ (remove_ephemeral id ∷ network_cleanup id ∷ []))
        | kept ↦ record { world = w; effects = killed; status = exit_runtime }
        | unsynced ↦ record { world = next; effects = killed; status = exit_runtime }
      ]

  reconcile_loop-round :
      (id : Bytes) (ids : List Bytes) (w : World J) (effects : List Effect)
      → reconcile_loop J outcome (id ∷ ids) w effects ≡ round ids w effects id (stale J w id)
  unfolding reconcile_loop round
  reconcile_loop-round id ids w effects = go (stale J w id)
    where
      go :
          (o : Option J.Value)
          → (elim o [
            | none ↦ reconcile_loop J outcome ids w effects
            | some root ↦ round ids w effects id (some root)
          ])
            ≡ round ids w effects id o
      go none = refl
      go (some root) = refl

  round-IsSwept :
      (id : Bytes) (ids : List Bytes) (w : World J) (effects : List Effect) (o : Option J.Value)
      → stale J w id ≡ o
      → ((v : World J) (more : List Effect) → IsSwept ids v (reconcile_loop J outcome ids v more))
      → IsSwept (id ∷ ids) w (round ids w effects id o)
  unfolding round
  round-IsSwept id ids w effects none s ih =
      let rest = ih w effects in
      record { kept_alone = rest.kept_alone; calm = λ e. (rest.kept_alone.calm id s, rest.calm e) }
  round-IsSwept id ids w effects (some root) s ih = go (outcome id)
    where
      next : World J
      next = store J w id (J.print (repaired J root))

      killed : List Effect
      killed = effects ++ kill_effects J id root

      changed : IsReconciliation J L w next
      changed = store-IsReconciliation J L w id root {found = root} s

      no_success : ◌≡◌ {A = ℕ} exit_runtime 0 → ⊥
      no_success e = omega arith

      go :
          (out : Outcome)
          → IsSwept (id ∷ ids) w (elim out [
            | written ↦
                reconcile_loop J outcome ids next
                  (killed ++ (remove_ephemeral id ∷ network_cleanup id ∷ []))
            | kept ↦ record { world = w; effects = killed; status = exit_runtime }
            | unsynced ↦ record { world = next; effects = killed; status = exit_runtime }
          ])
      go written =
          let rest = ih next (killed ++ (remove_ephemeral id ∷ network_cleanup id ∷ [])) in
          record {
            kept_alone = IsReconciliation-trans J L w next _ changed rest.kept_alone;
            calm = λ e. (rest.kept_alone.calm id (stale-store_self J L w id root), rest.calm e);
          }
      go kept = record {
        kept_alone = IsReconciliation-refl J L w;
        calm = λ e. absurd (no_success e);
      }
      go unsynced = record { kept_alone = changed; calm = λ e. absurd (no_success e) }

  reconcile_loop-IsSwept :
      (ids : List Bytes) (w : World J) (effects : List Effect)
      → IsSwept ids w (reconcile_loop J outcome ids w effects)
  reconcile_loop-IsSwept [] w effects = done-IsSwept w effects
  reconcile_loop-IsSwept (id ∷ ids) w effects = rw (reconcile_loop-round id ids w effects) (
      round-IsSwept id ids w effects (stale J w id) refl
        (λ v more. reconcile_loop-IsSwept ids v more))

  round_calm :
      (ids : List Bytes) (w : World J) (effects : List Effect) (id : Bytes)
      → round ids w effects id none ≡ reconcile_loop J outcome ids w effects
  unfolding round
  round_calm ids w effects id = refl

  loop_nil :
      (w : World J) (effects : List Effect)
      → reconcile_loop J outcome [] w effects ≡ record { world = w; effects = effects; status = 0 }
  unfolding reconcile_loop
  loop_nil w effects = refl

  reconcile_loop-calm :
      (ids : List Bytes) (w : World J) (effects : List Effect)
      → All (λ id. stale J w id ≡ none) ids
      → reconcile_loop J outcome ids w effects ≡ record { world = w; effects = effects; status = 0 }
  reconcile_loop-calm [] w effects h = loop_nil w effects
  reconcile_loop-calm (id ∷ ids) w effects h =
      reconcile_loop-round id ids w effects
      ∙ (ap (λ o. round ids w effects id o) h.0
          ∙ (round_calm ids w effects id ∙ reconcile_loop-calm ids w effects h.1))

  reconcile_lem :
      (w : World J) (ids : List Bytes)
      → w.listing ≡ opened ids
      → reconcile J outcome w ≡ reconcile_loop J outcome ids w []
  unfolding reconcile
  reconcile_lem w ids e = rw e refl

  -- A reconciliation, whatever it returns, writes no configuration and lists the same directories.
  pub reconcile-IsReconciliation :
      (w : World J) → IsReconciliation J L w (reconcile J outcome w).world
  unfolding reconcile
  reconcile-IsReconciliation w = go w.listing refl
    where
      go :
          (listing : Listing)
          → w.listing ≡ listing
          → IsReconciliation J L w
              (elim listing as (λ _. Reconciled J) [
                | opened ids ↦ reconcile_loop J outcome ids w []
                | missing ↦ record { world = w; effects = []; status = 0 }
                | unreadable ↦ record { world = w; effects = []; status = exit_runtime }
              ]).world
      go (opened ids) e = (reconcile_loop-IsSwept ids w []).kept_alone
      go missing e = IsReconciliation-refl J L w
      go unreadable e = IsReconciliation-refl J L w

  -- After a reconciliation that returns 0 no container of the registry is recorded as running under
  -- a shim that is gone; and whatever it returns, a container that was not stale keeps both its
  -- files, and no configuration is written.
  pub reconcile_sound :
      (w : World J) (ids : List Bytes)
      → w.listing ≡ opened ids
      → ((reconcile J outcome w).status ≡ 0
          → All (λ id. stale J (reconcile J outcome w).world id ≡ none) ids)
        × ((j : Bytes)
            → stale J w j ≡ none
            → (leaf : Leaf) → (reconcile J outcome w).world.file j leaf ≡ w.file j leaf)
        × ((j : Bytes) → (reconcile J outcome w).world.file j config ≡ w.file j config)
  reconcile_sound w ids e = rw (reconcile_lem w ids e) (
      let swept = reconcile_loop-IsSwept ids w [] in
      (swept.calm, swept.kept_alone.files, swept.kept_alone.configs))

  -- A second reconciliation, after one that returned 0, changes nothing: it writes no file, kills no
  -- control group, removes nothing, and returns 0.
  pub reconcile_twice :
      (w : World J) (ids : List Bytes)
      → w.listing ≡ opened ids
      → (reconcile J outcome w).status ≡ 0
      → let after = (reconcile J outcome w).world in
        reconcile J outcome after ≡ record { world = after; effects = []; status = 0 }
  reconcile_twice w ids e success =
      let (calm, files, configs) = reconcile_sound w ids e in
      let same : (reconcile J outcome w).world.listing ≡ opened ids = listing_kept ∙ e in
      reconcile_lem (reconcile J outcome w).world ids same
      ∙ reconcile_loop-calm ids (reconcile J outcome w).world [] (calm success)
    where
      listing_kept : (reconcile J outcome w).world.listing ≡ w.listing
      listing_kept = rw (reconcile_lem w ids e) (reconcile_loop-IsSwept ids w []).kept_alone.listing

-- ===== src/Cli/Registered.antt =====
-- cli/main.c and state/store.c: run and create keep the containers of the registry apart.
use minicontainer.Base.{
  ℕ, ◌+◌, ◌≡◌, refl, sym, ap, ◌∙◌, Bool, true, false, not, Option, none, some, Bytes, length, All,
  ◌==◌, ltb, if◌then◌else◌, subst,
}
use minicontainer.Cli.{Options}
use minicontainer.Launch.{RunConfig}
use minicontainer.State.Json.{Json, IsJson}
use minicontainer.State.Registry.{World, config, Result, ok, err, allocate_ip}
use minicontainer.State.Document.{Stamp}
use minicontainer.State.Stored.{IsWords}
use minicontainer.State.Reconcile.{reconcile}
use minicontainer.State.Sweep.{reconcile-IsReconciliation}
use minicontainer.State.Save.{make_directory, save_config, mark_created}
use minicontainer.State.Exclusive.{IsExclusive}
use minicontainer.State.Saved.{save_config-IsExclusive}
use minicontainer.State.Kept.{
  IsExclusive-within, reconcile-IsWithin, mark_created-IsWithin, remove-IsWithin,
  make_directory-IsExclusive,
}
use minicontainer.Cli.Commands.{
  System, Call, then_call, unless_taken, code_call, container_lock, reconcile_call,
}
use minicontainer.Cli.Create.{address, save_call, created_call, register_calls, clean_up, register}

module _ (J : Json) where
  -- A property of the registry before and after a call.
  keeps :
      {A B : Type 0} (P Q : World J → Type 0) (m : Call J A) (next : World J → A → Call J B)
      → ((w : World J) → P w → Q w)
      → P m.0
      → ((w : World J) (a : A) → m.1 ≡ ok a → P w → Q (next w a).0)
      → Q (then_call J m next).0
  keeps P Q (w, ok a) next weaker p after = after w a refl p
  keeps P Q (w, err code) next weaker p after = weaker w p

  unless_taken-keeps :
      (P : World J → Type 0) (b : Bool) (w : World J) → P w → P (unless_taken J b w).0
  unless_taken-keeps P true w p = p
  unless_taken-keeps P false w p = p

  code_call-keeps : (P : World J → Type 0) (m : World J × Option ℕ) → P m.0 → P (code_call J m).0
  code_call-keeps P (w, none) p = p
  code_call-keeps P (w, some code) p = p

  container_lock-keeps :
      (P : World J → Type 0) (S : System J) (w : World J) (id : Bytes)
      → P w
      → P (make_directory J w id)
      → P (container_lock J S w id).0
  unfolding container_lock
  container_lock-keeps P S w id p made = choose _ _ _ p (locked S.calls.mkdir_error)
    where
      choose : (b : Bool) (x y : Call J Bool) → P x.0 → P y.0 → P (if b then x else y).0
      choose true x y h k = h
      choose false x y h k = k

      locked :
          (o : Option ℕ)
          → P
              (elim o as (λ _. Call J Bool) [
                | some code ↦ (w, err (if code == 0 then 7 else code))
                | none ↦
                    let made = make_directory J w id in
                    if ltb (w.state_dir_length + 27 + length id) 4096
                    then unless_taken J S.takes_container made
                    else (made, err 7)
              ]).0
      locked none = choose _ _ _ (unless_taken-keeps P S.takes_container _ made) made
      locked (some code) = p

  reconcile_call-keeps :
      (P : World J → Type 0) (S : System J) (w : World J)
      → P (reconcile J S.reconciled w).world
      → P (reconcile_call J S w).0
  reconcile_call-keeps P S w p = go ((reconcile J S.reconciled w).status == 0)
    where
      go :
          (b : Bool)
          → P
              (if◌then◌else◌ {A = Call J Bool} b
                ((reconcile J S.reconciled w).world, ok true)
                ((reconcile J S.reconciled w).world, err (reconcile J S.reconciled w).status)).0
      go true = p
      go false = p

  module _ (laws : IsJson J) (S : System J) (stamp : Stamp) (image : Bytes) (id : Bytes) where
    abbrev IsFresh : World J → Type 0
    IsFresh w = IsExclusive J w × (w.file id config ≡ none)

    IsFresh-reconcile : (w : World J) → IsFresh w → IsFresh (reconcile J S.reconciled w).world
    IsFresh-reconcile w h = (
      IsExclusive-within J w _ (reconcile-IsWithin J laws S.reconciled w) h.0,
      (reconcile-IsReconciliation J laws S.reconciled w).configs id ∙ h.1,
    )

    pub address-words :
        (w : World J) (c : RunConfig) {stored : RunConfig}
        → address J S stamp image w c ≡ ok stored
        → (stored.id ≡ c.id) × (stored.options ≡ c.options)
    address-words w c {stored} e = go (not c.options.network_bridge) (allocate_ip J w) e
      where
        same : (c' : RunConfig) → ok c' ≡ ok stored → c' ≡ stored
        same c' q = cc

        found :
            (r : Result ℕ)
            → (elim r as (λ _. Result RunConfig) [
              | err code ↦ err code
              | ok ip ↦ ok (record c { ipv4_host = ip })
            ])
              ≡ ok stored
            → (stored.id ≡ c.id) × (stored.options ≡ c.options)
        found (ok ip) q =
            let s = same (record c { ipv4_host = ip }) q in
            (sym (ap (λ (r : RunConfig). r.id) s), sym (ap (λ (r : RunConfig). r.options) s))
        found (err code) q = cc

        go :
            (b : Bool) (r : Result ℕ)
            → (if b then ok c else (elim r as (λ _. Result RunConfig) [
              | err code ↦ err code
              | ok ip ↦ ok (record c { ipv4_host = ip })
            ]))
              ≡ ok stored
            → (stored.id ≡ c.id) × (stored.options ≡ c.options)
        go true r q = (
          sym (ap (λ (r : RunConfig). r.id) (same c q)),
          sym (ap (λ (r : RunConfig). r.options) (same c q)),
        )
        go false r q = found r q

    created-keeps :
        (create_only : Bool) (w : World J)
        → IsExclusive J w
        → IsExclusive J (created_call J S stamp image create_only w id).0
    created-keeps true w h =
        code_call-keeps (IsExclusive J) (mark_created J S.calls w id)
          (IsExclusive-within J w _ (mark_created-IsWithin J S.calls w id) h)
    created-keeps false w h = h

    clean_up-keeps :
        (m : Call J RunConfig) → IsExclusive J m.0 → IsExclusive J (clean_up J S stamp image id m).0
    clean_up-keeps (w, ok stored) h = h
    clean_up-keeps (w, err code) h = IsExclusive-within J w _ (remove-IsWithin J S.calls w id) h

    save_call-keeps :
        (w : World J) (c : RunConfig)
        → w.file c.id config ≡ none
        → All IsWords c.options.publishes
        → IsExclusive J w
        → IsExclusive J (save_call J S stamp image w c).0
    unfolding save_call
    save_call-keeps w c fresh words h =
        code_call-keeps (IsExclusive J) (save_config J S.calls w stamp c image)
          (save_config-IsExclusive J laws S.calls w stamp c image fresh words h)

    stored-keeps :
        (create_only : Bool) (w : World J) (stored : RunConfig)
        → stored.id ≡ id
        → All IsWords stored.options.publishes
        → IsFresh w
        → IsExclusive J
            (then_call J (save_call J S stamp image w stored) λ w _.
              then_call J (created_call J S stamp image create_only w id) λ w _. (w, ok stored)).0
    stored-keeps create_only w stored own words h =
        keeps (IsExclusive J) (IsExclusive J) (save_call J S stamp image w stored) _ (λ w h. h)
          (save_call-keeps w stored (subst (λ i. w.file i config ≡ none) (sym own) h.1) words h.0)
          (λ w _ _ saved.
            keeps (IsExclusive J) (IsExclusive J) (created_call J S stamp image create_only w id) _
              (λ w h. h) (created-keeps create_only w saved) (λ w _ _ h. h))

  register_calls-keeps :
      (laws : IsJson J) (S : System J) (stamp : Stamp) (image : Bytes) (create_only : Bool)
      (w : World J) (c : RunConfig)
      → w.file c.id config ≡ none
      → All IsWords c.options.publishes
      → IsExclusive J w
      → IsExclusive J (register_calls J S stamp image create_only w c).0
  unfolding register_calls
  register_calls-keeps laws S stamp image create_only w c fresh words old =
      let Fresh = IsFresh laws S stamp image c.id in
      keeps Fresh (IsExclusive J) (unless_taken J S.takes_registry w) _ (λ w h. h.0)
        (unless_taken-keeps Fresh S.takes_registry w (old, fresh))
        (λ w _ _ h.
          keeps Fresh (IsExclusive J) (reconcile_call J S w) _ (λ w h. h.0)
            (reconcile_call-keeps Fresh S w (IsFresh-reconcile laws S stamp image c.id w h))
            (λ w _ _ h.
              keeps Fresh (IsExclusive J) (container_lock J S w c.id) _ (λ w h. h.0)
                (container_lock-keeps Fresh S w c.id h
                  (make_directory-IsExclusive J w c.id h.1 h.0, h.1))
                (λ w _ _ h.
                  keeps Fresh (IsExclusive J) (w, address J S stamp image w c) _ (λ w h. h.0) h
                    (λ v stored e h.
                      let (own, same) = address-words laws S stamp image c.id w c e in
                      stored-keeps laws S stamp image c.id create_only v stored own
                        (subst (λ (o : Options). All IsWords o.publishes) (sym same) words) h))))

  -- run and create keep the names and the published ports of the registry apart, whatever the calls
  -- of the system return and wherever the command fails; the identifier is new, and the numbers of
  -- the publications are in the ranges of their types.
  pub register-IsExclusive :
      IsJson J
      → (S : System J) (stamp : Stamp) (image : Bytes) (create_only : Bool) (w : World J)
        (c : RunConfig)
      → w.file c.id config ≡ none
      → All IsWords c.options.publishes
      → IsExclusive J w
      → IsExclusive J (register J S stamp image create_only w c).0
  unfolding register
  register-IsExclusive laws S stamp image create_only w c fresh words old =
      clean_up-keeps laws S stamp image c.id (register_calls J S stamp image create_only w c)
        (register_calls-keeps laws S stamp image create_only w c fresh words old)

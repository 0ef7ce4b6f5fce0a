-- ===== src/Cli/Calls.antt =====
-- cli/main.c: what has happened where a call of a command returned 0.
use minicontainer.Base.{
  ℕ, ◌+◌, ◌≡◌, refl, sym, ap, Bool, true, false, not, Option, none, some, Bytes, length, ◌==◌, ltb,
  if◌then◌else◌,
}
use minicontainer.State.Json.{Json}
use minicontainer.State.Registry.{World, ok, err}
use minicontainer.State.Reconcile.{reconcile}
use minicontainer.State.Save.{make_directory, directory_fits}
use minicontainer.Cli.Commands.{
  System, Call, then_call, unless_taken, container_lock, reconcile_call,
}

module _ (J : Json) where
  pub then_call-ok :
      {A B : Type 0} (m : Call J A) (next : World J → A → Call J B) {after : World J} {b : B}
      → then_call J m next ≡ (after, ok b)
      → (v : World J) × (a : A) × (m ≡ (v, ok a)) × (next v a ≡ (after, ok b))
  then_call-ok (w, ok a) next e = (w, a, refl, e)
  then_call-ok (w, err code) next {after} {b} e = absurd (clash (ap (λ m. m.1) e))
    where
      clash : err code ≡ ok b → ⊥
      clash q = cc

  pub not_ok :
      {A : Type 0} {w after : World J} {code : ℕ} {a : A} {ℓ : Type 0}
      → ◌≡◌ {A = Call J A} (w, err code) (after, ok a)
      → ℓ
  not_ok {A} {w} {after} {code} {a} e = absurd (clash (ap (λ m. m.1) e))
    where
      clash : err code ≡ ok a → ⊥
      clash q = cc

  pub unless_taken-ok :
      (b : Bool) {a : Bool} (w : World J) {v : World J} → unless_taken J b w ≡ (v, ok a) → v ≡ w
  unless_taken-ok true w e = sym (ap (λ m. m.0) e)
  unless_taken-ok false w e = not_ok e

  pub reconcile_call-ok :
      (S : System J) (w : World J) {v : World J} {a : Bool}
      → reconcile_call J S w ≡ (v, ok a)
      → v ≡ (reconcile J S.reconciled w).world
  reconcile_call-ok S w {v} {a} e = go ((reconcile J S.reconciled w).status == 0) e
    where
      go :
          (b : Bool)
          → (if◌then◌else◌ {A = Call J Bool} b
              ((reconcile J S.reconciled w).world, ok true)
              ((reconcile J S.reconciled w).world, err (reconcile J S.reconciled w).status))
            ≡ (v, ok a)
          → v ≡ (reconcile J S.reconciled w).world
      go true q = sym (ap (λ m. m.0) q)
      go false q = not_ok q

  pub container_lock-ok :
      (S : System J) (w : World J) (id : Bytes) {v : World J} {a : Bool}
      → container_lock J S w id ≡ (v, ok a)
      → v ≡ make_directory J w id
  unfolding container_lock
  container_lock-ok S w id {v} {a} e = fits (not (directory_fits J w id)) S.calls.mkdir_error e
    where
      locked :
          (b : Bool)
          → (if◌then◌else◌ {A = Call J Bool} b
              (unless_taken J S.takes_container (make_directory J w id))
              (make_directory J w id, err 7))
            ≡ (v, ok a)
          → v ≡ make_directory J w id
      locked true q = unless_taken-ok S.takes_container _ q
      locked false q = not_ok q

      made :
          (o : Option ℕ)
          → (elim o as (λ _. Call J Bool) [
            | some code ↦ (w, err (if code == 0 then 7 else code))
            | none ↦
                let made = make_directory J w id in
                if ltb (w.state_dir_length + 27 + length id) 4096
                then unless_taken J S.takes_container made
                else (made, err 7)
          ])
            ≡ (v, ok a)
          → v ≡ make_directory J w id
      made none q = locked (ltb (w.state_dir_length + 27 + length id) 4096) q
      made (some code) q = not_ok q

      fits :
          (b : Bool) (o : Option ℕ)
          → (if◌then◌else◌ {A = Call J Bool} b
              (w, err 7)
              (elim o as (λ _. Call J Bool) [
                | some code ↦ (w, err (if code == 0 then 7 else code))
                | none ↦
                    let made = make_directory J w id in
                    if ltb (w.state_dir_length + 27 + length id) 4096
                    then unless_taken J S.takes_container made
                    else (made, err 7)
              ]))
            ≡ (v, ok a)
          → v ≡ make_directory J w id
      fits true o q = not_ok q
      fits false o q = made o q

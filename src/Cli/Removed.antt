-- ===== src/Cli/Removed.antt =====
-- cli/main.c: what a removal that returns 0 has found and done.
use minicontainer.Base.{
  ℕ, zero, suc, ◌+◌, ◌≡◌, ◌≢◌, inl, inr, refl, sym, ap, ◌∙◌, Bool, true, false, not, Option, none,
  some, List, [], ◌∷◌, Bytes, if◌then◌else◌, str_eq, str_eq_iff, str_eq_refl, not_iff, Exists,
  subst,
}
use minicontainer.State.Json.{Json}
use minicontainer.State.Registry.{
  World, Leaf, Listing, opened, missing, unreadable, Result, ok, err, resolve,
}
use minicontainer.State.Identity.{get_status}
use minicontainer.State.Reconcile.{reconcile}
use minicontainer.State.Save.{
  Calls, without, unlist_directory, make_directory, directory_fits, remove,
}
use minicontainer.State.Exclusive.{Listed}
use minicontainer.Cli.Commands.{
  System, Call, then_call, unless_taken, code_call, container_lock, reconcile_call, signal_call,
  status_after, is_running, rm_arguments, await_kill, rm_running, rm_found, rm, sigkill,
}
use minicontainer.Cli.Calls.{
  then_call-ok, not_ok, unless_taken-ok, reconcile_call-ok, container_lock-ok,
}

module _ (J : Json) where
  -- The registry in which the container was found stopped, and the registry after its removal.
  pub record IsRemoval (S : System J) (w : World J) (force : Bool) (reference : Bytes)
      (after : World J) (id : Bytes) : Type 0 where
    pub resolved : resolve J (reconcile J S.reconciled w).world reference ≡ ok id
    pub found : World J
    pub status : Bytes
    pub pid : ℕ
    pub read : get_status J found id ≡ ok (status, pid)
    pub stopped : is_running status ≡ false
    pub unforced : force ≡ false → found ≡ make_directory J (reconcile J S.reconciled w).world id
    pub gone : (leaf : Leaf) → after.file id leaf ≡ none
    pub unlisted : ¬ Listed J after.listing id
    pub others : (j : Bytes) → j ≢ id → (leaf : Leaf) → after.file j leaf ≡ found.file j leaf

  abbrev HasStatus : Bytes → World J × Bytes → Type 0
  HasStatus id (w, status) = (pid : ℕ) × (get_status J w id ≡ ok (status, pid))

  impossible : {A : Type 0} → ◌≡◌ {A = Bool} true false → A
  impossible e = absurd (clash e)
    where
      clash : ◌≡◌ {A = Bool} true false → ⊥
      clash q = cc

  -- The loop ends with another status than "running" only where the registry has it.
  await_kill-HasStatus :
      (S : System J) (id : Bytes) (rounds attempt : ℕ) (w : World J) (status : Bytes)
      → is_running status ≡ true
      → is_running (await_kill J S id rounds attempt w status).1 ≡ false
      → HasStatus id (await_kill J S id rounds attempt w status)
  unfolding await_kill
  await_kill-HasStatus S id zero attempt w status r s = impossible (sym r ∙ s)
  await_kill-HasStatus S id (suc rounds) attempt w status r s =
      round (get_status J (S.poll attempt) id) refl _
        (await_kill-HasStatus S id rounds (attempt + 1) (S.poll attempt)
          (status_after J (S.poll attempt) id status))
        s
    where
      stop :
          (read : Bytes) (pid : ℕ) (b : Bool) (later : World J × Bytes)
          → is_running read ≡ b
          → get_status J (S.poll attempt) id ≡ ok (read, pid)
          → (is_running read ≡ true → is_running later.1 ≡ false → HasStatus id later)
          → is_running (if b then later else (S.poll attempt, read)).1 ≡ false
          → HasStatus id (if b then later else (S.poll attempt, read))
      stop read pid true later e g ih q = ih e q
      stop read pid false later e g ih q = (pid, g)

      round :
          (o : Result (Bytes × ℕ))
          → get_status J (S.poll attempt) id ≡ o
          → (later : World J × Bytes)
          → (is_running (elim o [ ok (read, pid) ↦ read | err code ↦ status ]) ≡ true
              → is_running later.1 ≡ false
              → HasStatus id later)
          → is_running
              (elim o as (λ _. World J × Bytes) [
                | err code ↦ later
                | ok (read, pid) ↦ if is_running read then later else (S.poll attempt, read)
              ]).1
            ≡ false
          → HasStatus id (elim o as (λ _. World J × Bytes) [
            | err code ↦ later
            | ok (read, pid) ↦ if is_running read then later else (S.poll attempt, read)
          ])
      round (ok (read, pid)) g later ih q = stop read pid (is_running read) later refl g ih q
      round (err code) g later ih q = ih r q

  -- The container that rm removes was found stopped; without --force before any signal.
  rm_running-ok :
      (S : System J) (force : Bool) (w : World J) (id status : Bytes) (pid : ℕ) {v : World J}
      {a : Bool}
      → get_status J w id ≡ ok (status, pid)
      → rm_running J S force w id status ≡ (v, ok a)
      → (last : Bytes) × HasStatus id (v, last)
        × (is_running last ≡ false)
        × (force ≡ false → v ≡ w)
  unfolding rm_running
  rm_running-ok S force w id status pid {v} {a} read e = start (is_running status) refl e
    where
      Found : Type 0
      Found =
          (last : Bytes) × HasStatus id (v, last)
          × (is_running last ≡ false)
          × (force ≡ false → v ≡ w)

      killed : World J → Call J Bool
      killed u =
          let (found, last) = await_kill J S id 100 0 u status in
          if is_running last then (found, err 7) else (found, ok true)

      ended :
          (r : World J × Bytes) (b : Bool)
          → is_running r.1 ≡ b
          → (is_running r.1 ≡ false → HasStatus id r)
          → force ≡ true
          → (if◌then◌else◌ {A = Call J Bool} b (r.0, err 7) (r.0, ok true)) ≡ (v, ok a)
          → Found
      ended r true e' has f q = not_ok J q
      ended r false e' has f q =
          let same : v ≡ r.0 = sym (ap (λ m. m.0) q) in
          (
            r.1,
            subst (λ x. HasStatus id (x, r.1)) (sym same) (has e'),
            e',
            λ n. impossible (sym f ∙ n),
          )

      forced :
          is_running status ≡ true
          → force ≡ true
          → then_call J (signal_call J S w sigkill id) (λ u _. killed u) ≡ (v, ok a)
          → Found
      forced r f q =
          let (u, t, m, k) = then_call-ok J (signal_call J S w sigkill id) (λ u _. killed u) q in
          ended (await_kill J S id 100 0 u status) _ refl
            (await_kill-HasStatus S id 100 0 u status r) f k

      by_force :
          (f : Bool)
          → is_running status ≡ true
          → force ≡ f
          → (if not f
              then (w, err 4)
              else then_call J (signal_call J S w sigkill id) (λ u _. killed u))
            ≡ (v, ok a)
          → Found
      by_force true r f q = forced r f q
      by_force false r f q = not_ok J q

      start :
          (b : Bool)
          → is_running status ≡ b
          → (if not b
              then (w, ok true)
              else if not force
              then (w, err 4)
              else then_call J (signal_call J S w sigkill id) (λ u _. killed u))
            ≡ (v, ok a)
          → Found
      start true r q = by_force force r refl q
      start false r q =
          let same : v ≡ w = sym (ap (λ m. m.0) q) in
          (status, subst (λ x. HasStatus id (x, status)) (sym same) (pid, read), r, λ n. same)

  Listed-without : (id : Bytes) (ids : List Bytes) → ¬ Exists (λ other. id ≡ other) (without id ids)
  Listed-without id [] m = elim m [ ]
  Listed-without id (x ∷ ids) m = go (str_eq id x) refl m (Listed-without id ids)
    where
      go :
          (b : Bool)
          → str_eq id x ≡ b
          → Exists (λ other. id ≡ other) (if b then without id ids else x ∷ without id ids)
          → (¬ Exists (λ other. id ≡ other) (without id ids))
          → ⊥
      go true e m ih = ih m
      go false e (inl q) ih = (not_iff _ (str_eq_iff id x)).0 e q
      go false e (inr m) ih = ih m

  Listed-unlist : (id : Bytes) (listing : Listing) → ¬ Listed J (unlist_directory id listing) id
  Listed-unlist id (opened ids) l = Listed-without id ids l
  Listed-unlist id missing l = elim l [ ]
  Listed-unlist id unreadable l = elim l [ ]

  -- The registry without a container.
  pub removed : World J → Bytes → World J
  removed w id = record w {
    listing = unlist_directory id w.listing;
    file = λ j l. if str_eq j id then none else w.file j l;
  }

  pub remove-ok :
      (calls : Calls J) (w : World J) (id : Bytes) {v : World J} {a : Bool}
      → code_call J (remove J calls w id) ≡ (v, ok a)
      → v ≡ removed w id
  unfolding remove removed
  remove-ok calls w id {v} {a} e = go (not (directory_fits J w id)) calls.remove_works e
    where
      go :
          (long works : Bool)
          → code_call J
              (if long then (w, some 0) else if works then (removed w id, none) else (w, some 7))
            ≡ (v, ok a)
          → v ≡ removed w id
      go true works q = not_ok J q
      go false true q = sym (ap (λ m. m.0) q)
      go false false q = not_ok J q

  module _ (w : World J) (id : Bytes) where
    gone-removed : (leaf : Leaf) → (removed w id).file id leaf ≡ none
    unfolding removed
    gone-removed leaf = rw (str_eq_refl id) refl

    Listed-removed : ¬ Listed J (removed w id).listing id
    unfolding removed
    Listed-removed l = Listed-unlist id w.listing l

    others-removed :
        (j : Bytes) → j ≢ id → (leaf : Leaf) → (removed w id).file j leaf ≡ w.file j leaf
    unfolding removed
    others-removed j ne leaf = rw ((not_iff _ (str_eq_iff j id)).1 ne) refl

  rm_found-IsRemoval :
      (S : System J) (w : World J) (force : Bool) (reference : Bytes) (id : Bytes) {after : World J}
      {gone : Bytes}
      → resolve J (reconcile J S.reconciled w).world reference ≡ ok id
      → rm_found J S force (reconcile J S.reconciled w).world id ≡ (after, ok gone)
      → (gone ≡ id) × IsRemoval S w force reference after id
  unfolding rm_found
  rm_found-IsRemoval S w force reference id {after} {gone} resolved e =
      let swept = (reconcile J S.reconciled w).world in
      let (v1, t1, m1, k1) = then_call-ok J (container_lock J S swept id) _ e in
      let (v2, (status, pid), m2, k2) = then_call-ok J (v1, get_status J v1 id) _ k1 in
      let (v3, t3, m3, k3) = then_call-ok J (rm_running J S force v2 id status) _ k2 in
      let (v4, t4, m4, k4) = then_call-ok J (code_call J (remove J S.calls v3 id)) _ k3 in
      let locked : v1 ≡ make_directory J swept id = container_lock-ok J S swept id m1 in
      let read : get_status J v2 id ≡ ok (status, pid) =
        subst (λ v. get_status J v id ≡ ok (status, pid)) (ap (λ m. m.0) m2) (ap (λ m. m.1) m2) in
      let (last, (last_pid, has), stopped, calm) = rm_running-ok S force v2 id status pid read m3 in
      let taken : v4 ≡ removed v3 id = remove-ok S.calls v3 id m4 in
      let final : after ≡ removed v3 id = sym (ap (λ m. m.0) k4) ∙ taken in
      let own : gone ≡ id = sym (ok-injective (ap (λ m. m.1) k4)) in
      (
        own,
        record {
          resolved = resolved;
          found = v3;
          status = last;
          pid = last_pid;
          read = has;
          stopped = stopped;
          unforced = λ n. calm n ∙ (sym (ap (λ m. m.0) m2) ∙ locked);
          gone = λ leaf. ap (λ u. u.file id leaf) final ∙ gone-removed v3 id leaf;
          unlisted = subst (λ u. ¬ Listed J u.listing id) (sym final) (Listed-removed v3 id);
          others = λ j ne leaf. ap (λ u. u.file j leaf) final ∙ others-removed v3 id j ne leaf;
        },
      )
    where
      ok-injective : {a b : Bytes} → ◌≡◌ {A = Result Bytes} (ok a) (ok b) → a ≡ b
      ok-injective q = cc

  -- Where rm removes a container, it is the one that the reference names once stale containers are
  -- repaired, its status was not "running" in the registry that was read last, without --force before
  -- any signal was sent; it has no file and is not listed any more, and every other container has the
  -- files that were read last.
  pub rm-IsRemoval :
      (S : System J) (w : World J) (arguments : List Bytes) {after : World J} {id : Bytes}
      → rm J S w arguments ≡ (after, ok id)
      → (force : Bool) × (reference : Bytes) × (rm_arguments arguments ≡ some (force, reference))
        × IsRemoval S w force reference after id
  unfolding rm
  rm-IsRemoval S w arguments {after} {id} e = go (rm_arguments arguments) refl e
    where
      calls : Bool → Bytes → Call J Bytes
      calls force reference = then_call J (unless_taken J S.takes_registry w) λ w _.
          then_call J (reconcile_call J S w)
            λ w _. then_call J (w, resolve J w reference) λ w id. rm_found J S force w id

      run :
          (force : Bool) (reference : Bytes)
          → calls force reference ≡ (after, ok id)
          → IsRemoval S w force reference after id
      run force reference q =
          let (v1, t1, m1, k1) = then_call-ok J (unless_taken J S.takes_registry w) _ q in
          let (v2, t2, m2, k2) = then_call-ok J (reconcile_call J S v1) _ k1 in
          let (v3, i, m3, k3) = then_call-ok J (v2, resolve J v2 reference) _ k2 in
          let here : v1 ≡ w = unless_taken-ok J S.takes_registry w m1 in
          let swept : v2 ≡ (reconcile J S.reconciled w).world =
            reconcile_call-ok J S v1 m2 ∙ ap (λ u. (reconcile J S.reconciled u).world) here in
          let same : v3 ≡ (reconcile J S.reconciled w).world = sym (ap (λ m. m.0) m3) ∙ swept in
          let (own, removal) =
            rm_found-IsRemoval S w force reference i
              (subst (λ u. resolve J u reference ≡ ok i) swept (ap (λ m. m.1) m3))
              (subst (λ u. rm_found J S force u i ≡ (after, ok id)) same k3) in
          subst (IsRemoval S w force reference after) (sym own) removal

      go :
          (o : Option (Bool × Bytes))
          → rm_arguments arguments ≡ o
          → (elim o as (λ _. Call J Bytes) [
            | none ↦ (w, err 2)
            | some (force, reference) ↦ calls force reference
          ])
            ≡ (after, ok id)
          → (force : Bool) × (reference : Bytes) × (rm_arguments arguments
              ≡ some (force, reference))
            × IsRemoval S w force reference after id
      go none a q = not_ok J q
      go (some (force, reference)) a q = (force, reference, a, run force reference q)

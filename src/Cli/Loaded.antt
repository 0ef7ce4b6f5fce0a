-- ===== src/Cli/Loaded.antt =====
-- cli/main.c: a container that is registered can be started: what is stored is what is loaded.
use minicontainer.Base.{
  ℕ, ◌≡◌, refl, sym, ap, ◌∙◌, Bool, true, false, not, ◌&&◌, ◌||◌, Option, none, some, Bytes, length,
  leb, if◌then◌else◌, ◌>>=◌, str_eq, str_eq_refl, subst,
}
use minicontainer.Launch.{RunConfig}
use minicontainer.State.Json.{Json, IsJson}
use minicontainer.State.Registry.{
  World, config, state, Result, ok, err, name_is_taken, published_port_is_taken, read, path_fits,
}
use minicontainer.State.Reconcile.{Outcome, written, kept, unsynced}
use minicontainer.State.Document.{Stamp, config_json}
use minicontainer.State.Load.{load_document}
use minicontainer.State.Stored.{IsStorable, restored, load_document-config_json}
use minicontainer.State.Save.{
  Calls, created_document, exit_internal, write_leaf, put, make_directory, all_can_bind,
  directory_fits, write_config, save_config, mark_created,
}
use minicontainer.Cli.Commands.{
  System, Call, unless_taken, code_call, container_lock, reconcile_call,
}
use minicontainer.Cli.Create.{address, save_call, created_call, register_calls, clean_up, register}
use minicontainer.Cli.Calls.{then_call-ok, not_ok}
use minicontainer.Cli.Registered.{address-words}

module _ (J : Json) where
  HasConfig : World J → Bytes → J.Value → Type 0
  HasConfig w id v = read J w id config ≡ some v

  module _ (laws : IsJson J) (calls : Calls J) where
    HasConfig-put :
        (w : World J) (id : Bytes) (v : J.Value) → HasConfig (put J w id config (J.print v)) id v
    unfolding put HasConfig
    HasConfig-put w id v = rw (str_eq_refl id, laws.parse-print v) refl

    write_config-HasConfig :
        (w : World J) (stamp : Stamp) (c : RunConfig) (image : Bytes) {v : World J} {a : Bool}
        → code_call J (write_config J calls w stamp c image) ≡ (v, ok a)
        → HasConfig v c.id (config_json J stamp c image)
    write_config-HasConfig w stamp c image {v} {a} e =
        fits (not (directory_fits J w c.id) || not (path_fits J w c.id config)) calls.mkdir_error
          (calls.outcome config) e
      where
        done : World J
        done = put J (make_directory J w c.id) c.id config (J.print (config_json J stamp c image))

        wrote : Outcome → World J × Option ℕ
        wrote o = elim o [
          | written ↦ (done, none)
          | kept ↦ (make_directory J w c.id, some 7)
          | unsynced ↦ (done, some 7)
        ]

        outcome :
            (o : Outcome)
            → code_call J (wrote o) ≡ (v, ok a)
            → HasConfig v c.id (config_json J stamp c image)
        outcome written q =
            subst (λ u. HasConfig u c.id (config_json J stamp c image)) (ap (λ m. m.0) q)
              (HasConfig-put (make_directory J w c.id) c.id (config_json J stamp c image))
        outcome kept q = not_ok J q
        outcome unsynced q = not_ok J q

        made :
            (m : Option ℕ) (o : Outcome)
            → code_call J (elim m as (λ _. World J × Option ℕ) [
              | some code ↦ (w, some code)
              | none ↦ wrote o
            ])
              ≡ (v, ok a)
            → HasConfig v c.id (config_json J stamp c image)
        made none o q = outcome o q
        made (some code) o q = not_ok J q

        fits :
            (b : Bool) (m : Option ℕ) (o : Outcome)
            → code_call J (
                if b then (w, some 0) else (elim m as (λ _. World J × Option ℕ) [
                  | some code ↦ (w, some code)
                  | none ↦ wrote o
                ]))
              ≡ (v, ok a)
            → HasConfig v c.id (config_json J stamp c image)
        fits true m o q = not_ok J q
        fits false m o q = made m o q

    unless :
        (b1 b2 b3 : Bool) (w : World J) (m : World J × Option ℕ) {v : World J} {a : Bool}
        → code_call J
            (if b1 then (w, some 4) else if b2 then (w, some 4) else if b3 then (w, some 4) else m)
          ≡ (v, ok a)
        → code_call J m ≡ (v, ok a)
    unless true b2 b3 w m q = not_ok J q
    unless false true b3 w m q = not_ok J q
    unless false false true w m q = not_ok J q
    unless false false false w m q = q

    save_config-HasConfig :
        (w : World J) (stamp : Stamp) (c : RunConfig) (image : Bytes) {v : World J} {a : Bool}
        → code_call J (save_config J calls w stamp c image) ≡ (v, ok a)
        → HasConfig v c.id (config_json J stamp c image)
    unfolding save_config
    save_config-HasConfig w stamp c image e = write_config-HasConfig w stamp c image (
        unless (name_is_taken J w c.options.name c.id)
          (published_port_is_taken J w c.options.publishes c.id)
          (not (all_can_bind J calls c.options.publishes)) w (write_config J calls w stamp c image)
          e)

    config-put_state :
        (w : World J) (id : Bytes) (text : J.Text)
        → (put J w id state text).file id config ≡ w.file id config
    unfolding put
    config-put_state w id text = go (str_eq id id)
      where
        go : (b : Bool) → (if b && false then some text else w.file id config) ≡ w.file id config
        go true = refl
        go false = refl

    config-mark_created :
        (w : World J) (id : Bytes) → (mark_created J calls w id).0.file id config ≡ w.file id config
    unfolding mark_created
    config-mark_created w id =
        let text = calls.text (created_document id) in
        long (leb 256 (length (created_document id)) || not (path_fits J w id state))
          (w, some exit_internal) (write_leaf J calls w id state text) refl
          (wrote text (calls.outcome state))
      where
        long :
            (b : Bool) (x y : World J × Option ℕ)
            → x.0.file id config ≡ w.file id config
            → y.0.file id config ≡ w.file id config
            → (if b then x else y).0.file id config ≡ w.file id config
        long true x y h k = h
        long false x y h k = k

        wrote :
            (text : J.Text) (o : Outcome)
            → (elim o as (λ _. World J × Option ℕ) [
              | written ↦ (put J w id state text, none)
              | kept ↦ (w, some 7)
              | unsynced ↦ (put J w id state text, some 7)
            ]).0.file
                id config
              ≡ w.file id config
        wrote text written = config-put_state w id text
        wrote text kept = refl
        wrote text unsynced = config-put_state w id text

    code_call-world : (m : World J × Option ℕ) → (code_call J m).0 ≡ m.0
    code_call-world (w, none) = refl
    code_call-world (w, some code) = refl

  created-HasConfig :
      (laws : IsJson J) (S : System J) (stamp : Stamp) (image : Bytes) (create_only : Bool)
      (w : World J) (id : Bytes) (doc : J.Value) {v : World J} {a : Bool}
      → created_call J S stamp image create_only w id ≡ (v, ok a)
      → HasConfig w id doc
      → HasConfig v id doc
  unfolding HasConfig
  created-HasConfig laws S stamp image true w id doc {v} {a} e h =
      let same : v ≡ (mark_created J S.calls w id).0 =
        sym (ap (λ m. m.0) e) ∙ code_call-world laws S.calls (mark_created J S.calls w id) in
      rw (same, config-mark_created laws S.calls w id) h
  created-HasConfig laws S stamp image false w id doc e h =
      subst (λ u. HasConfig u id doc) (ap (λ m. m.0) e) h

  register-ok :
      (S : System J) (stamp : Stamp) (image : Bytes) (id : Bytes) (m : Call J RunConfig)
      {after : World J} {stored : RunConfig}
      → clean_up J S stamp image id m ≡ (after, ok stored)
      → m ≡ (after, ok stored)
  register-ok S stamp image id (w, ok c) e = e
  register-ok S stamp image id (w, err code) e = not_ok J e

  -- Where run or create registers a container, the configuration that is stored has its identifier and
  -- the options of the command line, and the file config.json of the identifier is loaded as this
  -- configuration with the image and the host name that were used, not detached, and an empty list of
  -- denied system calls where there was none. The configuration is one whose numbers are in the ranges
  -- of their types, whose bind mounts have a source, whose image path is shorter than PATH_MAX (4096),
  -- and which has a command.
  pub register-load_document :
      IsJson J
      → (S : System J) (stamp : Stamp) (image : Bytes) (create_only : Bool) (w : World J)
        (c : RunConfig) {after : World J} {stored : RunConfig}
      → register J S stamp image create_only w c ≡ (after, ok stored)
      → IsStorable stored image
      → (stored.id ≡ c.id)
        × (stored.options ≡ c.options)
        × ((read J after c.id config >>= load_document J) ≡ some (restored stored image))
  unfolding register register_calls save_call HasConfig
  register-load_document laws S stamp image create_only w c {after} {stored} e storable =
      let all = register-ok S stamp image c.id (register_calls J S stamp image create_only w c) e in
      let (v1, t1, m1, k1) = then_call-ok J (unless_taken J S.takes_registry w) _ all in
      let (v2, t2, m2, k2) = then_call-ok J (reconcile_call J S v1) _ k1 in
      let (v3, t3, m3, k3) = then_call-ok J (container_lock J S v2 c.id) _ k2 in
      let (v4, found, m4, k4) = then_call-ok J (v3, address J S stamp image v3 c) _ k3 in
      let (v5, t5, m5, k5) = then_call-ok J (save_call J S stamp image v4 found) _ k4 in
      let (v6, t6, m6, k6) =
        then_call-ok J (created_call J S stamp image create_only v5 c.id) _ k5 in
      let (own, options) = address-words J laws S stamp image c.id v3 c (ap (λ m. m.1) m4) in
      let same : found ≡ stored = ok-injective (ap (λ m. m.1) k6) in
      let saved : HasConfig v5 c.id (config_json J stamp found image) =
        subst (λ i. HasConfig v5 i (config_json J stamp found image)) own
          (save_config-HasConfig laws S.calls v4 stamp found image m5) in
      let last : HasConfig v6 c.id (config_json J stamp found image) =
        created-HasConfig laws S stamp image create_only v5 c.id _ m6 saved in
      let kept_so : read J after c.id config ≡ some (config_json J stamp stored image) =
        subst (λ u. read J u c.id config ≡ some (config_json J stamp stored image))
          (ap (λ m. m.0) k6)
          (subst (λ f. read J v6 c.id config ≡ some (config_json J stamp f image)) same last) in
      (
        ap (λ (r : RunConfig). r.id) (sym same) ∙ own,
        ap (λ (r : RunConfig). r.options) (sym same) ∙ options,
        rw (kept_so) (load_document-config_json laws stamp stored image storable),
      )
    where
      ok-injective : {a b : RunConfig} → ◌≡◌ {A = Result RunConfig} (ok a) (ok b) → a ≡ b
      ok-injective q = cc

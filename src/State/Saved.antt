-- ===== src/State/Saved.antt =====
-- state/store.c: the names and the published ports of the registry stay apart when a configuration is
-- saved, and what is saved is what is loaded.
use minicontainer.Base.{
  ℕ, ◌≡◌, ◌≢◌, refl, sym, ap, ◌∙◌, Bool, true, false, not, ◌||◌, Option, none, some, List, [], ◌∷◌,
  map, arith, Bytes, codes, All, if◌then◌else◌, str_eq, str_eq_iff, str_eq_refl, subst,
  some-injective, not_iff,
}
use minicontainer.Network.{Publish}
use minicontainer.Launch.{RunConfig}
use minicontainer.State.Json.{Json, IsJson}
use minicontainer.State.Registry.{
  exit_conflict, exit_runtime, World, config, Listing, opened, missing, unreadable, path_fits, read,
  skipped, string_is, name_loop, name_is_taken, stored_publish, port_loop, published_port_is_taken,
}
use minicontainer.State.Reconcile.{Outcome, written, kept, unsynced}
use minicontainer.State.Document.{Stamp, config_json, publish_json}
use minicontainer.State.Stored.{
  IsWords, new_text, stored_publish-publish_json, get-config_json_name, get-config_json_publishes,
}
use minicontainer.State.Save.{
  directory_fits, Calls, make_directory, put, write_leaf, write_config, save_config,
}
use minicontainer.State.Exclusive.{
  Listed, IsVisible, decoded, Apart, publishes_in, is_named, Compatible, IsExclusive,
  name_loop-false, port_loop-Apart, All-member, Listed-cases, IsExclusive-from,
}
use minicontainer.State.Kept.{make_directory-IsExclusive}

module _ (J : Json) where
  not_skipped :
      (w : World J) (own id : Bytes) → IsVisible J w id → id ≢ own → skipped J w own id ≡ false
  not_skipped w own id v ne =
      let differs : str_eq id own ≡ false = (not_iff _ (str_eq_iff id own)).1 ne in
      ground (arith, v.0, v.1)

  free_name :
      (w : World J) (own name id : Bytes)
      → name_is_taken J w (some name) own ≡ false
      → Listed J w.listing id
      → id ≢ own
      → IsVisible J w id
      → is_named J (read J w id config) name ≡ false
  unfolding name_is_taken
  free_name w own name id h l ne v = go w.listing h l
    where
      go :
          (listing : Listing)
          → (elim listing [
            | opened ids ↦ name_loop J w name own ids
            | missing ↦ false
            | unreadable ↦ true
          ])
            ≡ false
          → Listed J listing id
          → is_named J (read J w id config) name ≡ false
      go (opened ids) e m =
          All-member J _ ids id (name_loop-false J w name own ids e) m (not_skipped w own id v ne)
      go missing e m = elim m [ ]
      go unreadable e m = elim m [ ]

  free_ports :
      (w : World J) (own : Bytes) (requested : List Publish) (id : Bytes)
      → published_port_is_taken J w requested own ≡ false
      → Listed J w.listing id
      → id ≢ own
      → IsVisible J w id
      → Apart J requested (decoded J (publishes_in J (read J w id config)))
  unfolding published_port_is_taken
  free_ports w own [] id h l ne v = tt
  free_ports w own (p ∷ requested) id h l ne v = go w.listing h l
    where
      go :
          (listing : Listing)
          → (elim listing [
            | opened ids ↦ port_loop J w (p ∷ requested) own ids
            | missing ↦ false
            | unreadable ↦ true
          ])
            ≡ false
          → Listed J listing id
          → Apart J (p ∷ requested) (decoded J (publishes_in J (read J w id config)))
      go (opened ids) e m =
          All-member J _ ids id (port_loop-Apart J w (p ∷ requested) own ids e) m
            (not_skipped w own id v ne)
      go missing e m = elim m [ ]
      go unreadable e m = elim m [ ]

  choose :
      (b : Bool) (x y : World J × Option ℕ)
      → (b ≡ true → IsExclusive J x.0)
      → (b ≡ false → IsExclusive J y.0)
      → IsExclusive J (if b then x else y).0
  choose true x y h k = h refl
  choose false x y h k = k refl

  module _ (laws : IsJson J) (stamp : Stamp) (c : RunConfig) (image : Bytes) where
    strip : Publish → Publish
    strip p = record p { container_port = 0 }

    decoded-cons :
        (v : J.Value) (vs : List J.Value) (p : Publish)
        → stored_publish J v ≡ some p
        → decoded J (v ∷ vs) ≡ p ∷ decoded J vs
    decoded-cons v vs p e = go (stored_publish J v) e
      where
        go :
            (o : Option Publish)
            → o ≡ some p
            → (elim o [ none ↦ decoded J vs | some q ↦ q ∷ decoded J vs ]) ≡ p ∷ decoded J vs
        go none q = cc
        go (some other) q = ap (λ r. r ∷ decoded J vs) (some-injective other p q)

    decoded-publish_json :
        (ps : List Publish) → All IsWords ps → decoded J (map (publish_json J) ps) ≡ map strip ps
    unfolding strip
    decoded-publish_json [] h = refl
    decoded-publish_json (p ∷ ps) h =
        decoded-cons (publish_json J p) (map (publish_json J) ps) (strip p)
          (stored_publish-publish_json laws p h.0)
        ∙ ap (λ r. strip p ∷ r) (decoded-publish_json ps h.1)

    publishes_in-array :
        (document : J.Value) (vs : List J.Value)
        → J.get document (codes "publishes") ≡ some (J.array vs)
        → publishes_in J (some document) ≡ vs
    publishes_in-array document vs e = go (J.get document (codes "publishes")) e
      where
        go :
            (o : Option J.Value)
            → o ≡ some (J.array vs)
            → (elim o [ none ↦ [] | some v ↦ if J.is_array v then J.items v else [] ]) ≡ vs
        go none q = cc
        go (some v) q =
            rw (some-injective v (J.array vs) q, laws.is_array-array vs, laws.items-array vs) refl

    Apart-strip : (ps qs : List Publish) → Apart J ps qs → Apart J (map strip ps) qs
    unfolding strip
    Apart-strip [] qs h = tt
    Apart-strip (p ∷ ps) qs h = (h.0, Apart-strip ps qs h.1)

    own_ports :
        All IsWords c.options.publishes
        → decoded J (publishes_in J (some (config_json J stamp c image)))
          ≡ map strip c.options.publishes
    own_ports h =
        ap (decoded J) (
          publishes_in-array (config_json J stamp c image)
            (map (publish_json J) c.options.publishes)
            (get-config_json_publishes laws stamp c image))
        ∙ decoded-publish_json c.options.publishes h

    own_name :
        (name : Bytes)
        → is_named J (some (config_json J stamp c image)) name ≡ true
        → c.options.name ≡ some name
    unfolding new_text
    own_name name h =
        go c.options.name
          (subst (λ v. string_is J v name ≡ true) (get-config_json_name laws stamp c image) h)
      where
        go : (o : Option Bytes) → string_is J (new_text laws o) name ≡ true → o ≡ some name
        go none e = cc
        go (some n) e = ap some (
            (str_eq_iff n name).0
              (subst (λ s. str_eq s name ≡ true) (laws.get_string-new_string n) e))

    own_fits :
        (w : World J) (id : Bytes)
        → All IsWords c.options.publishes
        → name_is_taken J w c.options.name c.id ≡ false
        → published_port_is_taken J w c.options.publishes c.id ≡ false
        → Listed J w.listing id
        → id ≢ c.id
        → IsVisible J w id
        → Compatible J (some (config_json J stamp c image)) (read J w id config)
    own_fits w id words name ports l ne v = (
      λ text e.
          free_name w c.id text id
            (subst (λ n. name_is_taken J w n c.id ≡ false) (own_name text e) name) l ne v,
      subst (λ ps. Apart J ps (decoded J (publishes_in J (read J w id config))))
          (sym (own_ports words))
          (Apart-strip c.options.publishes _
            (free_ports w c.id c.options.publishes id ports l ne v)),
    )

    module _ (calls : Calls J) (w : World J) (old : IsExclusive J w) where
      saved :
          All IsWords c.options.publishes
          → name_is_taken J w c.options.name c.id ≡ false
          → published_port_is_taken J w c.options.publishes c.id ≡ false
          → IsExclusive J
              (put J (make_directory J w c.id) c.id config (J.print (config_json J stamp c image)))
      unfolding put
      saved words name ports =
          IsExclusive-from J w _ c.id (λ id. Listed-cases J c.id id w.listing) (λ id v. v)
            (λ id ne. rw ((not_iff _ (str_eq_iff id c.id)).1 ne) refl)
            (λ id l ne v.
              rw (str_eq_refl c.id, laws.parse-print (config_json J stamp c image))
                (own_fits w id words name ports l ne v))
            old

      write_config-IsExclusive :
          w.file c.id config ≡ none
          → All IsWords c.options.publishes
          → name_is_taken J w c.options.name c.id ≡ false
          → published_port_is_taken J w c.options.publishes c.id ≡ false
          → IsExclusive J (write_config J calls w stamp c image).0
      write_config-IsExclusive fresh words name ports =
          let wrote =
            write_leaf J calls (make_directory J w c.id) c.id config
              (J.print (config_json J stamp c image)) in
          choose (not (directory_fits J w c.id) || not (path_fits J w c.id config)) (w, some 0)
            (elim calls.mkdir_error as (λ _. World J × Option ℕ) [
              | none ↦ wrote
              | some code ↦ (w, some code)
            ])
            (λ long. old)
            (λ short. directory calls.mkdir_error wrote (outcome (calls.outcome config)))
        where
          outcome :
              (o : Outcome)
              → IsExclusive J
                  (elim o as (λ _. World J × Option ℕ) [
                    | written ↦ (
                      put J
                          (make_directory J w c.id)
                          c.id
                          config
                          (J.print (config_json J stamp c image)),
                      none,
                    )
                    | kept ↦ (make_directory J w c.id, some exit_runtime)
                    | unsynced ↦ (
                      put J
                          (make_directory J w c.id)
                          c.id
                          config
                          (J.print (config_json J stamp c image)),
                      some exit_runtime,
                    )
                  ]).0
          outcome written = saved words name ports
          outcome kept = make_directory-IsExclusive J w c.id fresh old
          outcome unsynced = saved words name ports

          directory :
              (o : Option ℕ) (wrote : World J × Option ℕ)
              → IsExclusive J wrote.0
              → IsExclusive J
                  (elim o as (λ _. World J × Option ℕ) [
                    | some code ↦ (w, some code)
                    | none ↦ wrote
                  ]).0
          directory none wrote h = h
          directory (some code) wrote h = old

  -- Saving a configuration keeps the names and the published ports of the registry apart, whatever
  -- the calls of the system return, also where it fails; its numbers are in the ranges of their types
  -- and its identifier has no document yet.
  pub save_config-IsExclusive :
      IsJson J
      → (calls : Calls J) (w : World J) (stamp : Stamp) (c : RunConfig) (image : Bytes)
      → w.file c.id config ≡ none
      → All IsWords c.options.publishes
      → IsExclusive J w
      → IsExclusive J (save_config J calls w stamp c image).0
  unfolding save_config
  save_config-IsExclusive laws calls w stamp c image fresh words old =
      choose (name_is_taken J w c.options.name c.id) (w, some exit_conflict) _ (λ taken. old)
        (λ name.
          choose (published_port_is_taken J w c.options.publishes c.id) (w, some exit_conflict) _
            (λ taken. old)
            (λ ports.
              choose _ (w, some exit_conflict) _ (λ bound. old)
                (λ free.
                  write_config-IsExclusive laws stamp c image calls w old fresh words name ports)))

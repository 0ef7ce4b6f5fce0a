-- ===== src/State/Exclusive.antt =====
-- state/store.c: registries in which no two containers have one name or publish one port, and the
-- scans that save_config makes to keep it so.
use minicontainer.Base.{
  ◌≡◌, ◌≢◌, ◌⊎◌, inl, inr, refl, sym, ◌∙◌, Bool, true, false, Option, none, some, List, [], ◌∷◌,
  ◌++◌, arith, Bytes, codes, All, if◌then◌else◌, Bool-cases, any, str_eq, str_eq_iff, Exists,
  All-map, subst, not_iff,
}
use minicontainer.Network.{Publish, clashes}
use minicontainer.State.Ports.{any-false}
use minicontainer.State.Json.{Json}
use minicontainer.State.Registry.{
  World, config, Listing, opened, missing, unreadable, path_fits, read, is_hidden, skipped, field,
  string_is, names_container, name_loop, stored_publish, stored_publishes, stored_clash, port_loop,
}
use minicontainer.State.Save.{list_directory}

pub str_eq_cases : (s t : Bytes) → (s ≡ t) ⊎ (s ≢ t)
str_eq_cases s t = elim (Bool-cases (str_eq s t)) [
  | inl e ↦ inl ((str_eq_iff s t).0 e)
  | inr e ↦ inr ((not_iff _ (str_eq_iff s t)).0 e)
]

module _ (J : Json) where
  abbrev pub Listed : Listing → Bytes → Type 0
  Listed (opened ids) id = Exists (λ other. id ≡ other) ids
  Listed missing id = ⊥
  Listed unreadable id = ⊥

  abbrev pub IsVisible : World J → Bytes → Type 0
  IsVisible w id = (is_hidden id ≡ false) × (path_fits J w id config ≡ true)

  abbrev pub decoded : List J.Value → List Publish
  decoded [] = []
  decoded (v ∷ vs) = elim (stored_publish J v) [ none ↦ decoded vs | some p ↦ p ∷ decoded vs ]

  abbrev pub Apart : List Publish → List Publish → Type 0
  Apart ps qs = All (λ p. All (λ q. clashes p q ≡ false) qs) ps

  abbrev pub publishes_in : Option J.Value → List J.Value
  publishes_in document = elim (field J document (codes "publishes")) [
    | none ↦ []
    | some array ↦ if J.is_array array then J.items array else []
  ]

  abbrev pub is_named : Option J.Value → Bytes → Bool
  is_named document name = string_is J (field J document (codes "name")) name

  -- Two documents config.json, `none` where a file is not read, have different names, and no
  -- publication of one clashes with one of the other.
  abbrev pub Compatible : Option J.Value → Option J.Value → Type 0
  Compatible a b =
      ((name : Bytes) → is_named a name ≡ true → is_named b name ≡ false)
      × Apart (decoded (publishes_in a)) (decoded (publishes_in b))

  -- No two containers of the registry have one name or publish one port.
  pub record IsExclusive (w : World J) : Type 0 where
    pub compatible :
        (i j : Bytes)
        → Listed w.listing i
        → Listed w.listing j
        → i ≢ j
        → IsVisible w i
        → IsVisible w j
        → Compatible (read J w i config) (read J w j config)

  clashes-sym : (p q : Publish) → clashes p q ≡ false → clashes q p ≡ false
  clashes-sym p q h = ground arith

  Apart-cons :
      (q : Publish) (qs ps : List Publish)
      → All (λ p. clashes p q ≡ false) ps
      → Apart ps qs
      → Apart ps (q ∷ qs)
  Apart-cons q qs [] h apart = tt
  Apart-cons q qs (p ∷ ps) h apart = ((h.0, apart.0), Apart-cons q qs ps h.1 apart.1)

  pub Apart-nil : (ps : List Publish) → Apart ps []
  Apart-nil [] = tt
  Apart-nil (p ∷ ps) = (tt, Apart-nil ps)

  Apart-sym : (ps qs : List Publish) → Apart ps qs → Apart qs ps
  Apart-sym [] qs h = Apart-nil qs
  Apart-sym (p ∷ ps) qs h =
      Apart-cons p ps qs (All-map _ _ (clashes-sym p) qs h.0) (Apart-sym ps qs h.1)

  pub Compatible-sym : (a b : Option J.Value) → Compatible a b → Compatible b a
  Compatible-sym a b h = (
    λ name e. other name (is_named a name) refl e,
    Apart-sym (decoded (publishes_in a)) (decoded (publishes_in b)) h.1,
  )
    where
      clash : ◌≡◌ {A = Bool} true false → ⊥
      clash q = cc

      other :
          (name : Bytes) (b' : Bool)
          → is_named a name ≡ b'
          → is_named b name ≡ true
          → is_named a name ≡ false
      other name true e e' = absurd (clash (sym e' ∙ h.0 name e))
      other name false e e' = e

  pub name_loop-false :
      (w : World J) (name own_id : Bytes) (ids : List Bytes)
      → name_loop J w name own_id ids ≡ false
      → All (λ id. skipped J w own_id id ≡ false → names_container J w id name ≡ false) ids
  unfolding name_loop
  name_loop-false w name own_id [] h = tt
  name_loop-false w name own_id (id ∷ ids) h =
      (λ s. ground arith, name_loop-false w name own_id ids (ground arith))

  not_stored :
      (requested : List Publish) (vs : List J.Value)
      → any (stored_clash J requested) vs ≡ false
      → Apart requested (decoded vs)
  not_stored requested [] h = Apart-nil requested
  not_stored requested (v ∷ vs) h =
      go (stored_publish J v) (ground arith) (not_stored requested vs (ground arith))
    where
      go :
          (o : Option Publish)
          → (elim o [ none ↦ false | some p ↦ any (λ r. clashes r p) requested ]) ≡ false
          → Apart requested (decoded vs)
          → Apart requested (elim o [ none ↦ decoded vs | some p ↦ p ∷ decoded vs ])
      go none e rest = rest
      go (some p) e rest =
          Apart-cons p (decoded vs) requested (any-false (λ r. clashes r p) requested e) rest

  pub port_loop-Apart :
      (w : World J) (requested : List Publish) (own_id : Bytes) (ids : List Bytes)
      → port_loop J w requested own_id ids ≡ false
      → All
          (λ id.
            skipped J w own_id id ≡ false → Apart requested (decoded (stored_publishes J w id)))
          ids
  unfolding port_loop
  port_loop-Apart w requested own_id [] h = tt
  port_loop-Apart w requested own_id (id ∷ ids) h = (
    λ s. not_stored requested (stored_publishes J w id) (ground arith),
    port_loop-Apart w requested own_id ids (ground arith),
  )

  pub All-member :
      (P : Bytes → Type 0) (ids : List Bytes) (id : Bytes)
      → All P ids
      → Exists (λ other. id ≡ other) ids
      → P id
  All-member P [] id h m = elim m [ ]
  All-member P (x ∷ ids) id h (inl e) = subst P (sym e) h.0
  All-member P (x ∷ ids) id h (inr m) = All-member P ids id h.1 m

  pub Listed-cases :
      (own id : Bytes) (listing : Listing)
      → Listed (list_directory own listing) id
      → (id ≡ own) ⊎ Listed listing id
  Listed-cases own id (opened ids) h = go (any (str_eq own) ids) h
    where
      last :
          (ids : List Bytes)
          → Exists (λ other. id ≡ other) (ids ++ (own ∷ []))
          → (id ≡ own) ⊎ Exists (λ other. id ≡ other) ids
      last [] (inl e) = inl e
      last [] (inr m) = elim m [ ]
      last (x ∷ ids) (inl e) = inr (inl e)
      last (x ∷ ids) (inr m) = elim (last ids m) [ inl e ↦ inl e | inr m' ↦ inr (inr m') ]

      go :
          (b : Bool)
          → Listed (if b then opened ids else opened (ids ++ (own ∷ []))) id
          → (id ≡ own) ⊎ Exists (λ other. id ≡ other) ids
      go true m = inr m
      go false m = last ids m
  Listed-cases own id missing (inl e) = inl e
  Listed-cases own id missing (inr m) = elim m [ ]
  Listed-cases own id unreadable h = elim h [ ]

  -- A change of one container keeps the others apart, where it is itself apart from them.
  pub IsExclusive-from :
      (w after : World J) (own : Bytes)
      → ((id : Bytes) → Listed after.listing id → (id ≡ own) ⊎ Listed w.listing id)
      → ((id : Bytes) → IsVisible after id → IsVisible w id)
      → ((id : Bytes) → id ≢ own → read J after id config ≡ read J w id config)
      → ((id : Bytes)
          → Listed w.listing id
          → id ≢ own
          → IsVisible w id
          → Compatible (read J after own config) (read J w id config))
      → IsExclusive w
      → IsExclusive after
  IsExclusive-from w after own lists sees reads own_fits old = record { compatible = pair }
    where
      pair :
          (i j : Bytes)
          → Listed after.listing i
          → Listed after.listing j
          → i ≢ j
          → IsVisible after i
          → IsVisible after j
          → Compatible (read J after i config) (read J after j config)
      pair i j li lj ne vi vj =
          go (lists i li) (lists j lj) (str_eq_cases i own) (str_eq_cases j own)
        where
          go :
              (i ≡ own) ⊎ Listed w.listing i
              → (j ≡ own) ⊎ Listed w.listing j
              → (i ≡ own) ⊎ (i ≢ own)
              → (j ≡ own) ⊎ (j ≢ own)
              → Compatible (read J after i config) (read J after j config)
          go pi pj (inl a) (inl b) = absurd (ne (a ∙ sym b))
          go pi (inl b) di (inr nb) = absurd (nb b)
          go (inl a) pj (inr na) dj = absurd (na a)
          go pi (inr lj') (inl a) (inr nb) =
              subst (λ k. Compatible (read J after k config) (read J after j config)) (sym a)
                (subst (Compatible (read J after own config)) (sym (reads j nb))
                  (own_fits j lj' nb (sees j vj)))
          go (inr li') pj (inr na) (inl b) =
              subst (λ k. Compatible (read J after i config) (read J after k config)) (sym b)
                (subst (λ a. Compatible a (read J after own config)) (sym (reads i na))
                  (Compatible-sym (read J after own config) (read J w i config)
                    (own_fits i li' na (sees i vi))))
          go (inr li') (inr lj') (inr na) (inr nb) =
              subst (λ a. Compatible a (read J after j config)) (sym (reads i na))
                (subst (Compatible (read J w i config)) (sym (reads j nb))
                  (old.compatible i j li' lj' ne (sees i vi) (sees j vj)))

-- ===== src/State/Stale.antt =====
-- What a reconciliation establishes, what it leaves alone, and that a second one has nothing to do.
use minicontainer.Base.{
  ◌≡◌, inl, inr, refl, sym, ap, ◌∙◌, Bool, true, false, not, ◌||◌, Option, none, some, arith, Bytes,
  codes, length, ◌==◌, if◌then◌else◌, Bool-cases, str_eq, str_eq_refl, str_eq_iff,
}
use minicontainer.State.Json.{Json, IsJson}
use minicontainer.State.Registry.{World, Leaf, config, state, path_fits, read, is_hidden, id_length}
use minicontainer.State.Identity.{running}
use minicontainer.State.Reconcile.{stale, stale_of, repaired, store}

module _ (J : Json) (L : IsJson J) where
  -- The status that a repaired document has.
  get-repaired :
      (root : J.Value)
      → J.get (repaired J root) (codes "status") ≡ some (J.new_string (codes "stopped"))
  unfolding repaired
  get-repaired root = simp L.get-set

  running-repaired : (root : J.Value) → running J (some (repaired J root)) ≡ none
  running-repaired root = rw (get-repaired root, L.get_string-new_string) refl

  read-store_self :
      (w : World J) (id : Bytes) (root : J.Value)
      → read J (store J w id (J.print root)) id state ≡ some root
  unfolding store
  read-store_self w id root = rw (str_eq_refl id) (L.parse-print root)

  -- A repaired container is not stale.
  pub stale-store_self :
      (w : World J) (id : Bytes) (root : J.Value)
      → stale J (store J w id (J.print (repaired J root))) id ≡ none
  unfolding stale
  stale-store_self w id root = rw (read-store_self w id (repaired J root)) (
      go (is_hidden id || not (length id == id_length))
        (path_fits J (store J w id (J.print (repaired J root))) id state))
    where
      go :
          (passed fits : Bool)
          → (if passed
              then none
              else stale_of J
                  (store J w id (J.print (repaired J root)))
                  (if fits then some (repaired J root) else none))
            ≡ none
      go true fits = refl
      go false false = refl
      go false true = rw (running-repaired root) refl

  -- Another container is as stale as before.
  stale-store_other :
      (w : World J) (id j : Bytes) (text : J.Text)
      → str_eq j id ≡ false
      → stale J (store J w id text) j ≡ stale J w j
  unfolding stale store
  stale-store_other w id j text h = rw h refl

  -- No container becomes stale by the repair of another.
  stale-store :
      (w : World J) (id j : Bytes) (root : J.Value)
      → stale J w j ≡ none
      → stale J (store J w id (J.print (repaired J root))) j ≡ none
  stale-store w id j root h = elim (Bool-cases (str_eq j id)) [
    | inl e ↦ rw ((str_eq_iff j id).0 e) (stale-store_self w id root)
    | inr e ↦ stale-store_other w id j _ e ∙ h
  ]

  file-store :
      (w : World J) (id j : Bytes) (leaf : Leaf) (text : J.Text)
      → str_eq j id ≡ false
      → (store J w id text).file j leaf ≡ w.file j leaf
  unfolding store
  file-store w id j leaf text h = rw h refl

  config-store :
      (w : World J) (id j : Bytes) (text : J.Text)
      → (store J w id text).file j config ≡ w.file j config
  unfolding store
  config-store w id j text = ground arith

  -- What holds between the world before a loop and the world after it.
  pub record IsReconciliation (w after : World J) : Type 0 where
    pub calm : (j : Bytes) → stale J w j ≡ none → stale J after j ≡ none
    pub files : (j : Bytes) → stale J w j ≡ none → (leaf : Leaf) → after.file j leaf ≡ w.file j leaf
    pub configs : (j : Bytes) → after.file j config ≡ w.file j config
    pub listing : after.listing ≡ w.listing
    pub directory : after.state_dir_length ≡ w.state_dir_length

  pub IsReconciliation-refl : (w : World J) → IsReconciliation w w
  IsReconciliation-refl w = record {
    calm = λ j h. h;
    files = λ j h leaf. refl;
    configs = λ j. refl;
    listing = refl;
    directory = refl;
  }

  pub IsReconciliation-trans :
      (u v w : World J) → IsReconciliation u v → IsReconciliation v w → IsReconciliation u w
  IsReconciliation-trans u v w p q = record {
    calm = λ j h. q.calm j (p.calm j h);
    files = λ j h leaf. q.files j (p.calm j h) leaf ∙ p.files j h leaf;
    configs = λ j. q.configs j ∙ p.configs j;
    listing = q.listing ∙ p.listing;
    directory = q.directory ∙ p.directory;
  }

  listing-store :
      (w : World J) (id : Bytes) (text : J.Text) → (store J w id text).listing ≡ w.listing
  unfolding store
  listing-store w id text = refl

  state_dir_length-store :
      (w : World J) (id : Bytes) (text : J.Text)
      → (store J w id text).state_dir_length ≡ w.state_dir_length
  unfolding store
  state_dir_length-store w id text = refl

  pub store-IsReconciliation :
      (w : World J) (id : Bytes) (root : J.Value) {found : J.Value}
      → stale J w id ≡ some found
      → IsReconciliation w (store J w id (J.print (repaired J root)))
  store-IsReconciliation w id root {found} s = record {
    calm = λ j h. stale-store w id j root h;
    files = λ j h leaf. file-store w id j leaf _ (differs j h);
    configs = λ j. config-store w id j _;
    listing = listing-store w id _;
    directory = state_dir_length-store w id _;
  }
    where
      differs : (j : Bytes) → stale J w j ≡ none → str_eq j id ≡ false
      differs j h = elim (Bool-cases (str_eq j id)) [
        | inl e ↦ absurd (clash (sym h ∙ (ap (λ k. stale J w k) ((str_eq_iff j id).0 e) ∙ s)))
        | inr e ↦ e
      ]
        where
          clash : ◌≡◌ {A = Option J.Value} none (some found) → ⊥
          clash e = cc

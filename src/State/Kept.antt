-- ===== src/State/Kept.antt =====
-- state/store.c: the calls of a command beside save_config keep the names and the published ports of
-- the registry apart: they write no configuration, or take one away.
use minicontainer.Base.{
  ℕ, ◌+◌, ◌≡◌, ◌≢◌, ◌⊎◌, inl, inr, refl, Bool, true, false, ◌&&◌, Option, none, some, List, [], ◌∷◌,
  Bytes, length, ltb, if◌then◌else◌, str_eq, subst, Exists,
}
use minicontainer.State.Json.{Json, IsJson}
use minicontainer.State.Registry.{World, config, state, Listing, opened, missing, unreadable, read}
use minicontainer.State.Reconcile.{Outcome, written, kept, unsynced, reconcile}
use minicontainer.State.Sweep.{reconcile-IsReconciliation}
use minicontainer.State.Save.{
  Calls, without, unlist_directory, make_directory, put, mark_created, remove,
}
use minicontainer.State.Exclusive.{
  Listed, IsVisible, Compatible, Compatible-sym, IsExclusive, Listed-cases, IsExclusive-from,
}

module _ (J : Json) where
  clash : ◌≡◌ {A = Bool} false true → ⊥
  clash e = cc

  Compatible-none : (b : Option J.Value) → Compatible J none b
  Compatible-none b = (λ name e. absurd (clash e), tt)

  -- A registry with no other directories and no other configurations.
  pub record IsWithin (w after : World J) : Type 0 where
    pub lists : (id : Bytes) → Listed J after.listing id → Listed J w.listing id
    pub directory : after.state_dir_length ≡ w.state_dir_length
    pub configs :
        (id : Bytes) → (after.file id config ≡ w.file id config) ⊎ (after.file id config ≡ none)

  IsVisible-within :
      (w after : World J) (id : Bytes) → IsWithin w after → IsVisible J after id → IsVisible J w id
  IsVisible-within w after id h v =
      (v.0, subst (λ n. ltb (n + 13 + length id + 11) 4096 ≡ true) h.directory v.1)

  pub IsExclusive-within :
      (w after : World J) → IsWithin w after → IsExclusive J w → IsExclusive J after
  IsExclusive-within w after h old = record { compatible = pair }
    where
      pair :
          (i j : Bytes)
          → Listed J after.listing i
          → Listed J after.listing j
          → i ≢ j
          → IsVisible J after i
          → IsVisible J after j
          → Compatible J (read J after i config) (read J after j config)
      pair i j li lj ne vi vj = go (h.configs i) (h.configs j)
        where
          go :
              (after.file i config ≡ w.file i config) ⊎ (after.file i config ≡ none)
              → (after.file j config ≡ w.file j config) ⊎ (after.file j config ≡ none)
              → Compatible J (read J after i config) (read J after j config)
          go (inl a) (inl b) =
              rw (a, b)
                (old.compatible i j (h.lists i li) (h.lists j lj) ne
                  (IsVisible-within w after i h vi) (IsVisible-within w after j h vj))
          go (inr a) b = rw a (Compatible-none (read J after j config))
          go (inl a) (inr b) = rw b (
              Compatible-sym J none (read J after i config)
                (Compatible-none (read J after i config)))

  pub IsWithin-refl : (w : World J) → IsWithin w w
  IsWithin-refl w = record { lists = λ id l. l; directory = refl; configs = λ id. inl refl }

  choose :
      (w : World J) (b : Bool) (x y : World J × Option ℕ)
      → IsWithin w x.0
      → IsWithin w y.0
      → IsWithin w (if b then x else y).0
  choose w true x y h k = h
  choose w false x y h k = k

  pub reconcile-IsWithin :
      IsJson J
      → (outcome : Bytes → Outcome) (w : World J) → IsWithin w (reconcile J outcome w).world
  reconcile-IsWithin laws outcome w =
      let r = reconcile-IsReconciliation J laws outcome w in
      record {
        lists = λ id l. subst (λ listing. Listed J listing id) r.listing l;
        directory = r.directory;
        configs = λ id. inl (r.configs id);
      }

  Listed-without :
      (own id : Bytes) (ids : List Bytes)
      → Exists (λ other. id ≡ other) (without own ids)
      → Exists (λ other. id ≡ other) ids
  Listed-without own id [] m = m
  Listed-without own id (x ∷ ids) m = go (str_eq own x) m (Listed-without own id ids)
    where
      go :
          (b : Bool)
          → Exists (λ other. id ≡ other) (if b then without own ids else x ∷ without own ids)
          → (Exists (λ other. id ≡ other) (without own ids) → Exists (λ other. id ≡ other) ids)
          → (id ≡ x) ⊎ Exists (λ other. id ≡ other) ids
      go true m ih = inr (ih m)
      go false (inl e) ih = inl e
      go false (inr m) ih = inr (ih m)

  Listed-unlist :
      (own id : Bytes) (listing : Listing)
      → Listed J (unlist_directory own listing) id
      → Listed J listing id
  Listed-unlist own id (opened ids) l = Listed-without own id ids l
  Listed-unlist own id missing l = l
  Listed-unlist own id unreadable l = l

  pub remove-IsWithin :
      (calls : Calls J) (w : World J) (id : Bytes) → IsWithin w (remove J calls w id).0
  unfolding remove
  remove-IsWithin calls w id =
      choose w _ _ _ (IsWithin-refl w) (choose w _ _ _ gone (IsWithin-refl w))
    where
      pick :
          (b : Bool) (before : Option J.Text)
          → ((if b then none else before) ≡ before) ⊎ ((if b then none else before) ≡ none)
      pick true before = inr refl
      pick false before = inl refl

      gone : IsWithin w (record w {
        listing = unlist_directory id w.listing;
        file = λ j l. if str_eq j id then none else w.file j l;
      })
      gone = record {
        lists = λ j l. Listed-unlist id j w.listing l;
        directory = refl;
        configs = λ j. pick (str_eq j id) (w.file j config);
      }

  put_state-IsWithin :
      (w : World J) (id : Bytes) (text : J.Text) → IsWithin w (put J w id state text)
  unfolding put
  put_state-IsWithin w id text = record {
    lists = λ j l. l;
    directory = refl;
    configs = λ j. inl (pick (str_eq j id) (w.file j config));
  }
    where
      pick :
          (b : Bool) (before : Option J.Text) → (if b && false then some text else before) ≡ before
      pick true before = refl
      pick false before = refl

  pub mark_created-IsWithin :
      (calls : Calls J) (w : World J) (id : Bytes) → IsWithin w (mark_created J calls w id).0
  unfolding mark_created
  mark_created-IsWithin calls w id =
      choose w _ _ _ (IsWithin-refl w) (wrote _ (calls.outcome state))
    where
      wrote :
          (text : J.Text) (o : Outcome)
          → IsWithin w
              (elim o as (λ _. World J × Option ℕ) [
                | written ↦ (put J w id state text, none)
                | kept ↦ (w, some 7)
                | unsynced ↦ (put J w id state text, some 7)
              ]).0
      wrote text written = put_state-IsWithin w id text
      wrote text kept = IsWithin-refl w
      wrote text unsynced = put_state-IsWithin w id text

  -- A directory that holds no document.
  pub make_directory-IsExclusive :
      (w : World J) (id : Bytes)
      → w.file id config ≡ none
      → IsExclusive J w
      → IsExclusive J (make_directory J w id)
  make_directory-IsExclusive w id fresh old =
      IsExclusive-from J w (make_directory J w id) id (λ j. Listed-cases J id j w.listing)
        (λ j v. v) (λ j ne. refl) (λ j l ne v. rw fresh (Compatible-none (read J w j config))) old

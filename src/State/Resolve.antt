-- ===== src/State/Resolve.antt =====
-- mc_state_resolve, against the list of the entries that match.
use minicontainer.Base.{ℕ, ◌+◌, ◌≡◌, Bool, List, [], ◌∷◌, arith, Bytes, length, if◌then◌else◌}
use minicontainer.State.Json.{Json}
use minicontainer.State.Registry.{
  World, opened, Result, ok, err, exit_conflict, exit_not_found, resolves, resolve_loop,
  resolve_result, resolve,
}

abbrev pub select {ℓ} : {A : Type ℓ} → (A → Bool) → List A → List A
select test [] = []
select test (x ∷ xs) = let rest = select test xs in if test x then x ∷ rest else rest

-- The one member of a list, the error for none, or the error for several.
abbrev pub the_only : List Bytes → Result Bytes
the_only [] = err exit_not_found
the_only (id ∷ []) = ok id
the_only (id ∷ other ∷ ids) = err exit_conflict

module _ (J : Json) where
  last_of : Bytes → List Bytes → Bytes
  last_of id [] = id
  last_of id (x ∷ xs) = last_of x xs

  resolve_loop-select :
      (w : World J) (reference : Bytes) (entries : List Bytes) (id : Bytes) (matches : ℕ)
      → resolve_loop J w reference entries id matches ≡ (
        last_of id (select (resolves J w reference) entries),
        matches + length (select (resolves J w reference) entries),
      )
  unfolding resolve_loop last_of
  resolve_loop-select w reference [] id matches = ground arith
  resolve_loop-select w reference (entry ∷ entries) id matches = ground (
    arith,
    resolve_loop-select w reference entries entry (matches + 1),
    resolve_loop-select w reference entries id matches,
  )

  result_of :
      (id : Bytes) (found : List Bytes)
      → resolve_result J (last_of id found, 0 + length found) ≡ the_only found
  unfolding last_of
  result_of id [] = ground arith
  result_of id (x ∷ []) = ground arith
  result_of id (x ∷ y ∷ found) = ground arith

  -- A reference that is not empty resolves to an identifier exactly when that is the only entry of
  -- the registry that it is a prefix of or that has it for a name; it is not found if no entry
  -- matches, and it is a conflict if several do, in whatever order the entries are listed.
  pub resolve-the_only :
      (w : World J) (c : ℕ) (reference : Bytes) (entries : List Bytes)
      → w.listing ≡ opened entries
      → resolve J w (c ∷ reference) ≡ the_only (select (resolves J w (c ∷ reference)) entries)
  unfolding resolve
  resolve-the_only w c reference entries e =
      rw (e, resolve_loop-select w (c ∷ reference) entries [] 0)
        (result_of [] (select (resolves J w (c ∷ reference)) entries))

-- ===== src/Validate/Path/Links.antt =====
-- Link targets, against a walk through the directory tree.
use minicontainer.Base.{
  Bytes, Bool, List, is_some, length, if◌then◌else◌, ◌≡◌, ◌>>=◌, Option, [], true, arith, ◌||◌,
  has_char, ◌∷◌, false, ==_iff, ltb, ◌&&◌, some, refl, none,
}
use minicontainer.Validate.Path.{
  parent_of, starts_slash, link_stays_beneath, apply_components, is_empty, skip_slash, slash,
  parent_size,
}
use minicontainer.Validate.Path.Walk.{walk, depth_of, walk_skip, apply_components-walk}

-- A link target resolved against the root or against the directory of its entry.
pub link_resolves : Bytes → Bytes → Bool
link_resolves entry_path target =
    if is_empty target || has_char b'\\' target
    then false
    else if starts_slash target
    then is_some (walk target [])
    else ltb (length (parent_of entry_path)) parent_size
      && is_some (walk (parent_of entry_path) [] >>= walk target)

walks :
    (path : Bytes) (stack : List Bytes)
    → is_some (apply_components path (length stack)) ≡ is_some (walk path stack)
walks path stack = rw (apply_components-walk path stack) (go (walk path stack))
  where
    go : (o : Option (List Bytes)) → is_some (depth_of o) ≡ is_some o
    go none = refl
    go (some t) = refl

walks_twice :
    (parent target : Bytes)
    → is_some (apply_components parent 0 >>= λ depth. apply_components target depth)
      ≡ is_some (walk parent [] >>= walk target)
walks_twice parent target = rw (apply_components-walk parent []) (go (walk parent []))
  where
    go :
        (o : Option (List Bytes))
        → is_some (depth_of o >>= λ depth. apply_components target depth)
          ≡ is_some (o >>= walk target)
    go none = refl
    go (some t) = walks target t

absolute :
    (target : Bytes)
    → starts_slash target ≡ true
    → is_some (apply_components (skip_slash target) 0) ≡ is_some (walk target [])
absolute [] h = cc
absolute (c ∷ s) h = let e = (==_iff c slash).0 h in rw (e, walk_skip) (walks s [])

-- A link is accepted exactly when its target is not empty and holds no backslash, the path of the
-- directory of the entry fits the buffer where the target is relative, and the walk along the
-- target, from the root for an absolute target and from the directory of the entry for a relative
-- one, never goes above the root.
pub link_stays_beneath-link_resolves :
    (entry_path target : Bytes)
    → link_stays_beneath entry_path target ≡ link_resolves entry_path target
unfolding link_stays_beneath link_resolves
link_stays_beneath-link_resolves entry_path target =
    ground (arith, absolute target, walks_twice (parent_of entry_path) target)

-- ===== src/Launch/Room.antt =====
-- runtime/launch.c: the argument list of the shim stays inside the array that is allocated for it.
use minicontainer.Base.{
  ℕ, zero, suc, ◌+◌, ◌-◌, ◌*◌, ◌≤◌, ◌<◌, ◌≡◌, refl, sym, ap, ◌∙◌, Bool, true, false, some, List, [],
  ◌∷◌, ◌++◌, map, arith, Bytes, codes, length, if◌then◌else◌, length-append, length-map, subst,
}
use minicontainer.Mount.{Mount, MountType, bind, tmpfs}
use minicontainer.Launch.{
  publish_value, RunConfig, Slot, flagged, has_bit, capability_slots, all_mount_slots, denied_names,
  fixed_slots, limit_slots, ready_slots, readonly_slots, shim_arguments, allocated_slots,
  mount_slots,
}

length-flagged :
    (flag : Bytes) (values : List Bytes) → length (flagged flag values) ≡ length values * 2
length-flagged flag [] = refl
length-flagged flag (value ∷ values) = omega (arith, length-flagged flag values)

length-all_mount_slots : (mounts : List Mount) → length (all_mount_slots mounts) ≡ length mounts * 2
length-all_mount_slots [] = refl
length-all_mount_slots (m ∷ mounts) = omega (
  arith,
  length-append (mount_slots m m.type) (all_mount_slots mounts),
  two m m.type,
  length-all_mount_slots mounts,
)
  where
    two : (m : Mount) (type : MountType) → length (mount_slots m type) ≡ 2
    two m bind = refl
    two m tmpfs = refl

length-capability_slots :
    (mask rounds index : ℕ)
    → ((i : ℕ) → 41 ≤ i → has_bit mask i ≡ false)
    → length (capability_slots mask rounds index) ≤ (41 - index) * 2
unfolding capability_slots
length-capability_slots mask zero index named = omega arith
length-capability_slots mask (suc rounds) index named =
    ground (arith, length-capability_slots mask rounds (index + 1) named, named index)

length-ready_slots :
    (descriptor : ℕ) (config : RunConfig) → length (ready_slots descriptor config) ≤ 3
length-ready_slots descriptor config = go config.options.detach _ (omega arith)
  where
    go : (b : Bool) (slots : List Slot) → length slots ≤ 3 → length (if b then slots else []) ≤ 3
    go true slots e = e
    go false slots e = omega arith

length-readonly_slots : (config : RunConfig) → length (readonly_slots config) ≤ 1
length-readonly_slots config = go config.options.readonly_root _ (omega arith)
  where
    go : (b : Bool) (slots : List Slot) → length slots ≤ 1 → length (if b then slots else []) ≤ 1
    go true slots e = e
    go false slots e = omega arith

length-parts :
    (a b c d e f g h i j : List Slot)
    → length (a ++ (b ++ (c ++ (d ++ (e ++ (f ++ (g ++ (h ++ (i ++ j)))))))))
      ≡ length a
        + length b
        + length c
        + length d
        + length e
        + length f
        + length g
        + length h
        + length i
        + length j
length-parts a b c d e f g h i j = omega (
  arith,
  length-append a (b ++ (c ++ (d ++ (e ++ (f ++ (g ++ (h ++ (i ++ j)))))))),
  length-append b (c ++ (d ++ (e ++ (f ++ (g ++ (h ++ (i ++ j))))))),
  length-append c (d ++ (e ++ (f ++ (g ++ (h ++ (i ++ j)))))),
  length-append d (e ++ (f ++ (g ++ (h ++ (i ++ j))))),
  length-append e (f ++ (g ++ (h ++ (i ++ j)))),
  length-append f (g ++ (h ++ (i ++ j))),
  length-append g (h ++ (i ++ j)),
  length-append h (i ++ j),
  length-append i j,
)

-- The arithmetic of the theorem.
parts_fit :
    (environment publishes mounts denies command a b d e f g h i j : ℕ)
    → a ≡ 11
    → b ≡ environment * 2
    → d ≡ publishes * 2
    → e ≤ 82
    → f ≤ 1
    → g ≡ mounts * 2
    → h ≡ denies * 2
    → i ≤ 3
    → j ≡ command + 1
    → a + b + 12 + d + e + f + g + h + i + j
      < command + 111 + environment * 2 + publishes * 2 + mounts * 2 + denies * 2
parts_fit environment publishes mounts denies command a b d e f g h i j ha hb hd he hf hg hh hi hj =
    omega arith

-- Where every capability of the mask has a name, so that no bit from 41 on is set, the array that
-- is allocated holds all arguments and the NULL behind them.
pub shim_arguments-fit :
    (path : Bytes) (descriptor : ℕ) (config : RunConfig)
    → ((i : ℕ) → 41 ≤ i → has_bit config.options.capability_mask i ≡ false)
    → length (shim_arguments path descriptor config) < allocated_slots config
unfolding shim_arguments
shim_arguments-fit path descriptor config named =
    let o = config.options in
    let environment = flagged (codes "--env") o.environment in
    let publishes = flagged (codes "--publish") (map publish_value o.publishes) in
    let capabilities = capability_slots o.capability_mask 64 0 in
    let denies = flagged (codes "--seccomp-deny") (denied_names o.seccomp_denies) in
    let command : List Slot = some (codes "--") ∷ map some config.command in
    subst (λ n. n < allocated_slots config)
      (sym (
        length-parts (fixed_slots path config) environment (limit_slots config) publishes
          capabilities (readonly_slots config) (all_mount_slots o.mounts) denies
          (ready_slots descriptor config) command))
      (parts_fit (length o.environment) (length o.publishes) (length o.mounts)
        (length (denied_names o.seccomp_denies)) (length config.command) _ _ _ _ _ _ _ _ _ refl
        (length-flagged (codes "--env") o.environment)
        (length-flagged (codes "--publish") (map publish_value o.publishes)
          ∙ ap (λ n. n * 2) (length-map publish_value o.publishes))
        (length-capability_slots o.capability_mask 64 0 named) (length-readonly_slots config)
        (length-all_mount_slots o.mounts)
        (length-flagged (codes "--seccomp-deny") (denied_names o.seccomp_denies))
        (length-ready_slots descriptor config)
        (omega (arith, length-map {B = Slot} some config.command)))

-- ===== src/State/Ports.antt =====
-- published_port_is_taken: what its answer 0 rules out.
use minicontainer.Base.{
  ◌≡◌, ◌≢◌, ◌⊎◌, refl, Bool, false, Option, none, some, List, [], ◌∷◌, arith, Bytes, All, any,
  subst, All-map, some-injective,
}
use minicontainer.Network.{Publish, clashes}
use minicontainer.State.Json.{Json}
use minicontainer.State.Registry.{
  World, opened, skipped, stored_clash, stored_publish, stored_publishes, port_loop,
  published_port_is_taken,
}

pub any-false {ℓ} :
    {A : Type ℓ} (test : A → Bool) (xs : List A)
    → any test xs ≡ false
    → All (λ x. test x ≡ false) xs
any-false test [] h = tt
any-false test (x ∷ xs) h = ground (arith, any-false test xs)

-- What makes two publications exclude each other: the same protocol and host port, at the same
-- address or at any address (0.0.0.0) for one of the two.
pub record Clash (a b : Publish) : Type 0 where
  pub protocol : a.protocol ≡ b.protocol
  pub host_port : a.host_port ≡ b.host_port
  pub address : (a.host_ipv4 ≡ 0) ⊎ (b.host_ipv4 ≡ 0) ⊎ (a.host_ipv4 ≡ b.host_ipv4)

clashes-Clash : (a b : Publish) → clashes a b ≡ false → ¬ Clash a b
clashes-Clash a b h k = go k.protocol k.host_port k.address
  where
    go :
        a.protocol ≡ b.protocol
        → a.host_port ≡ b.host_port
        → (a.host_ipv4 ≡ 0) ⊎ (b.host_ipv4 ≡ 0) ⊎ (a.host_ipv4 ≡ b.host_ipv4)
        → ⊥
    go p q r = ground arith

module _ (J : Json) where
  -- No publication that is stored for the container clashes with a requested one.
  abbrev pub IsFree : World J → List Publish → Bytes → Type 0
  IsFree w requested id =
      All (λ stored. stored_clash J requested stored ≡ false) (stored_publishes J w id)

  port_loop-IsFree :
      (w : World J) (requested : List Publish) (own_id : Bytes) (ids : List Bytes)
      → port_loop J w requested own_id ids ≡ false
      → All (λ id. skipped J w own_id id ≡ false → IsFree w requested id) ids
  unfolding port_loop
  port_loop-IsFree w requested own_id [] h = tt
  port_loop-IsFree w requested own_id (id ∷ ids) h = (
    λ kept. any-false (stored_clash J requested) (stored_publishes J w id) (ground arith),
    port_loop-IsFree w requested own_id ids (ground arith),
  )

  not_clashing :
      (requested : List Publish) (stored : J.Value) {existing : Publish}
      → stored_clash J requested stored ≡ false
      → stored_publish J stored ≡ some existing
      → All (λ r. ¬ Clash r existing) requested
  not_clashing requested stored {existing} h e =
      All-map _ _ (λ r. clashes-Clash r existing) requested (go (stored_publish J stored) e h)
    where
      go :
          (o : Option Publish)
          → o ≡ some existing
          → (elim o [ none ↦ false | some other ↦ any (λ r. clashes r other) requested ]) ≡ false
          → All (λ r. clashes r existing ≡ false) requested
      go none e' h' = cc
      go (some other) e' h' =
          any-false (λ r. clashes r existing) requested
            (subst (λ p. any (λ r. clashes r p) requested ≡ false)
              (some-injective other existing e') h')

  -- Where the scan answers 0, no container of the registry but the own one, those whose name starts
  -- with '.' and those whose path is too long, has a stored publication with an address, a port and a
  -- protocol that clashes with one of the requested: the same protocol and host port, at the same
  -- address or at 0.0.0.0 for one of the two.
  pub published_port_is_taken-IsFree :
      (w : World J) (requested : List Publish) (own_id : Bytes) (ids : List Bytes)
      → w.listing ≡ opened ids
      → requested ≢ []
      → published_port_is_taken J w requested own_id ≡ false
      → All
          (λ id.
            skipped J w own_id id ≡ false
            → All
                (λ stored.
                  (existing : Publish)
                  → stored_publish J stored ≡ some existing
                  → All (λ r. ¬ Clash r existing) requested)
                (stored_publishes J w id))
          ids
  unfolding published_port_is_taken
  published_port_is_taken-IsFree w [] own_id ids e some_requested h = absurd (some_requested refl)
  published_port_is_taken-IsFree w (p ∷ requested) own_id ids e some_requested h =
      All-map _ _
        (λ id free kept.
          All-map _ _ (λ stored q existing s. not_clashing (p ∷ requested) stored q s)
            (stored_publishes J w id) (free kept))
        ids (port_loop-IsFree w (p ∷ requested) own_id ids (rw e at h))

-- ===== src/Linux/Answered.antt =====
-- linux/container.c and state/store.c: what the shim delivers for a request, and what the command line
-- makes of its reply.
use minicontainer.Base.{
  ℕ, ◌≡◌, refl, ap, Bool, true, false, not, ◌&&◌, Option, none, some, Bytes, codes, ◌==◌,
  if◌then◌else◌, ==_iff, arith, sym, some-injective, ◌∙◌, subst,
}
use minicontainer.State.Json.{Json}
use minicontainer.State.Registry.{ok, err, exit_runtime}
use minicontainer.State.Identity.{contains, exchange}
use minicontainer.Linux.Control.{
  Delivery, to_cgroup, to_init, control_reply, Connection, requested_signal, Answer, refuse,
  deliver, is_superuser, handle_control, reply_with,
}

module _ (J : Json) where
  -- What is delivered for a signal that is asked for, where the call for it works: SIGKILL to an active
  -- control group, and any other signal, or SIGKILL without one, to the first process.
  abbrev pub Delivers : Connection J → Bool → ℕ → Delivery → Type 0
  Delivers c active number to_cgroup = (number ≡ 9) × (active ≡ true) × (c.kills ≡ true)
  Delivers c active number (to_init sent) =
      (sent ≡ number) × (c.signals number ≡ true) × ((number == 9 && active) ≡ false)

  -- The superuser has asked for the signal, and the call that delivers it works.
  pub record Due (c : Connection J) (active : Bool) (text : J.Text) (number : ℕ)
      (delivery : Delivery) : Type 0 where
    pub accepted : c.accepted ≡ true
    pub request : c.request ≡ some text
    pub requested : requested_signal J text ≡ some number
    pub peer : c.peer ≡ some 0
    pub works : Delivers c active number delivery

  abbrev pub Idle : Connection J → Bool → Type 0
  Idle c active =
      (text : J.Text) (number : ℕ) (delivery : Delivery) → ¬ Due c active text number delivery

  -- A delivery that is due, and the reply, taken as success where it is sent; or none is due and none is
  -- made, and the reply is not taken as success.
  abbrev pub IsAnswered : Connection J → Bool → Bytes → Answer J → Type 0
  IsAnswered c active id (some delivery, reply) =
      (text : J.Text) × (number : ℕ) × Due c active text number delivery
      × (exchange J reply id ≡ (if c.sends then ok id else err exit_runtime))
  IsAnswered c active id (none, reply) = Idle c active × (exchange J reply id ≡ err exit_runtime)

  success :
      (c : Connection J) (id : Bytes)
      → exchange J (reply_with J c true (codes "signal delivered")) id
        ≡ (if c.sends then ok id else err exit_runtime)
  unfolding contains
  success c id = go c.sends
    where
      go :
          (b : Bool)
          → exchange J (if b then some (control_reply true (codes "signal delivered")) else none) id
            ≡ (if b then ok id else err exit_runtime)
      go true = refl
      go false = refl

  refused :
      (c : Connection J) (active : Bool) (id message : Bytes)
      → contains (codes "\"ok\":true") (control_reply false message) ≡ false
      → Idle c active
      → IsAnswered c active id (refuse J c message)
  refused c active id message h idle = (idle, go c.sends)
    where
      go :
          (b : Bool)
          → exchange J (if b then some (control_reply false message) else none) id
            ≡ err exit_runtime
      go true = rw h refl
      go false = refl

  differ : ◌≡◌ {A = Bool} false true → ⊥
  differ e = cc

  -- A request that is known has one signal.
  number_of_Due :
      {c : Connection J} {active : Bool} {text : J.Text} {o : Option ℕ}
      → c.request ≡ some text
      → requested_signal J text ≡ o
      → (other : J.Text) (number : ℕ) (delivery : Delivery) → Due c active other number delivery
      → o ≡ some number
  number_of_Due {c} {active} {text} {o} asked known other number delivery due =
      sym known
      ∙ subst (λ t. requested_signal J t ≡ some number)
          (some-injective other text (sym due.request ∙ asked)) due.requested

  delivered :
      (c : Connection J) (active : Bool) (id : Bytes) (text : J.Text) (number : ℕ)
      → c.accepted ≡ true
      → c.request ≡ some text
      → requested_signal J text ≡ some number
      → c.peer ≡ some 0
      → IsAnswered c active id (deliver J c active number)
  unfolding contains
  delivered c active id text number taken asked known root =
      go (number == 9 && active) c.kills (c.signals number) refl refl refl
    where
      sent :
          (delivery : Delivery)
          → Delivers c active number delivery
          → IsAnswered c active id (some delivery, reply_with J c true (codes "signal delivered"))
      sent delivery works = (
        text,
        number,
        record { accepted = taken; request = asked; requested = known; peer = root; works = works },
        success c id,
      )

      same :
          (other : J.Text) (n : ℕ) (delivery : Delivery)
          → Due c active other n delivery
          → number ≡ n
      same other n delivery due = some-injective number n (
          number_of_Due {c = c} {active = active} {text = text} {o = some number} asked known other
            n delivery due)

      unkilled : (number == 9 && active) ≡ true → c.kills ≡ false → Idle c active
      unkilled p q other n to_cgroup due = differ (sym q ∙ due.works.2)
      unkilled p q other n (to_init k) due =
          differ (
            sym due.works.2 ∙ (ap (λ m. m == 9 && active) (sym (same other n (to_init k) due)) ∙ p))

      unsignalled : (number == 9 && active) ≡ false → c.signals number ≡ false → Idle c active
      unsignalled p r other n to_cgroup due =
          let e = same other n to_cgroup due in
          let nine = due.works.0 in let on = due.works.1 in ground arith
      unsignalled p r other n (to_init k) due =
          differ (sym r ∙ (ap c.signals (same other n (to_init k) due) ∙ due.works.1))

      go :
          (a b d : Bool)
          → (number == 9 && active) ≡ a
          → c.kills ≡ b
          → c.signals number ≡ d
          → IsAnswered c active id (
              if◌then◌else◌ {A = Answer J} a
                (if b
                  then (some to_cgroup, reply_with J c true (codes "signal delivered"))
                  else refuse J c (codes "cgroup kill failed"))
                (if d
                  then (some (to_init number), reply_with J c true (codes "signal delivered"))
                  else refuse J c (codes "pidfd signal failed")))
      go true true d p q r = sent to_cgroup (ground arith, ground arith, q)
      go true false d p q r = refused c active id (codes "cgroup kill failed") refl (unkilled p q)
      go false b true p q r = sent (to_init number) (refl, r, p)
      go false b false p q r =
          refused c active id (codes "pidfd signal failed") refl (unsignalled p r)

  -- Where a connection is accepted, its request is valid, its peer is the superuser and the call for the
  -- signal works, the shim delivers the signal that is asked for, SIGKILL to an active control group and
  -- else to the first process, and the command line takes the reply as success if it is sent. In every
  -- other case nothing is delivered, and the command line fails.
  pub handle_control-IsAnswered :
      (c : Connection J) (active : Bool) (id : Bytes)
      → IsAnswered c active id (handle_control J c active)
  unfolding handle_control contains
  handle_control-IsAnswered c active id = accepted c.accepted refl
    where
      peer : (o : Option ℕ) → is_superuser J o ≡ true → o ≡ some 0
      peer none e = cc
      peer (some user) e = ap some ((==_iff user 0).0 e)

      known :
          (text : J.Text) (o : Option ℕ)
          → c.accepted ≡ true
          → c.request ≡ some text
          → requested_signal J text ≡ o
          → c.peer ≡ some 0
          → IsAnswered c active id (elim o as (λ _. Answer J) [
            | none ↦ refuse J c (codes "invalid request")
            | some number ↦ deliver J c active number
          ])
      known text none taken asked e root =
          refused c active id (codes "invalid request") refl (λ other n delivery due. absent (
            number_of_Due {c = c} {active = active} {text = text} {o = none} asked e other n
              delivery due))
        where
          absent : {n : ℕ} → none ≡ some n → ⊥
          absent q = cc
      known text (some number) taken asked e root =
          delivered c active id text number taken asked e root

      allowed :
          (text : J.Text) (b : Bool)
          → c.accepted ≡ true
          → c.request ≡ some text
          → is_superuser J c.peer ≡ b
          → IsAnswered c active id (
              if not b
              then refuse J c (codes "permission denied")
              else (elim (requested_signal J text) as (λ _. Answer J) [
                | none ↦ refuse J c (codes "invalid request")
                | some number ↦ deliver J c active number
              ]))
      allowed text true taken asked e =
          known text (requested_signal J text) taken asked refl (peer c.peer e)
      allowed text false taken asked e =
          refused c active id (codes "permission denied") refl
            (λ other n delivery due. differ (sym e ∙ ap (is_superuser J) due.peer))

      received :
          (o : Option J.Text)
          → c.accepted ≡ true
          → c.request ≡ o
          → IsAnswered c active id (elim o as (λ _. Answer J) [
            | none ↦ refuse J c (codes "invalid request")
            | some text ↦
                if not (is_superuser J c.peer)
                then refuse J c (codes "permission denied")
                else (elim (requested_signal J text) as (λ _. Answer J) [
                  | none ↦ refuse J c (codes "invalid request")
                  | some number ↦ deliver J c active number
                ])
          ])
      received none taken e =
          refused c active id (codes "invalid request") refl
            (λ other n delivery due. absent (sym e ∙ due.request))
        where
          absent : {t : J.Text} → none ≡ some t → ⊥
          absent q = cc
      received (some text) taken e = allowed text (is_superuser J c.peer) taken e refl

      accepted :
          (b : Bool)
          → c.accepted ≡ b
          → IsAnswered c active id (
              if◌then◌else◌ {A = Answer J}
                (not b)
                (none, none)
                (elim c.request as (λ _. Answer J) [
                  | none ↦ refuse J c (codes "invalid request")
                  | some text ↦
                      if not (is_superuser J c.peer)
                      then refuse J c (codes "permission denied")
                      else (elim (requested_signal J text) as (λ _. Answer J) [
                        | none ↦ refuse J c (codes "invalid request")
                        | some number ↦ deliver J c active number
                      ])
                ]))
      accepted true e = received c.request e refl
      accepted false e = ((λ other n delivery due. differ (sym e ∙ due.accepted)), refl)

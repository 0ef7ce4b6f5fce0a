-- ===== src/Linux/Control.antt =====
-- linux/container.c: handle_control, the answer of the shim to a request on its control socket.
use minicontainer.Base.{
  ℕ, Bool, true, false, not, ◌&&◌, ◌||◌, Option, none, some, ◌++◌, Bytes, codes, ◌==◌, leb,
  if◌then◌else◌, ◌>>=◌, ◌>>◌, guard, str_eq,
}
use minicontainer.State.Json.{Json}
use minicontainer.Cli.Commands.{sigkill}

-- NSIG
abbrev nsig : ℕ
nsig = 65

-- What is killed or signalled: all of the control group, or the first process.
pub data Delivery : Type 0 where
  to_cgroup : Delivery
  to_init : ℕ → Delivery

abbrev pub control_reply : Bool → Bytes → Bytes
control_reply done message =
    codes "{\"version\":1,\"ok\":"
    ++ ((if done then codes "true" else codes "false")
        ++ (codes ",\"message\":\"" ++ (message ++ codes "\"}")))

module _ (J : Json) where
  -- The result of accept4, the text that recv returns, `none` for none, the user of the peer, and
  -- whether the write to cgroup.kill, pidfd_send_signal and the send of the reply work.
  pub record Connection : Type 0 where
    pub accepted : Bool
    pub request : Option J.Text
    pub peer : Option ℕ
    pub kills : Bool
    pub signals : ℕ → Bool
    pub sends : Bool

  -- The number of the signal, a negative one as an unsigned number; `none` for an invalid request.
  unfoldable pub requested_signal : J.Text → Option ℕ
  requested_signal text = J.parse text >>= λ root. J.get root (codes "version") >>= λ version.
      guard (J.get_int version == 1)
      >> (J.get root (codes "operation") >>= λ operation.
          guard (str_eq (J.get_string operation) (codes "signal"))
          >> (J.get root (codes "signal") >>= λ value.
              let number = J.get_int value in
              if number == 0 || leb nsig number then none else some number))

  abbrev pub Answer : Type 0
  Answer = Option Delivery × Option Bytes

  -- What the peer receives: nothing where send fails, which the shim does not look at.
  abbrev pub reply_with : Connection → Bool → Bytes → Option Bytes
  reply_with c done message = if c.sends then some (control_reply done message) else none

  abbrev pub refuse : Connection → Bytes → Answer
  refuse c message = (none, reply_with c false message)

  abbrev deliver_if : Connection → Bool → Delivery → Bytes → Answer
  deliver_if c works delivery message =
      if works
      then (some delivery, reply_with c true (codes "signal delivered"))
      else refuse c message

  abbrev pub deliver : Connection → Bool → ℕ → Answer
  deliver c active number =
      if number == sigkill && active
      then deliver_if c c.kills to_cgroup (codes "cgroup kill failed")
      else deliver_if c (c.signals number) (to_init number) (codes "pidfd signal failed")

  abbrev pub is_superuser : Option ℕ → Bool
  is_superuser none = false
  is_superuser (some user) = user == 0

  -- What is delivered, and the reply; `active` tells whether the control group is.
  unfoldable pub handle_control : Connection → Bool → Answer
  handle_control c active =
      if not c.accepted then (none, none) else (elim c.request as (λ _. Answer) [
        | none ↦ refuse c (codes "invalid request")
        | some text ↦
            if not (is_superuser c.peer)
            then refuse c (codes "permission denied")
            else (elim (requested_signal text) as (λ _. Answer) [
              | none ↦ refuse c (codes "invalid request")
              | some number ↦ deliver c active number
            ])
      ])

-- ===== src/Network.antt =====
-- network/parse.c: mc_parse_publish, with the calls of sscanf and inet_pton (as glibc has them) that
-- it makes, and the test of two publications for a clash that cli/main.c and state/store.c share.
pub mod Bounds
use minicontainer.Base.{
  ℕ, zero, suc, ◌+◌, ◌-◌, ◌*◌, ◌/◌, ◌%◌, ◌^◌, ◌≤◌, ◌<◌, ◌≡◌, ◌≢◌, ◌↔◌, ◌⊎◌, inl, inr, refl, sym, ap,
  ◌∙◌, Bool, true, false, not, ◌&&◌, ◌||◌, Option, none, some, List, [], ◌∷◌, ◌++◌, map, arith,
  Bytes, codes, length, All, ◌==◌, leb, ltb, if◌then◌else◌, ◌>>=◌, ◌>>◌, guard, is_some, Bool-cases,
  Option-cases,
}
use minicontainer.Base.{is_digit, is_lower, str_eq}
use minicontainer.Base.Number.{strtoull}

-- struct mc_publish
pub record Publish : Type 0 where
  pub host_ipv4 : ℕ
  pub host_port : ℕ
  pub container_port : ℕ
  pub protocol : ℕ

abbrev pub tcp : ℕ
tcp = 6

abbrev pub udp : ℕ
udp = 17

-- %15[0-9.] and %3[a-z]: the longest run of at most `limit` bytes, which must not be empty.
unfoldable pub run_of : (ℕ → Bool) → ℕ → Bytes → Bytes × Bytes
run_of allowed zero s = ([], s)
run_of allowed (suc limit) [] = ([], [])
run_of allowed (suc limit) (c ∷ s) =
    let rest = run_of allowed limit s in if allowed c then (c ∷ rest.0, rest.1) else ([], c ∷ s)

unfoldable pub scan_run : (ℕ → Bool) → ℕ → Bytes → Option (Bytes × Bytes)
unfolding run_of
scan_run allowed limit s =
    let (text, rest) = run_of allowed limit s in
    elim text [ [] ↦ none | c ∷ t ↦ some (c ∷ t, rest) ]

-- A byte of the format that must be met.
unfoldable pub scan_literal : ℕ → Bytes → Option Bytes
scan_literal c [] = none
scan_literal c (d ∷ s) = if d == c then some s else none

-- %u: what strtoul reads, stored in an unsigned int.
pub scan_unsigned : Bytes → Option (ℕ × Bytes)
scan_unsigned s = let p = strtoull s in if p.moved then some (p.value % 2 ^ 32, p.rest) else none

-- The variables of inet_pton: the octets that are complete, the current one, their number, and
-- whether the current one has a digit.
pub record Quad : Type 0 where
  pub done : ℕ
  pub current : ℕ
  pub octets : ℕ
  pub saw_digit : Bool

pub quad_step : ℕ → Quad → Option Quad
quad_step c q =
    if is_digit c
    then (let next = q.current * 10 + (c - b'0') in
        if q.saw_digit && q.current == 0
        then none
        else if ltb 255 next
        then none
        else if q.saw_digit
        then some (record q { current = next })
        else if leb 4 q.octets
        then none
        else some (record q { current = next; octets = q.octets + 1; saw_digit = true }))
    else if c == b'.' && q.saw_digit
    then (if q.octets == 4
        then none
        else some (record {
          done = q.done * 256 + q.current;
          current = 0;
          octets = q.octets;
          saw_digit = false;
        }))
    else none

pub quad_loop : Bytes → Quad → Option Quad
quad_loop [] q = some q
quad_loop (c ∷ s) q = quad_step c q >>= quad_loop s

abbrev pub quad_start : Quad
quad_start = record { done = 0; current = 0; octets = 0; saw_digit = false }

-- The address in host byte order.
unfoldable pub inet_pton : Bytes → Option ℕ
unfolding quad_loop quad_step
inet_pton s =
    quad_loop s quad_start >>= λ q. if ltb q.octets 4 then none else some (q.done * 256 + q.current)

abbrev address_char : ℕ → Bool
address_char c = is_digit c || c == b'.'

abbrev port_max : ℕ
port_max = 65535

unfoldable pub protocol_number : Bytes → Option ℕ
protocol_number text =
    if str_eq text (codes "tcp")
    then some tcp
    else if str_eq text (codes "udp")
    then some udp
    else none

-- What sscanf stores where it returns 4: nothing stands behind the protocol.
pub record Fields : Type 0 where
  pub address_text : Bytes
  pub host_port : ℕ
  pub container_port : ℕ
  pub protocol_text : Bytes

abbrev at_end : Fields → Bytes → Option Fields
at_end fields [] = some fields
at_end fields (c ∷ rest) = none

unfoldable pub scan_fields : Bytes → Option Fields
unfolding scan_run scan_literal scan_unsigned
scan_fields value = do
  (address_text, s1) ← scan_run address_char 15 value
  s2 ← scan_literal b':' s1
  (host_port, s3) ← scan_unsigned s2
  s4 ← scan_literal b':' s3
  (container_port, s5) ← scan_unsigned s4
  s6 ← scan_literal b'/' s5
  (protocol_text, s7) ← scan_run is_lower 3 s6
  at_end
      (record {
        address_text = address_text;
        host_port = host_port;
        container_port = container_port;
        protocol_text = protocol_text;
      })
      s7

abbrev pub check_fields : Fields → Option Publish
check_fields f = inet_pton f.address_text >>= λ address.
    if f.host_port == 0
      || ltb port_max f.host_port
      || f.container_port == 0
      || ltb port_max f.container_port
    then none
    else (protocol_number f.protocol_text >>= λ protocol. some (record {
      host_ipv4 = address;
      host_port = f.host_port;
      container_port = f.container_port;
      protocol = protocol;
    }))

unfoldable pub parse_publish : Bytes → Option Publish
parse_publish value = scan_fields value >>= check_fields

-- Two publications clash: the same protocol and host port, at one address or at any address.
abbrev pub clashes : Publish → Publish → Bool
clashes a b =
    a.protocol == b.protocol
    && a.host_port == b.host_port
    && (a.host_ipv4 == 0 || b.host_ipv4 == 0 || a.host_ipv4 == b.host_ipv4)

tcp_publish :
    parse_publish (codes "127.0.0.1:8080:80/tcp")
    ≡ some
        (record { host_ipv4 = 0x7f000001; host_port = 8080; container_port = 80; protocol = tcp })
unfolding parse_publish strtoull scan_fields protocol_number inet_pton
tcp_publish = refl

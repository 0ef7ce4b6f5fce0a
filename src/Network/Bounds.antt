-- ===== src/Network/Bounds.antt =====
-- The ranges of an accepted publication.
use minicontainer.Base.{
  ℕ, ◌+◌, ◌*◌, ◌^◌, ◌≤◌, ◌<◌, ◌≡◌, ◌⊎◌, none, some, [], ◌∷◌, arith, Bytes, ◌==◌, ltb, if◌then◌else◌,
  >>=-eq-some, subst, some-injective,
}
use minicontainer.Network.{
  Quad, quad_step, quad_loop, quad_start, inet_pton, protocol_number, Publish, tcp, udp, Fields,
  check_fields, scan_fields, parse_publish,
}

abbrev limit : ℕ → ℕ
limit n =
    if n == 0
    then 1
    else if n == 1
    then 2 ^ 8
    else if n == 2
    then 2 ^ 16
    else if n == 3
    then 2 ^ 24
    else 2 ^ 32

-- The octets that are begun or may begin next.
abbrev slots : Quad → ℕ
slots q = q.octets + (if q.saw_digit then 0 else 1)

-- Each octet is a byte, there are at most four, and the complete ones fit their number of bytes.
record IsQuad (q : Quad) : Type 0 where
  current : q.current ≤ 255
  first : 1 ≤ slots q
  last : slots q ≤ 4
  done : q.done * 256 < limit (slots q)

quad_step-IsQuad : (c : ℕ) (q : Quad) {r : Quad} → IsQuad q → quad_step c q ≡ some r → IsQuad r
unfolding quad_step
quad_step-IsQuad c q v h = ground arith

quad_loop-IsQuad : (s : Bytes) (q : Quad) {r : Quad} → IsQuad q → quad_loop s q ≡ some r → IsQuad r
unfolding quad_loop
quad_loop-IsQuad [] q {r} v h = subst IsQuad (some-injective q r h) v
quad_loop-IsQuad (c ∷ s) q {r} v h =
    let (t, first, later) = >>=-eq-some (quad_step c q) (quad_loop s) {b = r} h in
    quad_loop-IsQuad s t {r = r} (quad_step-IsQuad c q {r = t} v first) later

quad_end :
    (q : Quad) {a : ℕ}
    → IsQuad q
    → (if ltb q.octets 4 then none else some (q.done * 256 + q.current)) ≡ some a
    → a < 2 ^ 32
quad_end q v h = ground arith

inet_pton-lt : (s : Bytes) {address : ℕ} → inet_pton s ≡ some address → address < 2 ^ 32
unfolding inet_pton
inet_pton-lt s {address} h =
    let (q, read, last) = >>=-eq-some (quad_loop s quad_start) _ {b = address} h in
    quad_end q
      (quad_loop-IsQuad s quad_start {r = q}
        (record {
          current = omega arith;
          first = omega arith;
          last = omega arith;
          done = omega arith;
        })
        read)
      last

-- What every publication in the program satisfies.
pub record IsPublish (p : Publish) : Type 0 where
  pub address : p.host_ipv4 < 2 ^ 32
  pub host : (0 < p.host_port) × (p.host_port < 2 ^ 16)
  pub container : (0 < p.container_port) × (p.container_port < 2 ^ 16)
  pub protocol : (p.protocol ≡ tcp) ⊎ (p.protocol ≡ udp)

check_fields-IsPublish : (f : Fields) {p : Publish} → check_fields f ≡ some p → IsPublish p
unfolding protocol_number
check_fields-IsPublish f {p} h =
    let (address, read, more) = >>=-eq-some (inet_pton f.address_text) _ {b = p} h in
    let bound = inet_pton-lt f.address_text {address = address} read in ground (arith, bound)

-- An accepted publication has an address of 32 bits, host and container ports from 1 to 65535, so
-- that the casts to uint16_t lose nothing, and the protocol number of TCP or UDP.
pub parse_publish-IsPublish :
    (value : Bytes) {p : Publish} → parse_publish value ≡ some p → IsPublish p
unfolding parse_publish
parse_publish-IsPublish value {p} h =
    let (f, scanned, checked) = >>=-eq-some (scan_fields value) check_fields {b = p} h in
    check_fields-IsPublish f {p = p} checked

-- ===== src/Security/Narrow.antt =====
-- linux/security.c: what the filter holds of the system calls that a custom profile denies.
use minicontainer.Base.{
  ℕ, ◌≡◌, ◌≢◌, inl, inr, refl, sym, ap, ◌∙◌, Bool, true, false, Option, none, some, List, [], ◌∷◌,
  ◌++◌, arith, Bytes, codes, All, if◌then◌else◌, Bool-cases, subst, some-injective, All-append,
  >>=-eq-some, not,
}
use minicontainer.Security.{
  Seccomp, Filter, fail, Rule, allow, fail_with, allowed, denied_by_profile, add_rule, add_rules,
  allow_syscall, unless_denied, allow_names, seccomp_rules, install_seccomp, clone3_rules,
  clone_rules, socket_rules,
}

abbrev pub number_of : Rule → ℕ
number_of (allow number tests) = number
number_of (fail_with errno number) = number

-- What libseccomp documents of names: each has a number of its own, and SCMP_SYS gives it.
pub record IsNaming (lib : Seccomp) : Type 0 where
  pub distinct :
      (a b : Bytes) (number : ℕ)
      → lib.resolve_name a ≡ some number
      → lib.resolve_name b ≡ some number
      → a ≡ b
  pub clone3 : lib.resolve_name (codes "clone3") ≡ some (lib.sys (codes "clone3"))
  pub clone : lib.resolve_name (codes "clone") ≡ some (lib.sys (codes "clone"))
  pub socket : lib.resolve_name (codes "socket") ≡ some (lib.sys (codes "socket"))

module _ (lib : Seccomp) (P : Rule → Type 0) where
  add_rules-All :
      (rules filter : List Rule) {out : List Rule}
      → All P rules
      → All P filter
      → add_rules lib rules filter ≡ some out
      → All P out
  unfolding add_rules add_rule
  add_rules-All [] filter {out} hr hf e = subst (All P) (some-injective filter out e) hf
  add_rules-All (rule ∷ rules) filter {out} hr hf e =
      let (next, added, later) =
        >>=-eq-some (add_rule lib rule filter) (add_rules lib rules) {b = out} e in
      add_rules-All rules next {out = out} hr.1 (one next added) later
    where
      one : (next : List Rule) → add_rule lib rule filter ≡ some next → All P next
      one next added =
          subst (All P) (shape next added) (All-append P filter (rule ∷ []) hf (hr.0, tt))
        where
          shape :
              (next : List Rule)
              → add_rule lib rule filter ≡ some next
              → filter ++ (rule ∷ []) ≡ next
          shape next added = ground arith

  unless_denied-All :
      (denies : List Bytes) (name : Bytes) (rules filter : List Rule) {out : List Rule}
      → (denied_by_profile name denies ≡ false → All P rules)
      → All P filter
      → unless_denied lib denies name rules filter ≡ some out
      → All P out
  unfolding unless_denied
  unless_denied-All denies name rules filter {out} hr hf e =
      elim (Bool-cases (denied_by_profile name denies)) [
        | inl d ↦ subst (All P) (some-injective filter out (rw d at e)) hf
        | inr d ↦ add_rules-All rules filter {out = out} (hr d) hf (rw d at e)
      ]

module _ (lib : Seccomp) (naming : IsNaming lib) (d : Bytes) (k : ℕ)
    (known : lib.resolve_name d ≡ some k) where
  module _ (denies : List Bytes) (denied : denied_by_profile d denies ≡ true) where
    other_number :
        (name : Bytes) (j : ℕ)
        → lib.resolve_name name ≡ some j
        → denied_by_profile name denies ≡ false
        → j ≢ k
    other_number name j e kept same =
        let twin : name ≡ d = naming.distinct name d k (e ∙ ap some same) known in
        clash (sym kept ∙ (ap (λ n. denied_by_profile n denies) twin ∙ denied))
      where
        clash : ◌≡◌ {A = Bool} false true → ⊥
        clash e' = cc

    allow_syscall-Avoids :
        (name : Bytes)
        → denied_by_profile name denies ≡ false
        → All (λ r. number_of r ≢ k) (allow_syscall lib name)
    allow_syscall-Avoids name kept = go (lib.resolve_name name) (other_number name)
      where
        go :
            (o : Option ℕ)
            → ((j : ℕ) → o ≡ some j → denied_by_profile name denies ≡ false → j ≢ k)
            → All (λ r. number_of r ≢ k) (elim o [ none ↦ [] | some number ↦ allow number [] ∷ [] ])
        go none h = tt
        go (some j) h = (h j refl kept, tt)

    allow_names-Avoids :
        (names : List Bytes) (filter : List Rule) {out : List Rule}
        → All (λ r. number_of r ≢ k) filter
        → allow_names lib denies names filter ≡ some out
        → All (λ r. number_of r ≢ k) out
    unfolding allow_names
    allow_names-Avoids [] filter {out} hf e =
        subst (All (λ r. number_of r ≢ k)) (some-injective filter out e) hf
    allow_names-Avoids (name ∷ names) filter {out} hf e =
        let (next, added, later) =
          >>=-eq-some (unless_denied lib denies name (allow_syscall lib name) filter)
            (allow_names lib denies names) {b = out} e in
        allow_names-Avoids names next {out = out}
          (unless_denied-All lib (λ r. number_of r ≢ k) denies name (allow_syscall lib name) filter
            {out = next} (allow_syscall-Avoids name) hf added)
          later

    seccomp_rules-Avoids :
        {out : List Rule} → seccomp_rules lib denies ≡ some out → All (λ r. number_of r ≢ k) out
    unfolding seccomp_rules
    seccomp_rules-Avoids {out} e =
        let P : Rule → Type 0 = λ r. number_of r ≢ k in
        let (f1, e1, r1) = >>=-eq-some (allow_names lib denies allowed []) _ {b = out} e in
        let (f2, e2, r2) =
          >>=-eq-some (unless_denied lib denies (codes "clone3") (clone3_rules lib) f1) _ {b = out}
            r1 in
        let (f3, e3, r3) =
          >>=-eq-some (unless_denied lib denies (codes "clone") (clone_rules lib) f2) _ {b = out}
            r2 in
        let n3 : (denied_by_profile (codes "clone3") denies ≡ false)
            → lib.sys (codes "clone3") ≢ k =
          other_number (codes "clone3") _ naming.clone3 in
        let n1 : (denied_by_profile (codes "clone") denies ≡ false) → lib.sys (codes "clone") ≢ k =
          other_number (codes "clone") _ naming.clone in
        let ns : (denied_by_profile (codes "socket") denies ≡ false)
            → lib.sys (codes "socket") ≢ k =
          other_number (codes "socket") _ naming.socket in
        let p1 = allow_names-Avoids allowed [] {out = f1} tt e1 in
        let p2 =
          unless_denied-All lib P denies (codes "clone3") (clone3_rules lib) f1 {out = f2}
            (λ q. (n3 q, tt)) p1 e2 in
        let p3 =
          unless_denied-All lib P denies (codes "clone") (clone_rules lib) f2 {out = f3}
            (λ q. (n1 q, tt)) p2 e3 in
        unless_denied-All lib P denies (codes "socket") (socket_rules lib) f3 {out = out}
          (λ q. (ns q, (ns q, (ns q, (ns q, (ns q, (ns q, (ns q, tt)))))))) p3 r3

-- A filter that is loaded fails a system call with EPERM by default, and it has no rule for one that
-- the profile denies, neither one that allows it, wholly or for some arguments, nor one with an errno of
-- its own.
pub install_seccomp-denied :
    (lib : Seccomp)
    → IsNaming lib
    → (denies : List Bytes) (name : Bytes) (number : ℕ) {filter : Filter}
    → denied_by_profile name denies ≡ true
    → lib.resolve_name name ≡ some number
    → install_seccomp lib denies ≡ some filter
    → (filter.default_action ≡ fail 1) × All (λ rule. number_of rule ≢ number) filter.rules
unfolding install_seccomp
install_seccomp-denied lib naming denies name number {filter} denied known e =
    let (rules, made, loaded) = >>=-eq-some (seccomp_rules lib denies) _ {b = filter} (begun e) in
    let same = shape rules loaded in
    (
      ap (λ f. f.default_action) (sym same),
      subst (λ (f : Filter). All (λ rule. number_of rule ≢ number) f.rules) same
          (seccomp_rules-Avoids lib naming name number known denies denied {out = rules} made),
    )
  where
    begun :
        {made : Option Filter}
        → (if not (lib.initialises (fail 1)) then none else made) ≡ some filter
        → made ≡ some filter
    begun {made} e' = ground arith

    shape :
        (rules : List Rule)
        → (let f : Filter = record { default_action = fail 1; rules = rules } in
            if lib.loads f then some f else none)
          ≡ some filter
        → record { default_action = fail 1; rules = rules } ≡ filter
    shape rules loaded = ground arith

-- ===== src/Pow/Cookie.antt =====
-- sentinel_pow.c: the cookie and its check.
use nginx_http_sentinel_modu.Prelude.{
  ℕ, ◌+◌, ◌*◌, ◌<◌, ◌≡◌, refl, sym, ap, ◌∙◌, true, false, [], ◌∷◌, ◌++◌, Option, none, some, arith,
  ltb, leb, ◌==◌, All, if◌then◌else◌, length, length-append, Bytes, bytes_eq, bytes_eq→eq,
  bytes_eq_refl, Bool-cases, Option-cases, inl, inr, ==_iff,
}
use nginx_http_sentinel_modu.Nginx.{ok, error, Request}
use nginx_http_sentinel_modu.Pow.{
  PowLib, PowConf, hexlen, pow_hex, identity, signed, ttl_of, cookie_mac, split_dot, match_mac,
  check_expiry, check_parts, check_value, set_cookie,
}

-- A value that carries a time that is still to come and the MAC of that time for the request.
pub record Genuine (lib : PowLib) (conf : PowConf) (r : Request) (now : ℕ) (value : Bytes)
    : Type 0 where
  pub digits : Bytes
  pub mac : Bytes
  pub expiry : ℕ
  pub form : value ≡ digits ++ (b'.' ∷ mac)
  pub read : lib.atotm digits ≡ some expiry
  pub fresh : now < expiry
  pub signature : cookie_mac lib conf r expiry ≡ some mac

split_dot_join : (v a b : Bytes) → split_dot v ≡ some (a, b) → v ≡ a ++ (b'.' ∷ b)
unfolding split_dot
split_dot_join [] a b h = cc
split_dot_join (c ∷ cs) a b h = elim (Bool-cases (c == b'.')) [
  | inl e ↦ ground (arith, (==_iff c b'.').0 e)
  | inr e ↦ elim (Option-cases (split_dot cs)) [
    | inl n ↦ ground arith
    | inr ((a', b'), s) ↦ ground (arith, split_dot_join cs a' b' s)
  ]
]

abbrev pub NoDot : Bytes → Type 0
NoDot = All (λ c. (c == b'.') ≡ false)

split_dot-append : (a b : Bytes) → NoDot a → split_dot (a ++ (b'.' ∷ b)) ≡ some (a, b)
unfolding split_dot
split_dot-append [] b n = refl
split_dot-append (c ∷ a) b n = rw (n.0, split_dot-append a b n.1) refl

match_mac-ok : (mac : Bytes) (o : Option Bytes) → match_mac mac o ≡ ok → o ≡ some mac
unfolding match_mac
match_mac-ok mac none h = cc
match_mac-ok mac (some want) h = elim (Bool-cases (bytes_eq mac want)) [
  | inl e ↦ ap some (sym (bytes_eq→eq mac want e))
  | inr e ↦ absurd (ground arith)
]

check_expiry-ok :
    (lib : PowLib) (conf : PowConf) (r : Request) (now : ℕ) (mac : Bytes) (o : Option ℕ)
    → check_expiry lib conf r now mac o ≡ ok
    → (x : ℕ) × (o ≡ some x) × (now < x) × (cookie_mac lib conf r x ≡ some mac)
unfolding check_expiry
check_expiry-ok lib conf r now mac none h = absurd (ground arith)
check_expiry-ok lib conf r now mac (some x) h = elim (Bool-cases (leb x now)) [
  | inl e ↦ absurd (ground arith)
  | inr e ↦ (x, refl, ground arith, match_mac-ok mac (cookie_mac lib conf r x) (rw e at h))
]

check_parts-Genuine :
    (lib : PowLib) (conf : PowConf) (r : Request) (now : ℕ) (value : Bytes)
    (o : Option (Bytes × Bytes))
    → split_dot value ≡ o
    → check_parts lib conf r now o ≡ ok
    → Genuine lib conf r now value
unfolding check_parts
check_parts-Genuine lib conf r now value none s h = absurd (ground arith)
check_parts-Genuine lib conf r now value (some (digits, mac)) s h =
    elim (Bool-cases (length mac == hexlen)) [
      | inl e ↦
          let (x, t, f, m) = check_expiry-ok lib conf r now mac (lib.atotm digits) (rw e at h) in
          record {
            digits = digits;
            mac = mac;
            expiry = x;
            form = split_dot_join value digits mac s;
            read = t;
            fresh = f;
            signature = m;
          }
      | inr e ↦ absurd (ground arith)
    ]

-- A cookie value that passes the check is genuine: it carries a time that is still to come and
-- the MAC of that time for the client.
check_value-Genuine :
    (lib : PowLib) (conf : PowConf) (r : Request) (now : ℕ) (value : Bytes)
    → check_value lib conf r now value ≡ ok
    → Genuine lib conf r now value
unfolding check_value
check_value-Genuine lib conf r now value h = elim (Bool-cases (leb (length value) (hexlen + 1))) [
  | inl e ↦ absurd (ground arith)
  | inr e ↦ check_parts-Genuine lib conf r now value (split_dot value) refl (rw e at h)
]

length-pow_hex : (bs : Bytes) → length (pow_hex bs) ≡ 2 * length bs
unfolding pow_hex
length-pow_hex [] = omega arith
length-pow_hex (b ∷ bs) = omega (arith, length-pow_hex bs)

length-signed :
    (lib : PowLib) (conf : PowConf) (o : Option Bytes) (n : ℕ) (mac : Bytes)
    → ((key msg out : Bytes) → lib.hmac key msg ≡ some out → length out ≡ 32)
    → signed lib conf o n ≡ some mac
    → length mac ≡ hexlen
unfolding signed
length-signed lib conf none n mac h e = absurd (ground arith)
length-signed lib conf (some id) n mac h e =
    elim (Option-cases (lib.hmac conf.secret (id ++ lib.print n))) [
      | inl g ↦ absurd (ground arith)
      | inr (out, g) ↦
          let same : pow_hex out ≡ mac = ground arith in
          rw (← same) (omega (arith, length-pow_hex out, h conf.secret (id ++ lib.print n) out g))
    ]

-- What the code relies on of the functions it calls: HMAC-SHA-256 has 32 bytes, a printed number
-- has digits only and is read back.
pub record PowLaws (lib : PowLib) : Type 0 where
  pub digest : (key msg out : Bytes) → lib.hmac key msg ≡ some out → length out ≡ 32
  pub digits : (n : ℕ) → NoDot (lib.print n) × (0 < length (lib.print n))
  pub read : (n : ℕ) → lib.atotm (lib.print n) ≡ some n

set_cookie-value :
    (lib : PowLib) (conf : PowConf) (r : Request) (now : ℕ) (value : Bytes)
    → set_cookie lib conf r now true ≡ some value
    → (mac : Bytes) × (cookie_mac lib conf r (now + ttl_of conf) ≡ some mac)
      × (lib.print (now + ttl_of conf) ++ (b'.' ∷ mac) ≡ value)
unfolding set_cookie
set_cookie-value lib conf r now value h =
    elim (Option-cases (cookie_mac lib conf r (now + ttl_of conf))) [
      | inl e ↦ absurd (ground arith)
      | inr (mac, e) ↦ (mac, e, ground arith)
    ]

identity_same :
    (r r' : Request)
    → r'.sockaddr ≡ r.sockaddr
    → r'.addr_text ≡ r.addr_text
    → identity r' ≡ identity r
unfolding identity
identity_same r r' a t = λ i. identity (record r' { sockaddr = a i; addr_text = t i })

-- The cookie that a solution earns passes the check of every later request from the same address,
-- whatever else that request holds, until it runs out, `ttl_of conf` seconds after it was set.
pub cookie_round_trip :
    (lib : PowLib) (conf : PowConf) (r r' : Request) (now later : ℕ) (value : Bytes)
    → PowLaws lib
    → r'.sockaddr ≡ r.sockaddr
    → r'.addr_text ≡ r.addr_text
    → set_cookie lib conf r now true ≡ some value
    → check_value lib conf r' later value ≡ (if ltb later (now + ttl_of conf) then ok else error)
unfolding check_value check_parts check_expiry match_mac cookie_mac
cookie_round_trip lib conf r r' now later value w a t h =
    let x = now + ttl_of conf in
    let (mac, m, same) = set_cookie-value lib conf r now value h in
    let m' = ap (λ id. signed lib conf id x) (identity_same r r' a t) ∙ m in
    let size = length-signed lib conf (identity r) x mac w.digest m in
    let long : leb (length (lib.print x ++ (b'.' ∷ mac))) (hexlen + 1) ≡ false =
      ground (arith, length-append (lib.print x) (b'.' ∷ mac), (w.digits x).1) in
    let full : (length mac == hexlen) ≡ true = ground arith in
    rw (← same) (
      rw
        (
          long,
          split_dot-append (lib.print x) mac (w.digits x).0,
          full,
          w.read x,
          m',
          bytes_eq_refl mac,
        )
        (ground arith))

-- ===== src/Fcrdns/Confirm.antt =====
-- Which verdicts the chain caches, and when.
use nginx_http_sentinel_modu.Prelude.{
  ℕ, ◌+◌, ◌<◌, ◌≡◌, ◌⊎◌, inl, inr, refl, ap, ◌∙◌, Bool, true, false, List, [], ◌∷◌, Option, none,
  some, arith, ltb, ◌==◌, ◌&&◌, if◌then◌else◌, Bytes, Bool-cases, Option-cases,
}
use nginx_http_sentinel_modu.Nginx.{SockAddr}
use nginx_http_sentinel_modu.Shm.Zone.{Node, Zone, find_node}
use nginx_http_sentinel_modu.Shm.Zone.Find.{Distinct}
use nginx_http_sentinel_modu.Shm.Crowdsec.{
  fcrdns_pending, fcrdns_verified, fcrdns_failed, fcrdns_set, fcrdns_get, crowdsec_upsert,
  upsert_locked,
}
use nginx_http_sentinel_modu.Shm.Crowdsec.Table.{fcrdns_round_trip}
use nginx_http_sentinel_modu.Fcrdns.{
  Carrier, Env, finish, suffix_ok, ptr_handler, forward_match, fwd_handler, chain,
}
use nginx_http_sentinel_modu.Fcrdns.Match.{
  Among, HasSuffix, suffix_ok-HasSuffix, forward_match-Among,
}

-- The verdict that a reader finds.
abbrev pub cached : Option Zone → Bytes → ℕ → ℕ
cached z k now = (fcrdns_get z k now).0

-- A verdict that is set is read back until it runs out, unless the cache had no room for it.
set-cached :
    (z : Zone) (k : Bytes) (v now ttl later : ℕ) (fits : Bool)
    → Distinct z.queue
    → let z' = (fcrdns_set (some z) k v now ttl fits).1 in
      (cached z' k later ≡ cached (some z) k later)
      ⊎ (cached z' k later ≡ (if ltb later (now + ttl) then v else fcrdns_pending))
unfolding fcrdns_set crowdsec_upsert upsert_locked
set-cached z k v now ttl later true d = inr (fcrdns_round_trip z k v now ttl later d).1
set-cached z k v now ttl later false d = elim (Option-cases (find_node k z.queue)) [
  | inl e ↦ inl (ap (λ x. cached x k later) (full e))
  | inr (n, e) ↦
      inr (ap (λ x. cached x k later) (known n e) ∙ (fcrdns_round_trip z k v now ttl later d).1)
]
  where
    full : find_node k z.queue ≡ none → (fcrdns_set (some z) k v now ttl false).1 ≡ some z
    full e = rw (e, fcrdns_set, crowdsec_upsert, upsert_locked) refl

    known :
        (n : Node)
        → find_node k z.queue ≡ some n
        → (fcrdns_set (some z) k v now ttl false).1 ≡ (fcrdns_set (some z) k v now ttl true).1
    known n e = rw (e, fcrdns_set, crowdsec_upsert, upsert_locked) refl

-- What a verdict rests on: for a confirmation, a name with a configured suffix whose forward set
-- has the client's address; for a disproof, a name without one, or a forward set without it.
abbrev pub Grounds :
    (Bytes → Bytes → ℕ → Bool) → Carrier → Option Bytes → Option (List SockAddr) → ℕ → Type 0
Grounds same c name answer v =
    ((v ≡ fcrdns_verified)
      × (n : Bytes) × (as' : List SockAddr) × (name ≡ some n)
      × (answer ≡ some as')
      × HasSuffix same n c.suffixes
      × Among c.addr as')
    ⊎ ((v ≡ fcrdns_failed) × (n : Bytes) × (name ≡ some n) × (suffix_ok same c.suffixes n ≡ false))
    ⊎ ((v ≡ fcrdns_failed)
        × (a : SockAddr) × (as' : List SockAddr) × (answer ≡ some (a ∷ as'))
        × (forward_match c.addr (a ∷ as') ≡ false))
    ⊎ (v ≡ fcrdns_pending)

-- The cached verdict for a key is the one before, or has grounds.
abbrev Sound :
    (Bytes → Bytes → ℕ → Bool)
    → Carrier
    → Option Bytes
    → Option (List SockAddr)
    → Zone
    → ℕ
    → Option Zone
    → Type 0
Sound same c name answer z later z' =
    (cached z' c.key later ≡ cached (some z) c.key later)
    ⊎ Grounds same c name answer (cached z' c.key later)

verdict_or_pending :
    (b : Bool) (v x : ℕ) → x ≡ (if b then v else fcrdns_pending) → (x ≡ v) ⊎ (x ≡ fcrdns_pending)
verdict_or_pending true v x h = inl h
verdict_or_pending false v x h = inr h

-- A verdict that has grounds, when it is read back, may be cached.
finish-Sound :
    (same : Bytes → Bytes → ℕ → Bool) (c : Carrier) (name : Option Bytes)
    (answer : Option (List SockAddr)) (z : Zone) (later v : ℕ) (env : Env)
    → Distinct z.queue
    → ((x : ℕ) → x ≡ v → Grounds same c name answer x)
    → Sound same c name answer z later (finish c v env (some z))
unfolding finish
finish-Sound same c name answer z later v env d g = elim (Bool-cases (v == fcrdns_pending)) [
  | inl e ↦ rw e (inl refl)
  | inr e ↦ rw e (elim (set-cached z c.key v env.now c.ttl later env.fits d) [
    | inl h ↦ inl h
    | inr h ↦ elim (verdict_or_pending (ltb later (env.now + c.ttl)) v _ h) [
      | inl x ↦ inr (g _ x)
      | inr x ↦ inr (inr (inr (inr x)))
    ]
  ])
]

forward-Sound :
    (same : Bytes → Bytes → ℕ → Bool) (c : Carrier) (n : Bytes) (answer : Option (List SockAddr))
    (z : Zone) (later : ℕ) (env : Env)
    → Distinct z.queue
    → suffix_ok same c.suffixes n ≡ true
    → Sound same c
        (some n)
        answer
        z
        later
        (fwd_handler (record c { ptr_name = n }) answer env (some z))
unfolding fwd_handler finish
forward-Sound same c n none z later env d h =
    finish-Sound same c (some n) none z later fcrdns_pending env d (λ x e. inr (inr (inr e)))
forward-Sound same c n (some []) z later env d h =
    finish-Sound same c (some n) (some []) z later fcrdns_pending env d (λ x e. inr (inr (inr e)))
forward-Sound same c n (some (a ∷ as')) z later env d h =
    elim (Bool-cases (forward_match c.addr (a ∷ as'))) [
      | inl m ↦ rw m (
          finish-Sound same c (some n) (some (a ∷ as')) z later fcrdns_verified env d (λ x e. inl (
            e,
            n,
            a ∷ as',
            refl,
            refl,
            suffix_ok-HasSuffix same n c.suffixes h,
            forward_match-Among c.addr (a ∷ as') m,
          )))
      | inr m ↦ rw m (
          finish-Sound same c (some n) (some (a ∷ as')) z later fcrdns_failed env d
            (λ x e. inr (inr (inl (e, a, as', refl, m)))))
    ]

-- Behind the chain, whatever the resolver and the allocator answer, the verdict cached for the
-- client is the one before, or pending, or has its grounds: a confirmation rests on a name with a
-- configured suffix whose forward set has the client's address, a disproof on a name without such
-- a suffix or on a non-empty forward set without the address. A failed lookup disproves nothing.
pub fcrdns_sound :
    (same : Bytes → Bytes → ℕ → Bool) (c : Carrier) (name : Option Bytes) (env : Env)
    (answer : Option (List SockAddr)) (env' : Env) (z : Zone) (later : ℕ)
    → Distinct z.queue
    → let z' = chain same c name env answer env' (some z) in
      (cached z' c.key later ≡ cached (some z) c.key later)
      ⊎ Grounds same c name answer (cached z' c.key later)
unfolding ptr_handler
fcrdns_sound same c none env answer env' z later d =
    finish-Sound same c none answer z later fcrdns_pending env d (λ x e. inr (inr (inr e)))
fcrdns_sound same c (some []) env answer env' z later d =
    finish-Sound same c (some []) answer z later fcrdns_pending env d (λ x e. inr (inr (inr e)))
fcrdns_sound same c (some (b ∷ n)) env answer env' z later d =
    elim (Bool-cases (suffix_ok same c.suffixes (b ∷ n))) [
      | inr s ↦ rw s (
          finish-Sound same c (some (b ∷ n)) answer z later fcrdns_failed env d
            (λ x e. inr (inl (e, b ∷ n, refl, s))))
      | inl s ↦ elim (Bool-cases (env.alloc && env.started && env.submitted)) [
        | inl a ↦ rw (s, a) (forward-Sound same c (b ∷ n) answer z later env' d s)
        | inr a ↦
            rw (s, a)
              (finish-Sound same c (some (b ∷ n)) answer z later fcrdns_pending env d
                (λ x e. inr (inr (inr e))))
      ]
    ]

-- A crawler's claim is confirmed for the cache's time to live when nothing fails on the way: its
-- PTR name has a configured suffix, the forward set has its address, and the cache has room.
pub fcrdns_complete :
    (same : Bytes → Bytes → ℕ → Bool) (c : Carrier) (b : ℕ) (n : Bytes) (env : Env)
    (as' : List SockAddr) (env' : Env) (z : Zone) (later : ℕ)
    → Distinct z.queue
    → suffix_ok same c.suffixes (b ∷ n) ≡ true
    → (env.alloc && env.started && env.submitted) ≡ true
    → forward_match c.addr as' ≡ true
    → env'.fits ≡ true
    → later < env'.now + c.ttl
    → cached (chain same c (some (b ∷ n)) env (some as') env' (some z)) c.key later
      ≡ fcrdns_verified
unfolding ptr_handler fwd_handler finish forward_match
fcrdns_complete same c b n env [] env' z later d s a m f l = absurd cc
fcrdns_complete same c b n env (x ∷ xs) env' z later d s a m f l =
    let live : ltb later (env'.now + c.ttl) ≡ true = ground arith in
    rw (s, a)
      (rw m (
        simp (f)
          ((fcrdns_round_trip z c.key fcrdns_verified env'.now c.ttl later d).1 ∙ rw live refl)))

-- ===== src/Shm/Crowdsec/Table.antt =====
-- The ban table as a map from keys to decisions.
use nginx_http_sentinel_modu.Prelude.{
  ℕ, ◌+◌, ◌≤◌, ◌≡◌, refl, sym, ap, ◌∙◌, Bool, true, false, List, ◌∷◌, Option, none, some, arith,
  if◌then◌else◌, ltb, Bytes, bytes_eq, bytes_eq_refl, bytes_eq→eq, Bool-cases, Option-cases, inl,
  inr,
}
use nginx_http_sentinel_modu.Nginx.{Rc, ok, busy}
use nginx_http_sentinel_modu.Score.{cs_none}
use nginx_http_sentinel_modu.Shm.Zone.{Node, Zone, expire, find_node, remove_node, expire_batch}
use nginx_http_sentinel_modu.Shm.Zone.Find.{Distinct, find-key, find-put, put-Distinct, Absent-find}
use nginx_http_sentinel_modu.Shm.Zone.Expire.{find-expire, expire-Distinct, expired-IsIdle}
use nginx_http_sentinel_modu.Shm.Crowdsec.{
  Decision, crowdsec_create, stamp, upsert_locked, crowdsec_upsert, crowdsec_lookup_locked,
  crowdsec_lookup, fcrdns_get, fcrdns_set, fcrdns_pending, verdict_of,
}

-- What a node says to a reader at a time.
abbrev answer_of : ℕ → Option Node → Rc × ℕ
answer_of now none = (ok, cs_none)
answer_of now (some n) = if ltb now n.blocked_until then (busy, n.cs_action) else (ok, cs_none)

-- The action that is in force against a key, if any.
abbrev pub answer : Zone → ℕ → Bytes → Rc × ℕ
answer z now k = answer_of now (find_node k z.queue)

answer-expire :
    (z : Zone) (now : ℕ) (k : Bytes)
    → answer_of now (find_node k (expire z now expire_batch)) ≡ answer z now k
answer-expire z now k = elim (Option-cases (find_node k (expire z now expire_batch))) [
  | inl e ↦ elim (Option-cases (find_node k z.queue)) [
    | inl g ↦ rw (e, g)
    | inr (n, g) ↦
        let idle = expired-IsIdle z now expire_batch k n e g in rw (e, g) (sym (late n idle.0))
  ]
  | inr (n, e) ↦ rw (e, find-expire z now expire_batch k n e)
]
  where
    late : (n : Node) → n.blocked_until ≤ now → answer_of now (some n) ≡ (ok, cs_none)
    late n h = ground arith

lookup_none :
    (z : Zone) (k : Bytes) (now : ℕ)
    → find_node k (expire z now expire_batch) ≡ none
    → crowdsec_lookup_locked z k now ≡ (ok, cs_none, record z { queue = expire z now expire_batch })
unfolding crowdsec_lookup_locked
lookup_none z k now e = rw (e, crowdsec_lookup_locked)

lookup_some :
    (z : Zone) (k : Bytes) (now : ℕ) (n : Node)
    → find_node k (expire z now expire_batch) ≡ some n
    → let (rc, action) = answer_of now (some n) in
      crowdsec_lookup_locked z k now ≡ (
        rc,
        action,
        record z {
          queue = record n { last_seen = now } ∷ remove_node k (expire z now expire_batch);
        },
      )
unfolding crowdsec_lookup_locked
lookup_some z k now n e = rw (e, crowdsec_lookup_locked) (ground arith)

-- A read of the ban table replies with the action in force against the key, leaves the actions
-- in force against every key as they were, and keeps the keys distinct.
pub crowdsec_lookup_refines :
    (z : Zone) (k : Bytes) (now : ℕ)
    → Distinct z.queue
    → let (rc, action, z') = crowdsec_lookup_locked z k now in
      ((rc, action) ≡ answer z now k)
      × ((j : Bytes) → answer z' now j ≡ answer z now j)
      × Distinct z'.queue
crowdsec_lookup_refines z k now d = elim (Option-cases (find_node k (expire z now expire_batch))) [
  | inl e ↦ rw (lookup_none z k now e) (
    ap (answer_of now) (sym e) ∙ answer-expire z now k,
    (λ j. answer-expire z now j),
    expire-Distinct z now expire_batch d,
  )
  | inr (n, e) ↦
      let q = expire z now expire_batch in
      let n' : Node = record n { last_seen = now } in
      let key : n'.key ≡ k = find-key k q n e in
      rw (lookup_some z k now n e) (
        ap (answer_of now) (sym e) ∙ answer-expire z now k,
        (λ j. elim (Bool-cases (bytes_eq j k)) [
          | inl h ↦
              rw (find-put k j n' q key, h)
                (ap (answer_of now) (sym e)
                  ∙ answer-expire z now k
                  ∙ ap (answer z now) (sym (bytes_eq→eq j k h)))
          | inr h ↦ rw (find-put k j n' q key, h) (answer-expire z now j)
        ]),
        put-Distinct k n' q key (expire-Distinct z now expire_batch d),
      )
]

abbrev pub decision_of : Node → Decision
decision_of n = record {
  expiry = n.blocked_until;
  action = n.cs_action;
  generation = n.cs_generation;
  redis_pulled = n.redis_pulled;
}

-- The table after an insertion or update that had room.
pub record Upserted (q : List Node) (k : Bytes) (d : Decision) (r : Rc × Zone) : Type 0 where
  pub rc : r.0 ≡ ok
  pub node : Node
  pub find :
      (j : Bytes) → find_node j r.1.queue ≡ (if bytes_eq j k then some node else find_node j q)
  pub stored : decision_of node ≡ d
  pub distinct : Distinct r.1.queue

upsert_new :
    (z : Zone) (k : Bytes) (d : Decision) (now : ℕ)
    → find_node k z.queue ≡ none
    → upsert_locked z k d now true
      ≡ (ok, record z { queue = stamp (crowdsec_create k now) d now ∷ z.queue })
unfolding upsert_locked
upsert_new z k d now e = rw (e, upsert_locked)

upsert_old :
    (z : Zone) (k : Bytes) (d : Decision) (now : ℕ) (fits : Bool) (n : Node)
    → find_node k z.queue ≡ some n
    → upsert_locked z k d now fits
      ≡ (ok, record z { queue = stamp n d now ∷ remove_node k z.queue })
unfolding upsert_locked
upsert_old z k d now fits n e = rw (e, upsert_locked)

find-cons :
    (k j : Bytes) (n : Node) (q : List Node)
    → n.key ≡ k
    → find_node j (n ∷ q) ≡ (if bytes_eq j k then some n else find_node j q)
unfolding find_node
find-cons k j n q e = rw e

pub upsert-Upserted :
    (z : Zone) (k : Bytes) (d : Decision) (now : ℕ)
    → Distinct z.queue
    → Upserted z.queue k d (upsert_locked z k d now true)
unfolding crowdsec_create
upsert-Upserted z k d now u = elim (Option-cases (find_node k z.queue)) [
  | inl e ↦ rw (upsert_new z k d now e) (record {
    rc = refl;
    node = stamp (crowdsec_create k now) d now;
    find = λ j. find-cons k j (stamp (crowdsec_create k now) d now) z.queue refl;
    stored = refl;
    distinct = (Absent-find k z.queue e, u);
  })
  | inr (n, e) ↦
      let key = find-key k z.queue n e in
      rw (upsert_old z k d now true n e) (record {
        rc = refl;
        node = stamp n d now;
        find = λ j. find-put k j (stamp n d now) z.queue key;
        stored = refl;
        distinct = put-Distinct k (stamp n d now) z.queue key u;
      })
]

-- An insertion or update with room in the slab succeeds, puts the decision in force at its key
-- from any time before its expiry on, changes no other key, and keeps the keys distinct.
pub crowdsec_upsert_refines :
    (z : Zone) (k : Bytes) (d : Decision) (now : ℕ)
    → Distinct z.queue
    → let (rc, z') = upsert_locked z k d now true in
      (rc ≡ ok)
      × ((later : ℕ) (j : Bytes)
          → answer z' later j ≡ (
              if bytes_eq j k
              then (if ltb later d.expiry then (busy, d.action) else (ok, cs_none))
              else answer z later j))
      × Distinct z'.queue
crowdsec_upsert_refines z k d now u =
    let r = upsert-Upserted z k d now u in
    (
      r.rc,
      (λ later j. ap (answer_of later) (r.find j) ∙ elim (Bool-cases (bytes_eq j k)) [
        | inl h ↦
            rw h (ap (λ x. if ltb later x.expiry then (busy, x.action) else (ok, cs_none)) r.stored)
        | inr h ↦ rw h refl
      ]),
      r.distinct,
    )

-- A cached DNS verdict is read back for `ttl` seconds from the time it was set, and from then on
-- reads as pending.
pub fcrdns_round_trip :
    (z : Zone) (k : Bytes) (verdict now ttl later : ℕ)
    → Distinct z.queue
    → let (rc, z') = fcrdns_set (some z) k verdict now ttl true in
      (rc ≡ ok)
      × ((fcrdns_get z' k later).0 ≡ (if ltb later (now + ttl) then verdict else fcrdns_pending))
unfolding fcrdns_set fcrdns_get crowdsec_upsert crowdsec_lookup
fcrdns_round_trip z k verdict now ttl later u =
    let d : Decision = record {
      expiry = now + ttl;
      action = verdict;
      generation = 0;
      redis_pulled = 0;
    } in
    let r = crowdsec_upsert_refines z k d now u in
    let z' = (upsert_locked z k d now true).1 in
    let l = crowdsec_lookup_refines z' k later r.2 in
    let e = l.0 ∙ r.1 later k ∙ hit in
    (r.0, ap (λ p. verdict_of p.0 p.1) e ∙ verdict_if (ltb later (now + ttl)))
  where
    hit :
        (if bytes_eq k k
          then (if ltb later (now + ttl) then (busy, verdict) else (ok, cs_none))
          else answer z later k)
        ≡ (if ltb later (now + ttl) then (busy, verdict) else (ok, cs_none))
    hit = rw (bytes_eq_refl k) refl

    verdict_if :
        (b : Bool)
        → let p : Rc × ℕ = if b then (busy, verdict) else (ok, cs_none) in
          verdict_of p.0 p.1 ≡ (if b then verdict else fcrdns_pending)
    verdict_if true = refl
    verdict_if false = refl

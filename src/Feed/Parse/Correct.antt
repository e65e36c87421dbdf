-- ===== src/Feed/Parse/Correct.antt =====
-- sentinel_feed_parse of sentinel_feed.c: the table behind the apply pass and the sweeps, and behind
-- a rejection.
use nginx_http_sentinel_modu.Prelude.{
  ℕ, suc, ◌≡◌, refl, ap, ◌∙◌, Bool, true, false, List, [], ◌∷◌, none, some, arith, All, Bytes,
  bytes_eq, bytes_eq→eq, Bool-cases, Option-cases, inl, inr, filter, length, ◌≢◌,
}
use nginx_http_sentinel_modu.Nginx.{ok, declined}
use nginx_http_sentinel_modu.Shm.Zone.{Node, Zone, find_node}
use nginx_http_sentinel_modu.Shm.Zone.Find.{Absent, Distinct, find-Absent}
use nginx_http_sentinel_modu.Shm.Crowdsec.Sweep.{marked, sweep_all-marked}
use nginx_http_sentinel_modu.Feed.Lines.{Line}
use nginx_http_sentinel_modu.Feed.Decide.{FeedLib}
use nginx_http_sentinel_modu.Feed.Parse.{
  apply_batch, next_generation, apply_lines, apply_feed, validate, feed_parse,
}
use nginx_http_sentinel_modu.Feed.Parse.Apply.{
  stored, entry_of, plan, plan-cong, apply_lines-Applied,
}

filter-Absent : (p : Node → Bool) (k : Bytes) (q : List Node) → Absent k q → Absent k (filter p q)
filter-Absent p k [] a = tt
filter-Absent p k (n ∷ q) a = elim (Bool-cases (p n)) [
  | inl e ↦ rw e (a.0, filter-Absent p k q a.1)
  | inr e ↦ rw e (filter-Absent p k q a.1)
]

-- Among distinct keys the marked nodes are the ones that hold a decision for the generation.
find-filter :
    (g : ℕ) (k : Bytes) (q : List Node)
    → Distinct q
    → entry_of (find_node k (filter (marked g) q)) ≡ stored g q k
unfolding find_node
find-filter g k [] u = refl
find-filter g k (n ∷ q) u = elim (Bool-cases (bytes_eq k n.key)) [
  | inl e ↦ elim (Bool-cases (marked g n)) [
    | inl m ↦ rw (m, e) (rw m refl)
    | inr m ↦
        let gone : find_node n.key (filter (marked g) q) ≡ none =
          find-Absent n.key (filter (marked g) q) (filter-Absent (marked g) n.key q u.0) in
        rw (m, e) (rw m (rw (bytes_eq→eq k n.key e, gone) refl))
  ]
  | inr e ↦ elim (Bool-cases (marked g n)) [
    | inl m ↦ rw (m, e) (find-filter g k q u.1)
    | inr m ↦ rw (m, e) (find-filter g k q u.1)
  ]
]

-- Before the pass no node of the old table holds anything for the new generation.
stored_fresh :
    (g : ℕ) (q : List Node) (k : Bytes) → All (λ n. marked g n ≡ false) q → stored g q k ≡ none
unfolding find_node
stored_fresh g [] k a = refl
stored_fresh g (n ∷ q) k a = elim (Bool-cases (bytes_eq k n.key)) [
  | inl e ↦ rw (e, a.0)
  | inr e ↦ rw e (stored_fresh g q k a.1)
]

module _ (lib : FeedLib) where
  -- A feed that is applied with room for every decision, to a table with distinct keys none of
  -- which carries the next generation already, leaves in the table exactly what the lines
  -- describe: at each key the last decision of the feed for it that has not run out, and no entry
  -- of the old table that the feed does not repeat.
  pub apply_feed-plan :
      (ttl now : ℕ) (body : List Line) (z : Zone)
      → Distinct z.queue
      → let g = next_generation z.cs_generation in
        All (λ n. marked g n ≡ false) z.queue
        → (k : Bytes)
        → entry_of (find_node k (apply_feed lib (λ _. true) ttl now body z).queue)
          ≡ plan lib g ttl now body (λ _. none) k
  unfolding apply_feed
  apply_feed-plan ttl now body z u a k =
      let g = next_generation z.cs_generation in
      let z0 = record z { cs_generation = g } in
      let z' = apply_lines lib (λ _. true) g ttl now 0 body z0 in
      let done = apply_lines-Applied lib g ttl now body 0 z0 u in
      let swept =
        sweep_all-marked (suc (length z'.queue)) z' g apply_batch (omega arith) (omega arith) in
      ap (λ q. entry_of (find_node k q)) swept
      ∙ find-filter g k z'.queue done.distinct
      ∙ done.plans k
      ∙ plan-cong lib g ttl now body _ _ (λ j. stored_fresh g z.queue j a) k

  pub rejected_keeps :
      (fits : ℕ → Bool) (z : Zone) (bytes : Bytes) (ttl now : ℕ)
      → (feed_parse lib fits (some z) bytes ttl now).0 ≢ ok
      → feed_parse lib fits (some z) bytes ttl now ≡ (declined, some z)
  unfolding feed_parse
  rejected_keeps fits z [] ttl now h = refl
  rejected_keeps fits z (b ∷ bs) ttl now h = elim (Option-cases (validate lib (b ∷ bs))) [
    | inl e ↦ rw (e, feed_parse) refl
    | inr (body, e) ↦ absurd (h (rw (e, feed_parse) refl))
  ]

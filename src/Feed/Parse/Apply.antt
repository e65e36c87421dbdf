-- ===== src/Feed/Parse/Apply.antt =====
-- The apply pass of sentinel_feed_parse against a plan: the map from keys to decisions that the lines
-- of a feed describe, in which a later line for a key wins.
use nginx_http_sentinel_modu.Prelude.{
  ℕ, suc, ◌≡◌, refl, sym, ap, ◌∙◌, true, false, List, [], ◌∷◌, Option, none, some, arith,
  if◌then◌else◌, leb, ==_iff, Bytes, bytes_eq, Bool-cases, inl, inr, ◌⊎◌,
}
use nginx_http_sentinel_modu.Nginx.{ok}
use nginx_http_sentinel_modu.Shm.Zone.{Node, Zone, find_node}
use nginx_http_sentinel_modu.Shm.Zone.Find.{Distinct}
use nginx_http_sentinel_modu.Shm.Crowdsec.{Decision, upsert_locked}
use nginx_http_sentinel_modu.Shm.Crowdsec.Table.{decision_of, upsert-Upserted}
use nginx_http_sentinel_modu.Shm.Crowdsec.Sweep.{marked}
use nginx_http_sentinel_modu.Feed.Lines.{Line}
use nginx_http_sentinel_modu.Feed.Decide.{FeedLib, Reading, skip, bad, decision, read_line}
use nginx_http_sentinel_modu.Feed.Parse.{expiry_of, apply_lines}

abbrev Plan : Type 0
Plan = Bytes → Option Decision

-- What a node holds for a generation.
abbrev pub held : ℕ → Option Node → Option Decision
held g none = none
held g (some n) = if marked g n then some (decision_of n) else none

abbrev pub stored : ℕ → List Node → Plan
stored g q k = held g (find_node k q)

-- The node of a key, as the decision that it holds.
abbrev pub entry_of : Option Node → Option Decision
entry_of none = none
entry_of (some n) = some (decision_of n)

abbrev pub update : Plan → Bytes → Decision → Plan
update m k d j = if bytes_eq j k then some d else m j

Reading-cases :
    (r : Reading)
    → ((r ≡ skip) ⊎ (r ≡ bad)) ⊎ ((c : Bytes) × (a : ℕ) × (x : ℕ) × (r ≡ decision c a x))
Reading-cases skip = inl (inl refl)
Reading-cases bad = inl (inr refl)
Reading-cases (decision c a x) = inr (c, a, x, refl)

module _ (lib : FeedLib) (generation ttl now : ℕ) where
  abbrev pub decided : ℕ → ℕ → Decision
  decided action expiry = record {
    expiry = expiry_of now ttl expiry;
    action = action;
    generation = generation;
    redis_pulled = 0;
  }

  -- A decision that has not run out by `now` is planned; nothing else is.
  abbrev plan_line : Reading → Plan → Plan
  plan_line skip m = m
  plan_line bad m = m
  plan_line (decision canon action expiry) m =
      if leb (expiry_of now ttl expiry) now
      then m
      else update m (lib.sha256 canon) (decided action expiry)

  abbrev pub plan : List Line → Plan → Plan
  plan [] m = m
  plan (l ∷ ls) m = plan ls (plan_line (read_line lib l.text) m)

  plan_line-cong :
      (r : Reading) (m p : Plan)
      → ((k : Bytes) → m k ≡ p k)
      → (k : Bytes) → plan_line r m k ≡ plan_line r p k
  plan_line-cong skip m p e k = e k
  plan_line-cong bad m p e k = e k
  plan_line-cong (decision c a x) m p e k = ground (arith, e k)

  pub plan-cong :
      (ls : List Line) (m p : Plan)
      → ((k : Bytes) → m k ≡ p k)
      → (k : Bytes) → plan ls m k ≡ plan ls p k
  plan-cong [] m p e k = e k
  plan-cong (l ∷ ls) m p e k = plan-cong ls _ _ (plan_line-cong (read_line lib l.text) m p e) k

  upserted_stored :
      (z : Zone) (k : Bytes) (d : Decision)
      → Distinct z.queue
      → d.generation ≡ generation
      → (j : Bytes)
      → update (stored generation z.queue) k d j
        ≡ stored generation (upsert_locked z k d now true).1.queue j
  upserted_stored z k d u g j =
      let r = upsert-Upserted z k d now u in
      rw (r.find j) (elim (Bool-cases (bytes_eq j k)) [
        | inl h ↦ rw (
          h,
          r.stored,
          (==_iff r.node.cs_generation generation).1 (ap (λ x. x.generation) r.stored ∙ g),
        )
        | inr h ↦ rw h
      ])

  -- With room for every insertion the pass stores what the lines plan.
  pub record Applied (ls : List Line) (z z' : Zone) : Type 0 where
    pub distinct : Distinct z'.queue
    pub plans : (k : Bytes) → stored generation z'.queue k ≡ plan ls (stored generation z.queue) k

  apply_idle :
      (l : Line) (ls : List Line) (applied : ℕ) (z : Zone)
      → (read_line lib l.text ≡ skip) ⊎ (read_line lib l.text ≡ bad)
      → apply_lines lib (λ _. true) generation ttl now applied (l ∷ ls) z
        ≡ apply_lines lib (λ _. true) generation ttl now applied ls z
  unfolding apply_lines
  apply_idle l ls applied z (inl e) = rw (e, apply_lines)
  apply_idle l ls applied z (inr e) = rw (e, apply_lines)

  apply_late :
      (l : Line) (ls : List Line) (applied : ℕ) (z : Zone) (c : Bytes) (a x : ℕ)
      → read_line lib l.text ≡ decision c a x
      → leb (expiry_of now ttl x) now ≡ true
      → apply_lines lib (λ _. true) generation ttl now applied (l ∷ ls) z
        ≡ apply_lines lib (λ _. true) generation ttl now applied ls z
  unfolding apply_lines
  apply_late l ls applied z c a x e h = rw (e, apply_lines) (rw h)

  apply_stored :
      (l : Line) (ls : List Line) (applied : ℕ) (z : Zone) (c : Bytes) (a x : ℕ)
      → read_line lib l.text ≡ decision c a x
      → leb (expiry_of now ttl x) now ≡ false
      → (upsert_locked z (lib.sha256 c) (decided a x) now true).0 ≡ ok
      → apply_lines lib (λ _. true) generation ttl now applied (l ∷ ls) z
        ≡ apply_lines lib
            (λ _. true)
            generation
            ttl
            now
            (suc applied)
            ls
            (upsert_locked z (lib.sha256 c) (decided a x) now true).1
  unfolding apply_lines
  apply_stored l ls applied z c a x e h r = rw (e, apply_lines) (rw h (rw (r, apply_lines)))

  plan_line-idle :
      (r : Reading) (m : Plan) (k : Bytes) → (r ≡ skip) ⊎ (r ≡ bad) → m k ≡ plan_line r m k
  plan_line-idle r m k (inl e) = rw e refl
  plan_line-idle r m k (inr e) = rw e refl

  plan_line-late :
      (r : Reading) (c : Bytes) (a x : ℕ) (m : Plan) (k : Bytes)
      → r ≡ decision c a x
      → leb (expiry_of now ttl x) now ≡ true
      → m k ≡ plan_line r m k
  plan_line-late r c a x m k e h = rw e (rw h refl)

  plan_line-stored :
      (r : Reading) (c : Bytes) (a x : ℕ) (m : Plan) (k : Bytes)
      → r ≡ decision c a x
      → leb (expiry_of now ttl x) now ≡ false
      → update m (lib.sha256 c) (decided a x) k ≡ plan_line r m k
  plan_line-stored r c a x m k e h = rw e (rw h refl)

  pub apply_lines-Applied :
      (ls : List Line) (applied : ℕ) (z : Zone)
      → Distinct z.queue
      → Applied ls z (apply_lines lib (λ _. true) generation ttl now applied ls z)
  apply_lines-Applied [] applied z u =
      unfold apply_lines in record { distinct = u; plans = λ k. refl }
  apply_lines-Applied (l ∷ ls) applied z u = elim (Reading-cases (read_line lib l.text)) [
    | inl e ↦
        let rest = apply_lines-Applied ls applied z u in
        rw (apply_idle l ls applied z e) (record {
          distinct = rest.distinct;
          plans = λ k.
              rest.plans k
              ∙ plan-cong ls _ _
                  (λ j. plan_line-idle (read_line lib l.text) (stored generation z.queue) j e) k;
        })
    | inr (c, a, x, e) ↦ elim (Bool-cases (leb (expiry_of now ttl x) now)) [
      | inl h ↦
          let rest = apply_lines-Applied ls applied z u in
          rw (apply_late l ls applied z c a x e h) (record {
            distinct = rest.distinct;
            plans = λ k.
                rest.plans k
                ∙ plan-cong ls _ _
                    (λ j.
                      plan_line-late (read_line lib l.text) c a x (stored generation z.queue) j e h)
                    k;
          })
      | inr h ↦
          let r = upsert-Upserted z (lib.sha256 c) (decided a x) now u in
          let z' = (upsert_locked z (lib.sha256 c) (decided a x) now true).1 in
          let rest = apply_lines-Applied ls (suc applied) z' r.distinct in
          rw (apply_stored l ls applied z c a x e h r.rc) (record {
            distinct = rest.distinct;
            plans = λ k.
                rest.plans k
                ∙ plan-cong ls _ _
                    (λ j.
                      sym (upserted_stored z (lib.sha256 c) (decided a x) u refl j)
                      ∙ plan_line-stored (read_line lib l.text) c a x (stored generation z.queue) j
                          e h)
                    k;
          })
    ]
  ]

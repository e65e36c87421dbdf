-- ===== src/Shm/Crowdsec/Sweep.antt =====
-- The mark-and-sweep: what one call deletes, and what is left when a call deletes nothing.
use mathlib.Core.List.{reverse, reverse-reverse, reverse-cons, append-nil}
use nginx_http_sentinel_modu.Prelude.{
  ℕ, zero, suc, ◌+◌, ◌≤◌, ◌<◌, ◌≡◌, refl, ap, ◌∙◌, Bool, List, [], ◌∷◌, ◌++◌, arith, if◌then◌else◌,
  ◌==◌, Bool-cases, ==_iff, inl, inr, filter, length, length-append,
}
use nginx_http_sentinel_modu.Shm.Zone.{Node, Zone}
use nginx_http_sentinel_modu.Shm.Crowdsec.{sweep_oldest, crowdsec_sweep}

-- Stamped with the generation.
abbrev pub marked : ℕ → Node → Bool
marked generation n = n.cs_generation == generation

filter-append :
    (p : Node → Bool) (xs ys : List Node) → filter p (xs ++ ys) ≡ filter p xs ++ filter p ys
filter-append p [] ys = refl
filter-append p (x ∷ xs) ys = elim (Bool-cases (p x)) [
  | inl e ↦ rw (e, filter-append p xs ys)
  | inr e ↦ rw (e, filter-append p xs ys)
]

filter-reverse : (p : Node → Bool) (xs : List Node) → filter p (reverse xs) ≡ reverse (filter p xs)
filter-reverse p [] = refl
filter-reverse p (x ∷ xs) =
    rw (reverse-cons x xs, filter-append p (reverse xs) (x ∷ []), filter-reverse p xs)
      (elim (Bool-cases (p x)) [
        | inl e ↦ rw e (rw (reverse-cons x (filter p xs)) refl)
        | inr e ↦ rw e (append-nil _)
      ])

-- One walk: marked nodes stay, at least one unmarked node goes if there is one and room for it.
record Walked (generation room : ℕ) (q : List Node) (r : List Node × ℕ) : Type 0 where
  same : filter (marked generation) r.0 ≡ filter (marked generation) q
  counted : length r.0 + r.1 ≡ length q
  within : r.1 ≤ room
  clean : 0 < room → r.1 ≡ 0 → r.0 ≡ filter (marked generation) q

sweep_oldest-Walked :
    (generation room : ℕ) (q : List Node)
    → Walked generation room q (sweep_oldest generation room q)
unfolding sweep_oldest
sweep_oldest-Walked generation zero q = record {
  same = refl;
  counted = omega arith;
  within = omega arith;
  clean = λ h e. absurd (omega arith);
}
sweep_oldest-Walked generation (suc room) [] = record {
  same = refl;
  counted = omega arith;
  within = omega arith;
  clean = λ h e. refl;
}
sweep_oldest-Walked generation (suc room) (n ∷ q) =
    let keep = sweep_oldest-Walked generation (suc room) q in
    let drop = sweep_oldest-Walked generation room q in
    elim (Bool-cases (marked generation n)) [
      | inl e ↦ rw e (record {
        same = rw e (ap (◌∷◌ n) keep.same);
        counted = omega (arith, keep.counted);
        within = keep.within;
        clean = λ h g. rw e (ap (◌∷◌ n) (keep.clean h g));
      })
      | inr e ↦ rw e (record {
        same = rw e drop.same;
        counted = omega (arith, drop.counted);
        within = omega (arith, drop.within);
        clean = λ h g. absurd (omega arith);
      })
    ]

length-reverse : (xs : List Node) → length (reverse xs) ≡ length xs
length-reverse [] = refl
length-reverse (x ∷ xs) =
    rw (reverse-cons x xs) (omega (arith, length-append (reverse xs) (x ∷ []), length-reverse xs))

-- One call of the sweep deletes no marked node and at most a batch of others; a call with a
-- positive batch that deletes nothing leaves exactly the marked nodes of the queue, in order.
crowdsec_sweep_lem :
    (z : Zone) (generation batch : ℕ)
    → let (z', deleted) = crowdsec_sweep z generation batch in
      (filter (marked generation) z'.queue ≡ filter (marked generation) z.queue)
      × (length z'.queue + deleted ≡ length z.queue)
      × (deleted ≤ batch)
      × (0 < batch → deleted ≡ 0 → z'.queue ≡ filter (marked generation) z.queue)
unfolding crowdsec_sweep
crowdsec_sweep_lem z generation batch =
    let w = sweep_oldest-Walked generation batch (reverse z.queue) in
    let r = sweep_oldest generation batch (reverse z.queue) in
    let m = marked generation in
    let back : reverse (filter m (reverse z.queue)) ≡ filter m z.queue =
      ap reverse (filter-reverse m z.queue) ∙ reverse-reverse (filter m z.queue) in
    (
      filter-reverse m r.0 ∙ ap reverse w.same ∙ back,
      omega (arith, w.counted, length-reverse r.0, length-reverse z.queue),
      w.within,
      (λ h e. ap reverse (w.clean h e) ∙ back),
    )

-- The loop of sentinel_feed_parse that repeats the sweep until a call deletes nothing.
unfoldable pub sweep_all : ℕ → Zone → ℕ → ℕ → Zone
sweep_all zero z generation batch = z
sweep_all (suc fuel) z generation batch =
    let (z', deleted) = crowdsec_sweep z generation batch in
    let rest = sweep_all fuel z' generation batch in if deleted == 0 then z' else rest

-- More rounds than nodes are enough: the sweeps end, and leave exactly the marked nodes.
pub sweep_all-marked :
    (fuel : ℕ) (z : Zone) (generation batch : ℕ)
    → 0 < batch
    → length z.queue < fuel
    → (sweep_all fuel z generation batch).queue ≡ filter (marked generation) z.queue
unfolding sweep_all
sweep_all-marked zero z generation batch h f = absurd (omega arith)
sweep_all-marked (suc fuel) z generation batch h f =
    let (z', deleted) = crowdsec_sweep z generation batch in
    let s = crowdsec_sweep_lem z generation batch in
    elim (Bool-cases (deleted == 0)) [
      | inl e ↦ rw e (s.3 h ((==_iff deleted 0).0 e))
      | inr e ↦ rw e (sweep_all-marked fuel z' generation batch h (ground (arith, s.1)) ∙ s.0)
    ]

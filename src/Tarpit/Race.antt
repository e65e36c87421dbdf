-- ===== src/Tarpit/Race.antt =====
-- sentinel_tarpit_reserve under concurrency: the loop of every worker as steps that other workers'
-- steps may come between. A worker owns one slot; the sum over the slots is read in one step.
use nginx_http_sentinel_modu.Prelude.{
  ℕ, zero, suc, ◌+◌, ◌≤◌, ◌<◌, ◌≡◌, ◌≢◌, refl, ◌∙◌, List, [], ◌∷◌, arith, length, length-set,
  get_or, set,
}
use nginx_http_sentinel_modu.Tarpit.{tarpit_sum, inc_slot, dec_slot}
use nginx_http_sentinel_modu.Tarpit.Slots.{sum-inc, sum-dec}

-- Where a worker stands in the loop: outside, behind the test of the sum, or with the old value of
-- its slot in hand.
pub data Phase : Type 0 where
  idle : Phase
  tested : Phase
  loaded : ℕ → Phase

-- The slots, and the phase of each worker.
pub record Race : Type 0 where
  pub conns : List ℕ
  pub phases : List Phase

-- The steps of worker `w`: the test of the sum, the load, the compare-and-swap that succeeds or
-- fails, and the cleanup of one of its connections.
pub data Step (max_conns : ℕ) : Race → Race → Type 0 where
  test :
      (s : Race) (w : ℕ)
      → w < length s.phases
      → get_or s.phases w idle ≡ idle
      → tarpit_sum s.conns < max_conns
      → Step max_conns s (record s { phases = set s.phases w tested })
  load :
      (s : Race) (w : ℕ)
      → w < length s.phases
      → get_or s.phases w idle ≡ tested
      → Step max_conns s (record s { phases = set s.phases w (loaded (get_or s.conns w 0)) })
  swap :
      (s : Race) (w old : ℕ)
      → w < length s.phases
      → w < length s.conns
      → get_or s.phases w idle ≡ loaded old
      → get_or s.conns w 0 ≡ old
      → Step max_conns s (record { conns = inc_slot s.conns w; phases = set s.phases w idle })
  retry :
      (s : Race) (w old : ℕ)
      → w < length s.phases
      → get_or s.phases w idle ≡ loaded old
      → get_or s.conns w 0 ≢ old
      → Step max_conns s (record s { phases = set s.phases w idle })
  release :
      (s : Race) (w : ℕ)
      → w < length s.conns
      → 0 < get_or s.conns w 0
      → Step max_conns s (record s { conns = dec_slot s.conns w })

pub data Reach (max_conns : ℕ) (s : Race) : Race → Type 0 where
  here : Reach max_conns s s
  next : {t u : Race} → Reach max_conns s t → Step max_conns t u → Reach max_conns s u

-- A worker behind the test may still take one slot.
abbrev pub due : Phase → ℕ
due idle = 0
due tested = 1
due (loaded old) = 1

abbrev all_due : List Phase → ℕ
all_due [] = 0
all_due (p ∷ ps) = due p + all_due ps

due-le : (p : Phase) → due p ≤ 1
due-le idle = omega arith
due-le tested = omega arith
due-le (loaded old) = omega arith

all_due-le : (ps : List Phase) → all_due ps ≤ length ps
all_due-le [] = omega arith
all_due-le (p ∷ ps) = omega (arith, due-le p, all_due-le ps)

all_due-set :
    (ps : List Phase) (w : ℕ) (p : Phase)
    → w < length ps
    → all_due (set ps w p) + due (get_or ps w idle) ≡ all_due ps + due p
all_due-set [] w p h = absurd (omega arith)
all_due-set (q ∷ ps) zero p h = omega arith
all_due-set (q ∷ ps) (suc w) p h = omega (arith, all_due-set ps w p (omega arith))

-- The slots taken and those still due stay below the cap and one for each worker.
pub record IsCapped (max_conns workers : ℕ) (s : Race) : Type 0 where
  pub size : length s.phases ≡ workers
  pub cap : tarpit_sum s.conns + all_due s.phases < max_conns + workers

due_at :
    (ps : List Phase) (w : ℕ) (q p : Phase)
    → w < length ps
    → get_or ps w idle ≡ q
    → all_due (set ps w p) + due q ≡ all_due ps + due p
due_at ps w q p h e = rw (← e) (all_due-set ps w p h)

Step-IsCapped :
    {max_conns workers : ℕ} {s t : Race}
    → Step max_conns s t
    → IsCapped max_conns workers s
    → IsCapped max_conns workers t
Step-IsCapped (test s w h e m) c = record {
  size = length-set s.phases w tested ∙ c.size;
  cap = omega (arith, m, all_due-le (set s.phases w tested), length-set s.phases w tested, c.size);
}
Step-IsCapped (load s w h e) c =
    let p = loaded (get_or s.conns w 0) in
    record {
      size = length-set s.phases w p ∙ c.size;
      cap = omega (arith, due_at s.phases w tested p h e, c.cap);
    }
Step-IsCapped (swap s w old h g e m) c = record {
  size = length-set s.phases w idle ∙ c.size;
  cap = omega (arith, due_at s.phases w (loaded old) idle h e, sum-inc s.conns w g, c.cap);
}
Step-IsCapped (retry s w old h e m) c = record {
  size = length-set s.phases w idle ∙ c.size;
  cap = omega (arith, due_at s.phases w (loaded old) idle h e, c.cap);
}
Step-IsCapped (release s w g p) c = record {
  size = c.size;
  cap = omega (arith, sum-dec s.conns w g p, c.cap);
}

Reach-IsCapped :
    {max_conns workers : ℕ} {s t : Race}
    → IsCapped max_conns workers s
    → Reach max_conns s t
    → IsCapped max_conns workers t
Reach-IsCapped c here = c
Reach-IsCapped c (next r t) = Step-IsCapped t (Reach-IsCapped c r)

-- However the workers' steps interleave, the tarpitted connections exceed the cap by less than the
-- number of workers, if they start within the cap and no worker is in the loop.
pub overshoot :
    (max_conns : ℕ) (s t : Race)
    → tarpit_sum s.conns ≤ max_conns
    → all_due s.phases ≡ 0
    → 0 < length s.phases
    → Reach max_conns s t
    → tarpit_sum t.conns < max_conns + length s.phases
overshoot max_conns s t m d w r =
    let start : IsCapped max_conns (length s.phases) s = record {
      size = refl;
      cap = omega (arith, m, d, w);
    } in
    let c = Reach-IsCapped start r in omega (arith, c.cap)

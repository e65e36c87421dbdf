-- ===== src/Tarpit/Slots.antt =====
-- sentinel_tarpit_start and sentinel_tarpit_cleanup of sentinel_tarpit.c: the slots under the cap.
use nginx_http_sentinel_modu.Prelude.{
  ℕ, zero, suc, ◌+◌, ◌-◌, ◌≤◌, ◌<◌, ◌≡◌, refl, true, List, [], ◌∷◌, some, arith, leb, ◌==◌,
  if◌then◌else◌, length, length-set, get_or, set, get_or-set_self, Bool-cases, inl, inr,
}
use nginx_http_sentinel_modu.Nginx.{Rc, ok, error, again, done, declined, status}
use nginx_http_sentinel_modu.Tarpit.{
  Tarpit, TarpitConf, StartEnv, Started, refused, armed, finalized, tarpit_ctx, tarpit_sum,
  inc_slot, dec_slot, slot_of, cleanup, start_reserved, after_reserve, reserve, tarpit_start,
}

sum-set :
    (conns : List ℕ) (i v : ℕ)
    → i < length conns
    → tarpit_sum (set conns i v) + get_or conns i 0 ≡ tarpit_sum conns + v
unfolding tarpit_sum
sum-set [] i v h = absurd (omega arith)
sum-set (c ∷ cs) zero v h = omega arith
sum-set (c ∷ cs) (suc i) v h = omega (arith, sum-set cs i v (omega arith))

pub sum-inc :
    (conns : List ℕ) (i : ℕ)
    → i < length conns
    → tarpit_sum (inc_slot conns i) ≡ suc (tarpit_sum conns)
unfolding inc_slot
sum-inc conns i h = omega (arith, sum-set conns i (suc (get_or conns i 0)) h)

pub sum-dec :
    (conns : List ℕ) (i : ℕ)
    → i < length conns
    → 0 < get_or conns i 0
    → suc (tarpit_sum (dec_slot conns i)) ≡ tarpit_sum conns
unfolding dec_slot
sum-dec conns i h g = omega (arith, sum-set conns i (get_or conns i 0 - 1) h)

slot_of-lt : (conns : List ℕ) (worker : ℕ) → 0 < length conns → slot_of conns worker < length conns
unfolding slot_of
slot_of-lt conns worker h = ground arith

inc_slot-get :
    (conns : List ℕ) (i : ℕ)
    → i < length conns
    → get_or (inc_slot conns i) i 0 ≡ suc (get_or conns i 0)
unfolding inc_slot
inc_slot-get conns i h = get_or-set_self conns i (suc (get_or conns i 0)) 0 h

length-inc_slot : (conns : List ℕ) (i : ℕ) → length (inc_slot conns i) ≡ length conns
unfolding inc_slot
length-inc_slot conns i = length-set conns i (suc (get_or conns i 0))

-- The slots that a request holds: one from its start until its cleanup has run.
abbrev pub held : Started → ℕ
held (refused rc) = 0
held (armed t wait) = if t.counted then 1 else 0
held (finalized t rc) = if t.counted then 1 else 0

-- The sum of the counters and what the start has taken of it.
abbrev Accounts : List ℕ → Started × List ℕ → Type 0
Accounts conns (s, conns') = tarpit_sum conns' ≡ tarpit_sum conns + held s

start_reserved-Accounts :
    (conf : TarpitConf) (env : StartEnv) (now slot : ℕ) (conns : List ℕ)
    → slot < length conns
    → Accounts conns (start_reserved conf env now slot (inc_slot conns slot))
unfolding start_reserved
start_reserved-Accounts conf env now slot conns h =
    let up = sum-inc conns slot h in
    let down =
      sum-dec (inc_slot conns slot) slot (omega (arith, length-inc_slot conns slot))
        (omega (arith, inc_slot-get conns slot h)) in
    elim (Bool-cases env.ctx_alloc) [
      | inl a ↦ elim (Bool-cases env.cleanup_alloc) [
        | inl c ↦ rw (a, c) (by_header env.header_rc up)
        | inr c ↦ rw (a, c) (omega (arith, up, down))
      ]
      | inr a ↦ rw a (omega (arith, up, down))
    ]
  where
    by_header :
        (rc : Rc)
        → tarpit_sum (inc_slot conns slot) ≡ suc (tarpit_sum conns)
        → let t = tarpit_ctx conf env now slot in
          let out : Started × List ℕ = elim rc [
            | error ↦ (finalized t error, inc_slot conns slot)
            | status n ↦ (finalized t done, inc_slot conns slot)
            | _ ↦ (armed t t.delay_ms, inc_slot conns slot)
          ] in
          Accounts conns out
    by_header ok up = omega (arith, up)
    by_header error up = omega (arith, up)
    by_header again up = omega (arith, up)
    by_header Rc.busy up = omega (arith, up)
    by_header done up = omega (arith, up)
    by_header declined up = omega (arith, up)
    by_header (status n) up = omega (arith, up)

held-le : (s : Started) → held s ≤ 1
held-le (refused rc) = omega arith
held-le (armed t wait) = ground arith
held-le (finalized t rc) = ground arith

-- Starting a tarpit adds to the workers' counters exactly what the request holds, failures of the
-- setup included, and never takes their sum over the cap.
pub tarpit_start_slots :
    (conf : TarpitConf) (env : StartEnv) (conns : List ℕ) (worker now : ℕ)
    → 0 < length conns
    → tarpit_sum conns ≤ conf.max_conns
    → let (s, o) = tarpit_start conf env (some conns) worker now in
      (conns' : List ℕ) × (o ≡ some conns')
      × (tarpit_sum conns' ≡ tarpit_sum conns + held s)
      × (tarpit_sum conns' ≤ conf.max_conns)
unfolding tarpit_start reserve after_reserve
tarpit_start_slots conf env conns worker now h m = elim (Bool-cases (conf.max_conns == 0)) [
  | inl z ↦ rw z (conns, refl, omega arith, m)
  | inr z ↦ elim (Bool-cases (leb conf.max_conns (tarpit_sum conns))) [
    | inl c ↦ rw (z, c) (conns, refl, omega arith, m)
    | inr c ↦
        let slot = slot_of conns worker in
        let r = start_reserved conf env now slot (inc_slot conns slot) in
        let acc = start_reserved-Accounts conf env now slot conns (slot_of-lt conns worker h) in
        let most = held-le r.0 in rw (z, c) (r.1, refl, acc, ground arith)
  ]
]

-- The cleanup gives a counted slot back, and a second run of it changes nothing.
cleanup_once :
    (t : Tarpit) (conns : List ℕ)
    → t.slot < length conns
    → 0 < get_or conns t.slot 0
    → t.counted ≡ true
    → let (t', conns') = cleanup t conns in
      (suc (tarpit_sum conns') ≡ tarpit_sum conns) × (cleanup t' conns' ≡ (t', conns'))
unfolding cleanup
cleanup_once t conns h g c = rw c (sum-dec conns t.slot h g, refl)

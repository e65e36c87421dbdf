-- ===== src/Tarpit/Drip.antt =====
-- The drip: the byte budget, the deadline, and the fragment that fits its buffer.
use nginx_http_sentinel_modu.Prelude.{
  length-replicate, take, [], ◌∷◌, Bytes, min, ◌∙◌, ℕ, zero, suc, ◌+◌, ◌-◌, ◌≤◌, ◌<◌, ◌≡◌, refl, ap,
  Bool, true, false, ◌||◌, arith, leb, if◌then◌else◌, length, length-append, codes, Bool-cases, inl,
  inr, ◌⊎◌,
}
use nginx_http_sentinel_modu.Nginx.{Rc, error, again}
use nginx_http_sentinel_modu.Tarpit.{
  Tarpit, Tick, TickEnv, finish, rearm, maze_digits, maze_fragment, next_chunk, wait_of,
  write_handler, after_send, http_close, drip_buf,
}

length-maze_digits : (n rng : ℕ) → length (maze_digits n rng).1 ≡ n
unfolding maze_digits
length-maze_digits zero rng = refl
length-maze_digits (suc n) rng = ap suc (length-maze_digits n _)

-- `NGX_SENTINEL_TARPIT_MAZE_FRAG`
abbrev maze_frag : ℕ
maze_frag = 64

-- Every fragment of the maze has 35 bytes, which fit the scratch buffer.
maze_fragment_fits :
    (t : Tarpit) → (length (maze_fragment t).1 ≡ 35) × (length (maze_fragment t).1 ≤ maze_frag)
unfolding maze_fragment
maze_fragment_fits t =
    let n = length-maze_digits 16 t.rng in
    let m = length-append (maze_digits 16 t.rng).1 (codes "/\">x</a>\n") in
    (omega (arith, n, m), omega (arith, n, m))

length-take-min : (n : ℕ) (bs : Bytes) → length (take n bs) ≡ min n (length bs)
length-take-min zero bs = omega arith
length-take-min (suc n) [] = omega arith
length-take-min (suc n) (b ∷ bs) = omega (arith, length-take-min n bs)

abbrev pub is_again : Rc → Bool
is_again again = true
is_again _ = false

-- A tick that goes on: the deadline and the budget stay; the bytes handed over are some, and no more
-- than were left; they are counted, unless the filter has answered NGX_AGAIN, and then neither the
-- budget nor the time is used up; before the deadline the next tick is no later than the deadline.
pub record GoesOn (t : Tarpit) (env : TickEnv) (chunk : Bytes) (t' : Tarpit) (wait : ℕ)
    : Type 0 where
  pub deadline : t'.deadline ≡ t.deadline
  pub total : t'.bytes_total ≡ t.bytes_total
  pub some_bytes : 0 < length chunk
  pub in_budget : t.bytes_sent + length chunk ≤ t.bytes_total
  pub counted :
      t'.bytes_sent ≡ (if is_again env.sent then t.bytes_sent else t.bytes_sent + length chunk)
  pub more :
      (is_again env.sent ≡ true)
      ⊎ ((t'.bytes_sent < t'.bytes_total) × (env.now_after < t'.deadline))
  pub soon : (t.deadline ≤ env.now_after) ⊎ (env.now_after + wait ≤ t.deadline)

abbrev pub TickOf : Tarpit → TickEnv → Bytes → Tick → Type 0
TickOf t env chunk (finish rc) = length chunk ≤ t.bytes_total - t.bytes_sent
TickOf t env chunk (rearm t' wait) = GoesOn t env chunk t' wait

-- The chunk of a tick within its budget.
record IsChunk (t t' : Tarpit) (chunk : Bytes) : Type 0 where
  deadline : t'.deadline ≡ t.deadline
  total : t'.bytes_total ≡ t.bytes_total
  sent : t'.bytes_sent ≡ t.bytes_sent
  some_bytes : 0 < length chunk
  in_budget : t.bytes_sent + length chunk ≤ t.bytes_total

next_chunk-IsChunk :
    (t : Tarpit) → t.bytes_sent < t.bytes_total → IsChunk t (next_chunk t).0 (next_chunk t).1
unfolding next_chunk maze_fragment
next_chunk-IsChunk t h =
    let left = t.bytes_total - t.bytes_sent in
    let fits = (maze_fragment_fits t).0 in
    let maze = length-take-min left (maze_fragment t).1 in
    let plain = length-take-min left drip_buf ∙ ap (min left) (length-replicate {A = ℕ} 32 b' ') in
    elim (Bool-cases t.maze) [
      | inl e ↦ simp e (record {
        deadline = refl;
        total = refl;
        sent = refl;
        some_bytes = omega (arith, maze, fits);
        in_budget = omega (arith, maze, fits);
      })
      | inr e ↦ simp e (record {
        deadline = refl;
        total = refl;
        sent = refl;
        some_bytes = omega (arith, plain);
        in_budget = omega (arith, plain);
      })
    ]

wait_of-le : (t : Tarpit) (now : ℕ) → (t.deadline ≤ now) ⊎ (now + wait_of t now ≤ t.deadline)
unfolding wait_of
wait_of-le t now = ground arith

module _ (t t' : Tarpit) (env : TickEnv) (chunk : Bytes) (c : IsChunk t t' chunk) where
  within : length chunk ≤ t.bytes_total - t.bytes_sent
  within = omega (arith, c.in_budget)

  again_tick :
      is_again env.sent ≡ true
      → (event : Bool)
      → TickOf t env chunk (if event then rearm t' (wait_of t' env.now_after) else finish error)
  again_tick g true = record {
    deadline = c.deadline;
    total = c.total;
    some_bytes = c.some_bytes;
    in_budget = c.in_budget;
    counted = rw g c.sent;
    more = inl g;
    soon = rw⁻¹ c.deadline (wait_of-le t' env.now_after);
  }
  again_tick g false = within

  abbrev sent_more : Tarpit
  sent_more = record t' { bytes_sent = t'.bytes_sent + length chunk }

  sent_tick :
      is_again env.sent ≡ false
      → TickOf t env chunk (
          if leb sent_more.bytes_total sent_more.bytes_sent || leb sent_more.deadline env.now_after
          then finish http_close
          else rearm sent_more (wait_of sent_more env.now_after))
  sent_tick g =
      elim (Bool-cases
        (leb sent_more.bytes_total sent_more.bytes_sent || leb sent_more.deadline env.now_after)) [
          | inl e ↦ rw e within
          | inr e ↦ rw e (record {
            deadline = c.deadline;
            total = c.total;
            some_bytes = c.some_bytes;
            in_budget = c.in_budget;
            counted = rw g (ap (λ n. n + length chunk) c.sent);
            more = inr (ground arith);
            soon = rw⁻¹ c.deadline (wait_of-le sent_more env.now_after);
          })
        ]

after_send-TickOf :
    (t t' : Tarpit) (env : TickEnv) (chunk : Bytes)
    → IsChunk t t' chunk
    → TickOf t env chunk (after_send t' chunk env env.sent)
unfolding after_send
after_send-TickOf t t' env chunk c =
    elim env.sent as (λ x. env.sent ≡ x → TickOf t env chunk (after_send t' chunk env x)) [
      | error ↦ λ e. within t t' env chunk c
      | again ↦ λ e. again_tick t t' env chunk c (ap is_again e) env.write_event
      | _ ↦ λ e. sent_tick t t' env chunk c (ap is_again e)
    ]
      refl

pub write_handler_bounds :
    (t : Tarpit) (env : TickEnv)
    → t.bytes_sent ≤ t.bytes_total
    → let (chunk, tick) = write_handler t env in
      TickOf t env chunk tick
      × (((env.now < t.deadline) × (t.bytes_sent < t.bytes_total))
          ⊎ (write_handler t env ≡ ([], finish http_close)))
unfolding write_handler
write_handler_bounds t env h = (
  elim (Bool-cases (leb t.deadline env.now || leb t.bytes_total t.bytes_sent)) [
    | inl e ↦ rw e (omega arith)
    | inr e ↦ elim (Bool-cases env.gone) [
      | inl g ↦ simp (e, g) (omega arith)
      | inr g ↦
          simp (e, g)
            (after_send-TickOf t (next_chunk t).0 env (next_chunk t).1
              (next_chunk-IsChunk t (ground arith)))
    ]
  ],
  elim (Bool-cases (leb t.deadline env.now || leb t.bytes_total t.bytes_sent)) [
    | inl e ↦ inr (rw e refl)
    | inr e ↦ inl (ground arith, ground arith)
  ],
)

-- ===== src/Redis/Publish.antt =====
-- The flush of the push ring against the queue that the ring stands for.
use mathlib.Core.List.{append-nil}
use nginx_http_sentinel_modu.Prelude.{
  ℕ, zero, suc, ◌+◌, ◌≤◌, ◌<◌, ◌≡◌, ◌⊎◌, inl, inr, refl, sym, ap, ◌∙◌, true, false, List, [], ◌∷◌,
  ◌++◌, Option, none, some, arith, leb, ◌&&◌, length, Bytes, Bool-cases, Option-cases,
}
use nginx_http_sentinel_modu.Ring.{push_ring, Entry, Ring, used, dequeue_locked}
use nginx_http_sentinel_modu.Ring.Fifo.{IsRing, queue, dequeue_fifo, length-entries}
use nginx_http_sentinel_modu.Redis.{Client, World, RedisConf, Command, is_up, up}
use nginx_http_sentinel_modu.Redis.Push.{
  set_command, Drain, issue, flush_entry, flush_round, flush_loop, flushed, flush_push,
}

abbrev pub add_some {ℓ} : {A : Type ℓ} → Option A → List A → List A
add_some none xs = xs
add_some (some x) xs = x ∷ xs

-- The commands for the entries of a queue, in its order.
abbrev pub commands_of : ℕ → (ℕ → Bytes) → Bytes → ℕ → List Entry → List Command
commands_of strlen render prefix now [] = []
commands_of strlen render prefix now (e ∷ es) =
    add_some (set_command strlen render prefix now e) (commands_of strlen render prefix now es)

List-cases : {A : Type 0} (xs : List A) → (xs ≡ []) ⊎ ((x : A) × (ys : List A) × (xs ≡ x ∷ ys))
List-cases [] = inl refl
List-cases (x ∷ xs) = inr (x, xs, refl)

append_snoc :
    {A : Type 0} (xs : List A) (y : A) (ys : List A) → (xs ++ (y ∷ [])) ++ ys ≡ xs ++ (y ∷ ys)
append_snoc [] y ys = refl
append_snoc (x ∷ xs) y ys = ap (◌∷◌ x) (append_snoc xs y ys)

length_nil : {A : Type 0} (xs : List A) → length xs ≡ 0 → xs ≡ []
length_nil [] h = refl
length_nil (x ∷ xs) h = absurd (omega arith)

module _ (strlen : ℕ) (render : ℕ → Bytes) (w : World) (prefix : Bytes) (now : ℕ) where
  -- What a drain still to be made ends in.
  abbrev Drained : Drain → Drain → Type 0
  Drained d out =
      IsRing out.ring
      × (queue out.ring ≡ [])
      × (out.commands ≡ d.commands ++ commands_of strlen render prefix now (queue d.ring))

  -- What the loop does with the state behind a round.
  abbrev resume : ℕ → Drain → Drain
  resume n d = elim (d.ended) [ true ↦ d | false ↦ flush_loop strlen render w prefix now n d ]

  loop_ended :
      (n : ℕ) (d d' : Drain)
      → flush_round strlen render w prefix now d ≡ d'
      → d'.ended ≡ true
      → flush_loop strlen render w prefix now (suc n) d ≡ d'
  unfolding flush_loop
  loop_ended n d d' e t = ap (resume n) e ∙ rw t refl

  loop_on :
      (n : ℕ) (d d' : Drain)
      → flush_round strlen render w prefix now d ≡ d'
      → d'.ended ≡ false
      → flush_loop strlen render w prefix now (suc n) d ≡ flush_loop strlen render w prefix now n d'
  unfolding flush_loop
  loop_on n d d' e t = ap (resume n) e ∙ rw t refl

  -- A round, given what the ring answers.
  round_of :
      (d : Drain) (o : Option Entry) (r : Ring)
      → (dequeue_locked d.ring).0 ≡ o
      → (dequeue_locked d.ring).1 ≡ r
      → flush_round strlen render w prefix now d
        ≡ flush_entry strlen render w prefix now o (record d { ring = r })
  round_of d o r e g = cc

  flush_nil :
      (n : ℕ) (d : Drain)
      → IsRing d.ring
      → queue d.ring ≡ []
      → Drained d (flush_loop strlen render w prefix now (suc n) d)
  flush_nil n d r q =
      let (r', front, tail) = dequeue_fifo d.ring r in
      let (o, same) = front q in
      rw (loop_ended n d (record d { ended = true }) (round_of d none d.ring o same) refl)
        (r, q, rw q (sym (append-nil d.commands)))

  -- When every command is taken, a loop with more rounds than entries empties the ring.
  flush_all :
      ((cmd : Command) → w.accepts cmd ≡ true)
      → (n : ℕ) (d : Drain) (q : List Entry) → IsRing d.ring
      → queue d.ring ≡ q
      → length q < n
      → d.drained + length q ≤ push_ring
      → d.ended ≡ false
      → IsRing (flush_loop strlen render w prefix now n d).ring
        × (queue (flush_loop strlen render w prefix now n d).ring ≡ [])
        × ((flush_loop strlen render w prefix now n d).commands
            ≡ d.commands ++ commands_of strlen render prefix now q)
  flush_all a zero d q r g h b x = absurd (omega arith)
  flush_all a (suc n) d [] r g h b x =
      let (r', front, tail) = dequeue_fifo d.ring r in
      let (o, same) = front g in
      rw (loop_ended n d (record d { ended = true }) (round_of d none d.ring o same) refl)
        (r, g, sym (append-nil d.commands))
  flush_all a (suc n) d (e ∷ es) r g h b x =
      let (r', front, tail) = dequeue_fifo d.ring r in
      let (o, rest) = tail e es g in
      let next = (dequeue_locked d.ring).1 in
      let round = round_of d (some e) next o refl in
      elim (Option-cases (set_command strlen render prefix now e)) [
        | inl s ↦
            let d' : Drain = record d { ring = next } in
            let step : flush_round strlen render w prefix now d ≡ d' =
              round ∙ ap (λ c. issue w c d') s in
            rw (loop_on n d d' step x, s)
              (flush_all a n d' es r' rest (omega arith) (omega arith) x)
        | inr (cmd, s) ↦
            let d' : Drain = record {
              ring = next;
              commands = d.commands ++ (cmd ∷ []);
              drained = suc d.drained;
              ended = leb push_ring (suc d.drained);
            } in
            let taken : issue w (some cmd) (record d { ring = next }) ≡ d' = rw (a cmd) refl in
            let step : flush_round strlen render w prefix now d ≡ d' =
              round ∙ ap (λ c. issue w c (record d { ring = next })) s ∙ taken in
            elim (Bool-cases (leb push_ring (suc d.drained))) [
              | inl f ↦
                  let none_left : es ≡ [] = length_nil es (ground arith) in
                  rw (loop_ended n d d' step f, s) (r', rest ∙ none_left, rw none_left refl)
              | inr f ↦
                  let (ring, empty, commands) =
                    flush_all a n d' es r' rest (omega arith) (omega arith) f in
                  rw (loop_on n d d' step f, s)
                    (ring, empty, commands ∙ append_snoc d.commands cmd _)
            ]
      ]

-- A flush issues commands, and does nothing else to the client.
pub flush-sent :
    (strlen : ℕ) (render : ℕ → Bytes) (w : World) (conf : RedisConf) (now : ℕ) (c : Client)
    (push : Option Ring)
    → (cmds : List Command) × ((flush_push strlen render w conf now c push).0
        ≡ record c { sent = cmds })
unfolding flush_push
flush-sent strlen render w conf now c none = (c.sent, refl)
flush-sent strlen render w conf now c (some r) = elim (Bool-cases (c.ac && is_up c.state)) [
  | inl h ↦
      (c.sent ++ (flushed strlen render w conf.prefix now r).commands, rw (h, flush_push) refl)
  | inr h ↦ (c.sent, rw (h, flush_push) refl)
]

-- A flush over a connection that is up and takes every command empties the ring and issues one SET
-- for each entry whose address fits and which has not run out, in the order of the entries; the
-- client does not change otherwise.
pub flush_push_queue :
    (strlen : ℕ) (render : ℕ → Bytes) (w : World) (conf : RedisConf) (now : ℕ) (c : Client)
    (r : Ring)
    → IsRing r
    → c.ac ≡ true
    → c.state ≡ up
    → ((cmd : Command) → w.accepts cmd ≡ true)
    → (r' : Ring) × IsRing r'
      × (queue r' ≡ [])
      × (flush_push strlen render w conf now c (some r) ≡ (
        record c { sent = c.sent ++ commands_of strlen render conf.prefix now (queue r) },
        some r',
      ))
unfolding flush_push
flush_push_queue strlen render w conf now c r ok a u acc =
    let d : Drain = record { ring = r; commands = []; drained = 0; ended = false } in
    let len = length-entries r.ring r.tail (used r) in
    let all =
      flush_all strlen render w conf.prefix now acc (suc push_ring) d (queue r) ok refl
        (omega (arith, len, ok.bound)) (omega (arith, len, ok.bound)) refl in
    let live : (c.ac && is_up c.state) ≡ true = rw (a, u) refl in
    let out = flush_loop strlen render w conf.prefix now (suc push_ring) d in
    (
      out.ring,
      all.0,
      all.1,
      rw (live, flush_push) (ap (λ s. (record c { sent = c.sent ++ s }, some (out.ring))) all.2),
    )

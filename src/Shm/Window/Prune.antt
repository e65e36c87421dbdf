-- ===== src/Shm/Window/Prune.antt =====
-- sentinel_shm_prune of sentinel_shm.c: the in-place compaction against the events of the window.
use native.Mathlib.Nat.{mod-eq_of_lt, zero-add}
use mathlib.Core.List.{append_assoc, append-nil}
use nginx_http_sentinel_modu.Prelude.{
  ℕ, zero, suc, ◌+◌, ◌≤◌, ◌<◌, ◌≡◌, refl, sym, ap, ◌∙◌, Bool, List, [], ◌∷◌, ◌++◌, arith,
  if◌then◌else◌, ltb, length, get_or, set, take, drop, filter, length-set, Bool-cases, inl, inr,
}
use nginx_http_sentinel_modu.Shm.Zone.{Node, Zone}
use nginx_http_sentinel_modu.Shm.Window.{prune_loop, prune}

-- An event time is in the window at `now`.
abbrev pub in_window : ℕ → ℕ → ℕ → Bool
in_window interval now ts = ltb now (ts + interval)

abbrev pub window : ℕ → ℕ → List ℕ → List ℕ
window interval now = filter (in_window interval now)

drop-get : (xs : List ℕ) (i : ℕ) → i < length xs → drop i xs ≡ get_or xs i 0 ∷ drop (suc i) xs
drop-get [] i h = absurd (omega arith)
drop-get (x ∷ xs) zero h = refl
drop-get (x ∷ xs) (suc i) h = drop-get xs i (omega arith)

pub take-set :
    (xs : List ℕ) (i v : ℕ) → i < length xs → take (suc i) (set xs i v) ≡ take i xs ++ v ∷ []
take-set [] i v h = absurd (omega arith)
take-set (x ∷ xs) zero v h = refl
take-set (x ∷ xs) (suc i) v h = ap (◌∷◌ x) (take-set xs i v (omega arith))

drop-set : (xs : List ℕ) (i j v : ℕ) → i < j → drop j (set xs i v) ≡ drop j xs
drop-set xs i zero v h = absurd (omega arith)
drop-set [] i (suc j) v h = refl
drop-set (x ∷ xs) zero (suc j) v h = refl
drop-set (x ∷ xs) (suc i) (suc j) v h = drop-set xs i j v (omega arith)

-- What the loop has done when it stops.
record Pruned (z : Zone) (now left i keep : ℕ) (events : List ℕ) (out : ℕ × List ℕ) : Type 0 where
  kept : take out.0 out.1 ≡ take keep events ++ window z.interval now (take left (drop i events))
  size : length out.1 ≡ length events
  few : out.0 ≤ keep + left

-- One round, inside the ring.
prune_loop-suc :
    (z : Zone) (now left i keep : ℕ) (events : List ℕ)
    → i < z.threshold
    → let ts = get_or events i 0 in
      prune_loop z now 0 (suc left) i keep events ≡ (
        if in_window z.interval now ts
        then prune_loop z now 0 left (suc i) (suc keep) (set events keep ts)
        else prune_loop z now 0 left (suc i) keep events)
unfolding prune_loop
prune_loop-suc z now left i keep events h =
    rw (zero-add, mod-eq_of_lt h)
      (elim (Bool-cases (in_window z.interval now (get_or events i 0))) [
        | inl b ↦ rw b
        | inr b ↦ rw b
      ])

-- The window of the events from `i` on, by its first one.
window-drop :
    (z : Zone) (now left i : ℕ) (events : List ℕ)
    → i < length events
    → window z.interval now (take (suc left) (drop i events)) ≡ (
        if in_window z.interval now (get_or events i 0)
        then get_or events i 0 ∷ window z.interval now (take left (drop (suc i) events))
        else window z.interval now (take left (drop (suc i) events)))
window-drop z now left i events h = rw (drop-get events i h)

prune_loop-Pruned :
    (z : Zone) (now left i keep : ℕ) (events : List ℕ)
    → keep ≤ i
    → i + left ≤ z.threshold
    → i + left ≤ length events
    → Pruned z now left i keep events (prune_loop z now 0 left i keep events)
prune_loop-Pruned z now zero i keep events h k l =
    unfold prune_loop in record { kept = sym (append-nil _); size = refl; few = omega arith }
prune_loop-Pruned z now (suc left) i keep events h k l =
    let ts = get_or events i 0 in
    let step = prune_loop-suc z now left i keep events (omega arith) in
    let first = window-drop z now left i events (omega arith) in
    elim (Bool-cases (in_window z.interval now ts)) [
      | inl b ↦
          let rest =
            prune_loop-Pruned z now left (suc i) (suc keep) (set events keep ts) (omega arith)
              (omega arith) (omega (arith, length-set events keep ts)) in
          rw (step, b)
            (record {
              kept =
                  rest.kept
                  ∙ rw
                      (
                        take-set events keep ts (omega arith),
                        drop-set events keep (suc i) ts (omega arith),
                      )
                      (append_assoc (take keep events) (ts ∷ []) _
                        ∙ ap (◌++◌ (take keep events)) (sym (rw b at first)));
              size = rest.size ∙ length-set events keep ts;
              few = omega (arith, rest.few);
            })
      | inr b ↦
          let rest =
            prune_loop-Pruned z now left (suc i) keep events (omega arith) (omega arith)
              (omega arith) in
          rw (step, b)
            (record {
              kept = rest.kept ∙ ap (◌++◌ (take keep events)) (sym (rw b at first));
              size = rest.size;
              few = omega (arith, rest.few);
            })
    ]

-- The events of a node whose ring starts at index 0, oldest first.
abbrev pub times : Node → List ℕ
times n = take n.event_count n.events

-- A node as every operation leaves it: the ring starts at 0, and one more event fits.
pub record IsValid (threshold : ℕ) (n : Node) : Type 0 where
  pub head : n.event_head ≡ 0
  pub room : n.event_count < threshold
  pub size : length n.events ≡ threshold

-- On a valid node the in-place compaction of the ring keeps the events of the window and no
-- others, in their order, and leaves a valid node.
pub prune-times :
    (z : Zone) (n : Node) (now : ℕ)
    → IsValid z.threshold n
    → (times (prune z n now) ≡ window z.interval now (times n))
      × IsValid z.threshold (prune z n now)
unfolding prune
prune-times z n now v =
    let p =
      prune_loop-Pruned z now n.event_count 0 0 n.events (omega arith) (omega arith)
        (omega arith) in
    rw v.head (p.kept, record { head = refl; room = omega (arith, p.few); size = p.size ∙ v.size })

-- The compaction touches the ring only.
pub prune-fields :
    (z : Zone) (n : Node) (now : ℕ)
    → ((prune z n now).blocked_until ≡ n.blocked_until)
      × ((prune z n now).last_seen ≡ n.last_seen)
      × ((prune z n now).key ≡ n.key)
unfolding prune
prune-fields z n now = (refl, refl, refl)

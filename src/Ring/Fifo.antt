-- ===== src/Ring/Fifo.antt =====
-- The rings of sentinel_redis.c and sentinel_cssink.c as queues.
use nginx_http_sentinel_modu.Prelude.{
  ℕ, zero, suc, ◌+◌, ◌%◌, ◌^◌, ◌≤◌, ◌<◌, ◌≡◌, ◌≢◌, refl, sym, ap, ◌∙◌, List, [], ◌∷◌, ◌++◌, none,
  some, arith, leb, ◌==◌, length, length-set, get_or, set, get_or-set_self, get_or-set_ne,
  Bool-cases, inl, inr, ==_iff,
}
use nginx_http_sentinel_modu.Ring.{
  push_ring, Entry, empty_entry, Ring, used, enqueue_locked, dequeue_locked,
}

-- The `n` entries from counter `tail` on.
abbrev pub entries : List Entry → ℕ → ℕ → List Entry
entries slots tail zero = []
entries slots tail (suc n) =
    get_or slots (tail % push_ring) empty_entry ∷ entries slots (suc tail) n

-- Counters in range, no more entries in use than slots, all slots there.
pub record IsRing (r : Ring) : Type 0 where
  pub head : r.head < 2 ^ 64
  pub tail : r.tail < 2 ^ 64
  pub bound : used r ≤ push_ring
  pub size : length r.ring ≡ push_ring

-- The queue a ring stands for, oldest entry first.
abbrev pub queue : Ring → List Entry
queue r = entries r.ring r.tail (used r)

entries-mod :
    (slots : List Entry) (s t n : ℕ)
    → s % push_ring ≡ t % push_ring
    → entries slots s n ≡ entries slots t n
entries-mod slots s t zero e = refl
entries-mod slots s t (suc n) e =
    let rest = entries-mod slots (suc s) (suc t) n (omega arith) in rw (e, rest) refl

slot_ne : (t k : ℕ) → 0 < k → k < push_ring → (t + k) % push_ring ≢ t % push_ring
slot_ne t k a b e = absurd (omega arith)

-- A write behind the entries in use is not seen.
entries-set :
    (slots : List Entry) (i t n : ℕ) (e : Entry)
    → n < push_ring
    → i % push_ring ≡ (t + n) % push_ring
    → entries (set slots (i % push_ring) e) t n ≡ entries slots t n
entries-set slots i t zero e h g = refl
entries-set slots i t (suc n) e h g =
    let ne : i % push_ring ≢ t % push_ring = λ x. slot_ne t (suc n) (omega arith) h (sym g ∙ x) in
    rw (get_or-set_ne slots {i = i % push_ring} {j = t % push_ring} e empty_entry ne) (
      ap (◌∷◌ (get_or slots (t % push_ring) empty_entry))
        (entries-set slots i (suc t) n e (omega arith) (omega arith)))

entries-last :
    (slots : List Entry) (t n : ℕ)
    → entries slots t (suc n)
      ≡ entries slots t n ++ (get_or slots ((t + n) % push_ring) empty_entry ∷ [])
entries-last slots t zero =
    let same : (t + 0) % push_ring ≡ t % push_ring = omega arith in rw same refl
entries-last slots t (suc n) =
    let same : (t + suc n) % push_ring ≡ (suc t + n) % push_ring = omega arith in
    rw same (ap (◌∷◌ (get_or slots (t % push_ring) empty_entry)) (entries-last slots (suc t) n))

pub length-entries : (slots : List Entry) (t n : ℕ) → length (entries slots t n) ≡ n
length-entries slots t zero = refl
length-entries slots t (suc n) = ap suc (length-entries slots (suc t) n)

used_head : (r : Ring) → IsRing r → (r.tail + used r) % push_ring ≡ r.head % push_ring
unfolding used
used_head r w = omega (arith, w.head, w.tail)

-- The ring after a write.
abbrev pushed : Ring → Entry → Ring
pushed r e = record r { ring = set r.ring (r.head % push_ring) e; head = suc r.head % 2 ^ 64 }

used-pushed :
    (r : Ring) (e : Entry) → IsRing r → used r < push_ring → used (pushed r e) ≡ suc (used r)
unfolding used
used-pushed r e w h = omega (arith, w.head, w.tail, h)

pushed-IsRing : (r : Ring) (e : Entry) → IsRing r → used r < push_ring → IsRing (pushed r e)
pushed-IsRing r e w h = record {
  head = omega arith;
  tail = w.tail;
  bound = omega (arith, used-pushed r e w h);
  size = length-set r.ring (r.head % push_ring) e ∙ w.size;
}

queue-pushed :
    (r : Ring) (e : Entry)
    → IsRing r
    → used r < push_ring
    → queue (pushed r e) ≡ queue r ++ (e ∷ [])
queue-pushed r e w h =
    let slots = set r.ring (r.head % push_ring) e in
    let at_head : get_or slots ((r.tail + used r) % push_ring) empty_entry ≡ e =
      ap (λ x. get_or slots x empty_entry) (used_head r w)
      ∙ get_or-set_self r.ring (r.head % push_ring) e empty_entry (omega (arith, w.size)) in
    ap (λ n. entries slots r.tail n) (used-pushed r e w h)
    ∙ entries-last slots r.tail (used r)
    ∙ ap (λ x. entries slots r.tail (used r) ++ (x ∷ [])) at_head
    ∙ ap (λ q. q ++ (e ∷ [])) (entries-set r.ring r.head r.tail (used r) e h (sym (used_head r w)))

-- What the request path does to a ring: an entry goes to the end of the queue if that is shorter
-- than the ring, and is dropped and counted otherwise; the ring stays well formed.
pub enqueue_fifo :
    (r : Ring) (e : Entry)
    → IsRing r
    → let r' = enqueue_locked r e in
      IsRing r'
      × (length (queue r) < push_ring → (queue r' ≡ queue r ++ (e ∷ [])) × (r'.dropped ≡ r.dropped))
      × (push_ring ≤ length (queue r)
          → (queue r' ≡ queue r) × (r'.dropped ≡ suc r.dropped % 2 ^ 64))
unfolding enqueue_locked used
enqueue_fifo r e w =
    let len = length-entries r.ring r.tail (used r) in
    elim (Bool-cases (leb push_ring (used r))) [
      | inl h ↦ rw h (
        record { head = w.head; tail = w.tail; bound = w.bound; size = w.size },
        (λ l. absurd (ground arith)),
        (λ l. (refl, refl)),
      )
      | inr h ↦
          let room : used r < push_ring = ground arith in
          rw h (
            pushed-IsRing r e w room,
            (λ l. (queue-pushed r e w room, refl)),
            (λ l. absurd (omega arith)),
          )
    ]

-- The ring after a read.
abbrev popped : Ring → Ring
popped r = record r { tail = suc r.tail % 2 ^ 64 }

used-popped : (r : Ring) → IsRing r → r.tail ≢ r.head → used r ≡ suc (used (popped r))
unfolding used
used-popped r w h = omega (arith, w.head, w.tail, h)

empty_used : (r : Ring) → IsRing r → r.tail ≡ r.head → used r ≡ 0
unfolding used
empty_used r w h = omega (arith, w.head, w.tail, h)

nil-cons : {A : Type 0} (a : A) (xs : List A) → [] ≢ a ∷ xs
nil-cons a xs h = cc

cons-inj : {A : Type 0} (a b : A) (xs ys : List A) → a ∷ xs ≡ b ∷ ys → (a ≡ b) × (xs ≡ ys)
cons-inj a b xs ys h = (cc, cc)

-- What a timer takes from a ring: the oldest entry, which leaves the queue, or nothing exactly
-- when the queue is empty; the ring stays well formed.
pub dequeue_fifo :
    (r : Ring)
    → IsRing r
    → let (o, r') = dequeue_locked r in
      IsRing r'
      × ((queue r ≡ []) → (o ≡ none) × (r' ≡ r))
      × ((e : Entry) (es : List Entry) → queue r ≡ e ∷ es → (o ≡ some e) × (queue r' ≡ es))
unfolding dequeue_locked
dequeue_fifo r w = elim (Bool-cases (r.tail == r.head)) [
  | inl h ↦
      let no = empty_used r w ((==_iff r.tail r.head).0 h) in
      rw h (
        w,
        (λ e. (refl, refl)),
        (λ e es q. absurd (nil-cons e es (ap (entries r.ring r.tail) (sym no) ∙ q))),
      )
  | inr h ↦
      let ne : r.tail ≢ r.head = λ x. absurd (ground arith) in
      let n = used-popped r w ne in
      let q = ap (entries r.ring r.tail) n in
      let wrapped =
        entries-mod r.ring (suc r.tail % 2 ^ 64) (suc r.tail) (used (popped r)) (omega arith) in
      rw h (
        record {
          head = w.head;
          tail = omega arith;
          bound = omega (arith, n, w.bound);
          size = w.size;
        },
        (λ e. absurd (nil-cons _ _ (sym e ∙ q))),
        (λ e es g. let both = cons-inj _ _ _ _ (sym q ∙ g) in (ap some both.0, wrapped ∙ both.1)),
      )
]

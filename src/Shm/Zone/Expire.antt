-- ===== src/Shm/Zone/Expire.antt =====
-- sentinel_shm_expire of sentinel_shm.c: what it removes from the queue.
use mathlib.Core.List.{reverse, reverse-append, reverse-reverse, reverse-cons}
use mathlib.Core.Path.{subst}
use nginx_http_sentinel_modu.Prelude.{
  ℕ, zero, suc, ◌+◌, ◌≤◌, ◌≡◌, refl, sym, ap, ◌∙◌, false, List, [], ◌∷◌, ◌++◌, none, some, arith,
  All, Bytes, bytes_eq, Bool-cases, inl, inr, ltb, length, length-append, All-append, ◌<◌, ◌⊎◌,
  Option-cases,
}
use nginx_http_sentinel_modu.Shm.Zone.{Node, Zone, expire_oldest, expire, find_node}
use nginx_http_sentinel_modu.Shm.Zone.Find.{Distinct, find-All}

-- Neither blocked at `now` nor seen within the interval.
abbrev pub IsIdle : ℕ → ℕ → Node → Type 0
IsIdle interval now n = (n.blocked_until ≤ now) × (n.last_seen + interval ≤ now)

-- The expiry of a zone, as what it cuts off.
pub record Cut (z : Zone) (now batch : ℕ) : Type 0 where
  pub gone : List Node
  pub split : z.queue ≡ expire z now batch ++ gone
  pub idle : All (IsIdle z.interval now) gone
  pub few : length gone ≤ batch

record OldestCut (interval now batch : ℕ) (q : List Node) : Type 0 where
  gone : List Node
  split : q ≡ gone ++ expire_oldest interval now batch q
  idle : All (IsIdle interval now) gone
  few : length gone ≤ batch

expire_oldest-cut : (interval now batch : ℕ) (q : List Node) → OldestCut interval now batch q
unfolding expire_oldest
expire_oldest-cut interval now zero q = record {
  gone = [];
  split = refl;
  idle = tt;
  few = omega arith;
}
expire_oldest-cut interval now (suc b) [] = record {
  gone = [];
  split = refl;
  idle = tt;
  few = omega arith;
}
expire_oldest-cut interval now (suc b) (n ∷ q) = elim (Bool-cases (ltb now n.blocked_until)) [
  | inl h ↦ record { gone = []; split = rw h; idle = tt; few = omega arith }
  | inr h ↦ elim (Bool-cases (ltb now (n.last_seen + interval))) [
    | inl g ↦ record { gone = []; split = rw (h, g); idle = tt; few = omega arith }
    | inr g ↦
        let rest = expire_oldest-cut interval now b q in
        record {
          gone = n ∷ rest.gone;
          split = rw (h, g) (ap (◌∷◌ n) rest.split);
          idle = ((ground arith, ground arith), rest.idle);
          few = omega (arith, rest.few);
        }
  ]
]

All-reverse : {A : Type 0} (P : A → Type 0) (xs : List A) → All P xs → All P (reverse xs)
All-reverse P [] h = tt
All-reverse P (x ∷ xs) h =
    rw (reverse-cons x xs) (All-append P (reverse xs) (x ∷ []) (All-reverse P xs h.1) (h.0, tt))

length-reverse : {A : Type 0} (xs : List A) → length (reverse xs) ≡ length xs
length-reverse [] = refl
length-reverse (x ∷ xs) =
    rw (reverse-cons x xs) (omega (arith, length-append (reverse xs) (x ∷ []), length-reverse xs))

-- The expiry of a zone splits its queue: what goes is at the old end, is neither blocked nor seen
-- within the interval, and is at most a batch.
expire-Cut : (z : Zone) (now batch : ℕ) → Cut z now batch
unfolding expire
expire-Cut z now batch =
    let c = expire_oldest-cut z.interval now batch (reverse z.queue) in
    record {
      gone = reverse c.gone;
      split =
          sym (reverse-reverse z.queue)
          ∙ ap reverse c.split
          ∙ reverse-append c.gone (expire_oldest z.interval now batch (reverse z.queue));
      idle = All-reverse _ c.gone c.idle;
      few = omega (arith, c.few, length-reverse c.gone);
    }

module _ {ℓ} (P : Node → Type ℓ) where
  prefix-All : (xs ys : List Node) → All P (xs ++ ys) → All P xs
  prefix-All [] ys h = tt
  prefix-All (x ∷ xs) ys h = (h.0, prefix-All xs ys h.1)

  -- What holds of every node of the zone holds after the expiry.
  pub expire-All : (z : Zone) (now batch : ℕ) → All P z.queue → All P (expire z now batch)
  expire-All z now batch h =
      let c = expire-Cut z now batch in
      prefix-All (expire z now batch) c.gone (subst (All P) c.split h)

prefix-Distinct : (xs ys : List Node) → Distinct (xs ++ ys) → Distinct xs
prefix-Distinct [] ys h = tt
prefix-Distinct (x ∷ xs) ys h =
    (prefix-All (λ n. bytes_eq x.key n.key ≡ false) xs ys h.0, prefix-Distinct xs ys h.1)

pub expire-Distinct : (z : Zone) (now batch : ℕ) → Distinct z.queue → Distinct (expire z now batch)
expire-Distinct z now batch h =
    let c = expire-Cut z now batch in
    prefix-Distinct (expire z now batch) c.gone (subst Distinct c.split h)

find-prefix :
    (k : Bytes) (xs ys : List Node) (n : Node)
    → find_node k xs ≡ some n
    → find_node k (xs ++ ys) ≡ some n
unfolding find_node
find-prefix k [] ys n h = cc
find-prefix k (x ∷ xs) ys n h = ground (arith, find-prefix k xs ys n)

find-suffix :
    (k : Bytes) (xs ys : List Node)
    → find_node k xs ≡ none
    → find_node k (xs ++ ys) ≡ find_node k ys
unfolding find_node
find-suffix k [] ys h = refl
find-suffix k (x ∷ xs) ys h = ground (arith, find-suffix k xs ys)

-- The expiry adds no node and changes none.
pub find-expire :
    (z : Zone) (now batch : ℕ) (k : Bytes) (n : Node)
    → find_node k (expire z now batch) ≡ some n
    → find_node k z.queue ≡ some n
find-expire z now batch k n h =
    let c = expire-Cut z now batch in rw c.split (find-prefix k (expire z now batch) c.gone n h)

pub expired-IsIdle :
    (z : Zone) (now batch : ℕ) (k : Bytes) (n : Node)
    → find_node k (expire z now batch) ≡ none
    → find_node k z.queue ≡ some n
    → IsIdle z.interval now n
expired-IsIdle z now batch k n e h =
    let c = expire-Cut z now batch in
    find-All (IsIdle z.interval now) k c.gone {n = n} c.idle
      (sym (find-suffix k (expire z now batch) c.gone e) ∙ sym (ap (find_node k) c.split) ∙ h)

-- A node that is blocked, or was seen within the interval, is not expired.
expire_keeps :
    (z : Zone) (now batch : ℕ) (k : Bytes) (n : Node)
    → find_node k z.queue ≡ some n
    → (now < n.blocked_until) ⊎ (now < n.last_seen + z.interval)
    → find_node k (expire z now batch) ≡ some n
expire_keeps z now batch k n h busy = elim (Option-cases (find_node k (expire z now batch))) [
  | inl e ↦ let idle = expired-IsIdle z now batch k n e h in absurd (omega arith)
  | inr (m, e) ↦ e ∙ sym (find-expire z now batch k m e) ∙ h
]

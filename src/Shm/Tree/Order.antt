-- ===== src/Shm/Tree/Order.antt =====
-- The order of a tree by hash and key bytes, and a search of its nodes one by one.
use nginx_http_sentinel_modu.Prelude.{
  ℕ, ◌≡◌, refl, Bool, true, false, List, [], ◌∷◌, ◌++◌, Option, none, some, arith, ltb, ◌==◌, ◌&&◌,
  if◌then◌else◌, All, All-append, Bytes, bytes_eq, bytes_eq→eq, bytes_eq_refl,
}
use nginx_http_sentinel_modu.Prelude.Int.{ℤ, pos, negsuc, is_zero, is_neg}
use nginx_http_sentinel_modu.Shm.Zone.{Node}

-- What the code relies on of `ngx_memn2cmp`: it is a comparison, and 0 exactly at equal bytes.
pub record IsComparison (cmp : Bytes → Bytes → ℤ) : Type 0 where
  pub equal : (a b : Bytes) → is_zero (cmp a b) ≡ bytes_eq a b
  pub trans :
      (a b c : Bytes) → is_neg (cmp a b) ≡ true → is_neg (cmp b c) ≡ true → is_neg (cmp a c) ≡ true
  pub total :
      (a b : Bytes) → bytes_eq a b ≡ false → is_neg (cmp a b) ≡ false → is_neg (cmp b a) ≡ true

-- Whether a hash and a key are those of a node.
abbrev pub is_at : ℕ → Bytes → ℕ × Node → Bool
is_at h k e = h == e.0 && bytes_eq k e.1.key

abbrev pub find_at : ℕ → Bytes → List (ℕ × Node) → Option Node
find_at h k [] = none
find_at h k (e ∷ es) = if is_at h k e then some e.1 else find_at h k es

abbrev pub or_else : Option Node → Option Node → Option Node
or_else none b = b
or_else (some n) b = some n

pub find_at-++ :
    (h : ℕ) (k : Bytes) (xs ys : List (ℕ × Node))
    → find_at h k (xs ++ ys) ≡ or_else (find_at h k xs) (find_at h k ys)
find_at-++ h k [] ys = refl
find_at-++ h k (x ∷ xs) ys = ground (arith, find_at-++ h k xs ys)

pub All-split :
    (P : ℕ × Node → Type 0) (xs ys : List (ℕ × Node)) → All P (xs ++ ys) → All P xs × All P ys
All-split P [] ys h = (tt, h)
All-split P (x ∷ xs) ys h = let rest = All-split P xs ys h.1 in ((h.0, rest.0), rest.1)

pub neg_zero : (x : ℤ) → is_neg x ≡ true → is_zero x ≡ false
neg_zero (pos n) h = ground arith
neg_zero (negsuc n) h = refl

module _ (cmp : Bytes → Bytes → ℤ) where
  -- The order of the tree.
  abbrev pub before : ℕ → Bytes → ℕ → Bytes → Bool
  before h k h' k' = if ltb h h' then true else if ltb h' h then false else is_neg (cmp k k')

  abbrev pub After : ℕ × Node → ℕ × Node → Type 0
  After d e = before d.0 d.1.key e.0 e.1.key ≡ true

  abbrev pub Sorted : List (ℕ × Node) → Type 0
  Sorted [] = Unit {0}
  Sorted (e ∷ es) = All (After e) es × Sorted es

  -- The parts of a sorted list around one entry.
  pub record Around (xs : List (ℕ × Node)) (e : ℕ × Node) (ys : List (ℕ × Node)) : Type 0 where
    pub lower : All (λ x. After x e) xs
    pub upper : All (After e) ys
    pub first : Sorted xs
    pub last : Sorted ys

  pub Sorted-Around :
      (xs : List (ℕ × Node)) (e : ℕ × Node) (ys : List (ℕ × Node))
      → Sorted (xs ++ (e ∷ ys))
      → Around xs e ys
  Sorted-Around [] e ys h = record { lower = tt; upper = h.0; first = tt; last = h.1 }
  Sorted-Around (x ∷ xs) e ys h =
      let rest = Sorted-Around xs e ys h.1 in
      let above = All-split (After x) xs (e ∷ ys) h.0 in
      record {
        lower = (above.1.0, rest.lower);
        upper = rest.upper;
        first = (above.0, rest.first);
        last = rest.last;
      }

  module _ (o : IsComparison cmp) where
    before_trans :
        (h : ℕ) (k : Bytes) (d e : ℕ × Node)
        → before h k d.0 d.1.key ≡ true
        → After d e
        → before h k e.0 e.1.key ≡ true
    before_trans h k d e a b = ground (arith, o.trans k d.1.key e.1.key)

    All-After :
        (h : ℕ) (k : Bytes) (d : ℕ × Node) (es : List (ℕ × Node))
        → before h k d.0 d.1.key ≡ true
        → All (After d) es
        → All (λ e. before h k e.0 e.1.key ≡ true) es
    All-After h k d [] a b = tt
    All-After h k d (e ∷ es) a b = (before_trans h k d e a b.0, All-After h k d es a b.1)

    pub Around-Sorted :
        (xs : List (ℕ × Node)) (e : ℕ × Node) (ys : List (ℕ × Node))
        → Around xs e ys
        → Sorted (xs ++ (e ∷ ys))
    Around-Sorted [] e ys a = (a.upper, a.last)
    Around-Sorted (x ∷ xs) e ys a = (
      All-append (After x) xs (e ∷ ys) a.first.0
          (a.lower.0, All-After x.0 x.1.key e ys a.lower.0 a.upper),
      Around-Sorted xs e ys
          (record { lower = a.lower.1; upper = a.upper; first = a.first.1; last = a.last }),
    )

    -- A key is not where the order puts it before or after a node.
    pub before-apart :
        (h : ℕ) (k : Bytes) (e : ℕ × Node) → before h k e.0 e.1.key ≡ true → is_at h k e ≡ false
    before-apart h k e a = ground (arith, o.equal k e.1.key, neg_zero (cmp k e.1.key))

    pub after-apart :
        (h : ℕ) (k : Bytes) (e : ℕ × Node) → before e.0 e.1.key h k ≡ true → is_at h k e ≡ false
    after-apart h k e a =
        ground (
          arith,
          o.equal e.1.key k,
          neg_zero (cmp e.1.key k),
          bytes_eq→eq k e.1.key,
          bytes_eq_refl k,
        )

    pub before_total :
        (h : ℕ) (k : Bytes) (e : ℕ × Node)
        → is_at h k e ≡ false
        → before h k e.0 e.1.key ≡ false
        → before e.0 e.1.key h k ≡ true
    before_total h k e a b = ground (arith, o.total k e.1.key)

    pub find_above :
        (h : ℕ) (k : Bytes) (e : ℕ × Node) (es : List (ℕ × Node))
        → before h k e.0 e.1.key ≡ true
        → All (After e) es
        → find_at h k (e ∷ es) ≡ none
    find_above h k e [] a b = rw (before-apart h k e a) refl
    find_above h k e (d ∷ es) a b =
        rw (before-apart h k e a) (find_rest (d ∷ es) (All-After h k e (d ∷ es) a b))
      where
        find_rest :
            (es : List (ℕ × Node))
            → All (λ e. before h k e.0 e.1.key ≡ true) es
            → find_at h k es ≡ none
        find_rest [] b = refl
        find_rest (d ∷ es) b = rw (before-apart h k d b.0) (find_rest es b.1)

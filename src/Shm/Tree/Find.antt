-- ===== src/Shm/Tree/Find.antt =====
-- The tree as the map from keys to nodes that the queue of the zone also is.
use nginx_http_sentinel_modu.Prelude.{
  ℕ, ◌≡◌, refl, true, List, [], ◌∷◌, Option, none, some, arith, All, Bytes, bytes_eq→eq, Bool-cases,
  inl, inr,
}
use nginx_http_sentinel_modu.Prelude.Int.{ℤ}
use nginx_http_sentinel_modu.Shm.Zone.{Node}
use nginx_http_sentinel_modu.Shm.Tree.{Tree, sentinel, branch, tree_lookup, inorder}
use nginx_http_sentinel_modu.Shm.Tree.Order.{
  IsComparison, is_at, find_at, or_else, find_at-++, before, After, Sorted, Sorted-Around, neg_zero,
  after-apart, before_total, find_above,
}

or_none : (a : Option Node) → or_else a none ≡ a
or_none none = refl
or_none (some n) = refl

module _ (cmp : Bytes → Bytes → ℤ) (o : IsComparison cmp) where
  find_below :
      (h : ℕ) (k : Bytes) (xs : List (ℕ × Node))
      → All (λ x. before cmp x.0 x.1.key h k ≡ true) xs
      → find_at h k xs ≡ none
  find_below h k [] a = refl
  find_below h k (x ∷ xs) a = rw (after-apart cmp o h k x a.0) (find_below h k xs a.1)

  lower_below :
      (h : ℕ) (k : Bytes) (e : ℕ × Node) (xs : List (ℕ × Node))
      → After cmp e (h, record e.1 { key = k })
      → All (λ x. After cmp x e) xs
      → All (λ x. before cmp x.0 x.1.key h k ≡ true) xs
  lower_below h k e [] a b = tt
  lower_below h k e (x ∷ xs) a b =
      (ground (arith, o.trans x.1.key e.1.key k), lower_below h k e xs a b.1)

  lower_at :
      (h : ℕ) (k : Bytes) (e : ℕ × Node) (xs : List (ℕ × Node))
      → is_at h k e ≡ true
      → All (λ x. After cmp x e) xs
      → All (λ x. before cmp x.0 x.1.key h k ≡ true) xs
  lower_at h k e [] a b = tt
  lower_at h k e (x ∷ xs) a b =
      (ground (arith, bytes_eq→eq k e.1.key, b.0), lower_at h k e xs a b.1)

  -- In a tree that is in order, the descent finds what a search of all nodes finds.
  pub lookup-find :
      (h : ℕ) (k : Bytes) (t : Tree)
      → Sorted cmp (inorder t)
      → tree_lookup cmp h k t ≡ find_at h k (inorder t)
  unfolding tree_lookup
  lookup-find h k sentinel s = refl
  lookup-find h k (branch h' n l r) s =
      let e : ℕ × Node = (h', n) in
      let a = Sorted-Around cmp (inorder l) e (inorder r) s in
      let left = lookup-find h k l a.first in
      let right = lookup-find h k r a.last in
      let all = find_at-++ h k (inorder l) (e ∷ inorder r) in
      elim (Bool-cases (before cmp h k h' n.key)) [
        | inl b ↦
            let none_above = find_above cmp o h k e (inorder r) b a.upper in
            ground (
              arith,
              all,
              none_above,
              or_none (find_at h k (inorder l)),
              left,
              o.equal k n.key,
              neg_zero (cmp k n.key),
            )
        | inr b ↦ elim (Bool-cases (is_at h k e)) [
          | inl c ↦
              let none_below = find_below h k (inorder l) (lower_at h k e (inorder l) c a.lower) in
              ground (arith, all, none_below, o.equal k n.key)
          | inr c ↦
              let d = before_total cmp o h k e c b in
              let none_below =
                find_below h k (inorder l) (lower_below h k e (inorder l) d a.lower) in
              ground (arith, all, none_below, right, o.equal k n.key)
        ]
      ]

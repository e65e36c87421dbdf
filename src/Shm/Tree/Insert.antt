-- ===== src/Shm/Tree/Insert.antt =====
-- A new node in the tree.
use nginx_http_sentinel_modu.Prelude.{
  ℕ, ◌≡◌, refl, sym, ◌∙◌, true, false, List, ◌∷◌, ◌++◌, Option, none, some, arith, if◌then◌else◌,
  All, All-append, Bytes, bytes_eq→eq, Bool-cases, inl, inr,
}
use nginx_http_sentinel_modu.Prelude.Int.{ℤ}
use nginx_http_sentinel_modu.Shm.Zone.{Node}
use nginx_http_sentinel_modu.Shm.Tree.{Tree, sentinel, branch, rbtree_insert, inorder}
use nginx_http_sentinel_modu.Shm.Tree.Order.{
  IsComparison, is_at, find_at, or_else, find_at-++, All-split, before, After, Sorted,
  Sorted-Around, Around-Sorted, before_total,
}

-- A place that is free in a branch is free in its parts.
record Free (h : ℕ) (k : Bytes) (xs : List (ℕ × Node)) (e : ℕ × Node) (ys : List (ℕ × Node))
    : Type 0 where
  below : find_at h k xs ≡ none
  here : is_at h k e ≡ false
  above : find_at h k ys ≡ none

or_else-none : (a b : Option Node) → or_else a b ≡ none → (a ≡ none) × (b ≡ none)
or_else-none none b h = (refl, h)
or_else-none (some n) b h = absurd cc

Free-parts :
    (h : ℕ) (k : Bytes) (xs : List (ℕ × Node)) (e : ℕ × Node) (ys : List (ℕ × Node))
    → find_at h k (xs ++ (e ∷ ys)) ≡ none
    → Free h k xs e ys
Free-parts h k xs e ys a =
    let parts =
      or_else-none (find_at h k xs) (find_at h k (e ∷ ys)) (sym (find_at-++ h k xs (e ∷ ys)) ∙ a) in
    elim (Bool-cases (is_at h k e)) [
      | inl t ↦ absurd (ground (arith, parts.1))
      | inr t ↦ record { below = parts.0; here = t; above = ground (arith, parts.1) }
    ]

-- At one place all searches agree.
same_place : (g h : ℕ) (k : Bytes) (n : Node) → is_at g k (h, n) ≡ true → (g ≡ h) × (k ≡ n.key)
same_place g h k n e = (ground arith, ground (arith, bytes_eq→eq k n.key))

module _ (cmp : Bytes → Bytes → ℤ) where
  -- What the insertion does at a branch: it goes left if the order says so.
  insert-branch :
      (h : ℕ) (n : Node) (h' : ℕ) (m : Node) (l r : Tree)
      → rbtree_insert cmp h n (branch h' m l r) ≡ (
          if before cmp h n.key h' m.key
          then branch h' m (rbtree_insert cmp h n l) r
          else branch h' m l (rbtree_insert cmp h n r))
  unfolding rbtree_insert
  insert-branch h n h' m l r = ground arith

  All-insert :
      (P : ℕ × Node → Type 0) (h : ℕ) (n : Node) (t : Tree)
      → P (h, n)
      → All P (inorder t)
      → All P (inorder (rbtree_insert cmp h n t))
  unfolding rbtree_insert
  All-insert P h n sentinel p a = (p, tt)
  All-insert P h n (branch h' m l r) p a =
      let b = All-split P (inorder l) ((h', m) ∷ inorder r) a in
      let left = All-insert P h n l p b.0 in
      let right = All-insert P h n r p b.1.1 in
      rw (insert-branch h n h' m l r) (elim (Bool-cases (before cmp h n.key h' m.key)) [
        | inl e ↦ rw e (All-append P _ _ left b.1)
        | inr e ↦ rw e (All-append P _ _ b.0 (b.1.0, right))
      ])

  -- A search for the new node finds it, if its place was free, and every other search finds what it
  -- found.
  pub find-insert :
      (h : ℕ) (n : Node) (t : Tree) (g : ℕ) (k : Bytes)
      → find_at h n.key (inorder t) ≡ none
      → find_at g k (inorder (rbtree_insert cmp h n t))
        ≡ (if is_at g k (h, n) then some n else find_at g k (inorder t))
  unfolding rbtree_insert
  find-insert h n sentinel g k a = refl
  find-insert h n (branch h' m l r) g k a =
      let free = Free-parts h n.key (inorder l) (h', m) (inorder r) a in
      let left = find-insert h n l g k free.below in
      let right = find-insert h n r g k free.above in
      let old = find_at-++ g k (inorder l) ((h', m) ∷ inorder r) in
      let new_left = find_at-++ g k (inorder (rbtree_insert cmp h n l)) ((h', m) ∷ inorder r) in
      let new_right = find_at-++ g k (inorder l) ((h', m) ∷ inorder (rbtree_insert cmp h n r)) in
      rw (insert-branch h n h' m l r) (elim (Bool-cases (before cmp h n.key h' m.key)) [
        | inl e ↦ rw (e, new_left, left, old) (ground arith)
        | inr e ↦ elim (Bool-cases (is_at g k (h, n))) [
          | inl s ↦
              let (p, q) = same_place g h k n s in
              rw (e, new_right, right, s, p, q, free.below, free.here) refl
          | inr s ↦ rw (e, new_right, right, s, old) refl
        ]
      ])

  module _ (o : IsComparison cmp) where
    pub insert-Sorted :
        (h : ℕ) (n : Node) (t : Tree)
        → find_at h n.key (inorder t) ≡ none
        → Sorted cmp (inorder t)
        → Sorted cmp (inorder (rbtree_insert cmp h n t))
    unfolding rbtree_insert
    insert-Sorted h n sentinel a s = (tt, tt)
    insert-Sorted h n (branch h' m l r) a s =
        let e : ℕ × Node = (h', m) in
        let free = Free-parts h n.key (inorder l) e (inorder r) a in
        let b = Sorted-Around cmp (inorder l) e (inorder r) s in
        rw (insert-branch h n h' m l r) (elim (Bool-cases (before cmp h n.key h' m.key)) [
          | inl t ↦ rw t (
              Around-Sorted cmp o (inorder (rbtree_insert cmp h n l)) e (inorder r) (record {
                lower = All-insert (λ x. After cmp x e) h n l t b.lower;
                upper = b.upper;
                first = insert-Sorted h n l free.below b.first;
                last = b.last;
              }))
          | inr t ↦ rw t (
              Around-Sorted cmp o (inorder l) e (inorder (rbtree_insert cmp h n r)) (record {
                lower = b.lower;
                upper =
                    All-insert (After cmp e) h n r (before_total cmp o h n.key e free.here t)
                      b.upper;
                first = b.first;
                last = insert-Sorted h n r free.above b.last;
              }))
        ])

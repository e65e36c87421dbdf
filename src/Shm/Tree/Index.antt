-- ===== src/Shm/Tree/Index.antt =====
-- The tree and the queue of a zone hold the same nodes: a search of the tree by hash and key bytes is
-- a search of the queue by key, through insertions and removals.
use nginx_http_sentinel_modu.Prelude.{
  ℕ, ◌≡◌, refl, sym, ◌∙◌, true, false, List, [], ◌∷◌, none, arith, ◌==◌, ◌&&◌, if◌then◌else◌, All,
  Bytes, bytes_eq, bytes_eq→eq, bytes_eq_refl, Bool-cases, inl, inr,
}
use nginx_http_sentinel_modu.Prelude.Int.{ℤ}
use nginx_http_sentinel_modu.Shm.Zone.{Node, find_node, remove_node}
use nginx_http_sentinel_modu.Shm.Zone.Find.{
  Distinct, remove_self, find-Absent, find-remove_ne, bytes_eq_sym,
}
use nginx_http_sentinel_modu.Shm.Tree.{Tree, sentinel, tree_lookup, rbtree_insert, inorder}
use nginx_http_sentinel_modu.Shm.Tree.Order.{
  IsComparison, is_at, find_at, before, before-apart, After, Sorted,
}
use nginx_http_sentinel_modu.Shm.Tree.Find.{lookup-find}
use nginx_http_sentinel_modu.Shm.Tree.Insert.{find-insert, insert-Sorted}

at_key :
    (crc32 : Bytes → ℕ) (k : Bytes) (n : Node)
    → is_at (crc32 k) k (crc32 n.key, n) ≡ bytes_eq k n.key
at_key crc32 k n = elim (Bool-cases (bytes_eq k n.key)) [
  | inl e ↦ rw (bytes_eq→eq k n.key e) (ground (arith, bytes_eq_refl n.key))
  | inr e ↦ ground arith
]

-- `ngx_rbtree_delete`'s part in the sequence of nodes.
abbrev pub remove_at : ℕ → Bytes → List (ℕ × Node) → List (ℕ × Node)
remove_at h k [] = []
remove_at h k (e ∷ es) = if is_at h k e then es else e ∷ remove_at h k es

module _ (cmp : Bytes → Bytes → ℤ) (o : IsComparison cmp) where
  -- A tree and a queue that hold the same nodes: the tree is in order, each node is at the hash
  -- of its key, and a search of the one finds what a search of the other finds.
  pub record Index (crc32 : Bytes → ℕ) (t : Tree) (q : List Node) : Type 0 where
    pub sorted : Sorted cmp (inorder t)
    pub agrees : (k : Bytes) → find_at (crc32 k) k (inorder t) ≡ find_node k q

  -- What the code relies on of ngx_rbtree_insert's rotations: they keep the sequence of nodes.
  abbrev pub KeepsOrder : (Tree → Tree) → Type 0
  KeepsOrder balance = (t : Tree) → inorder (balance t) ≡ inorder t

  -- The empty tree of a new zone.
  pub Index-empty : (crc32 : Bytes → ℕ) → Index crc32 sentinel []
  unfolding find_node
  Index-empty crc32 = record { sorted = tt; agrees = λ k. refl }

  -- The descent in the tree finds the node that a search of the queue for the key finds.
  pub tree_lookup-find_node :
      (crc32 : Bytes → ℕ) (t : Tree) (q : List Node) (k : Bytes)
      → Index crc32 t q
      → tree_lookup cmp (crc32 k) k t ≡ find_node k q
  tree_lookup-find_node crc32 t q k i = lookup-find cmp o (crc32 k) k t i.sorted ∙ i.agrees k

  pub Index-insert :
      (crc32 : Bytes → ℕ) (balance : Tree → Tree) (t : Tree) (q : List Node) (n : Node)
      → KeepsOrder balance
      → Index crc32 t q
      → find_node n.key q ≡ none
      → Index crc32 (balance (rbtree_insert cmp (crc32 n.key) n t)) (n ∷ q)
  unfolding find_node
  Index-insert crc32 balance t q n b i a =
      let free = i.agrees n.key ∙ a in
      record {
        sorted =
            rw (b (rbtree_insert cmp (crc32 n.key) n t))
              (insert-Sorted cmp o (crc32 n.key) n t free i.sorted);
        agrees = λ k.
            rw
              (
                b (rbtree_insert cmp (crc32 n.key) n t),
                find-insert cmp (crc32 n.key) n t (crc32 k) k free,
                i.agrees k,
              )
              (rw (at_key crc32 k n) refl);
      }

  find-remove_at :
      (g h : ℕ) (j k : Bytes) (es : List (ℕ × Node))
      → (g == h && bytes_eq j k) ≡ false
      → find_at g j (remove_at h k es) ≡ find_at g j es
  find-remove_at g h j k [] a = refl
  find-remove_at g h j k (e ∷ es) a =
      ground (arith, bytes_eq→eq k e.1.key, find-remove_at g h j k es a)

  All-remove_at :
      (P : ℕ × Node → Type 0) (h : ℕ) (k : Bytes) (es : List (ℕ × Node))
      → All P es
      → All P (remove_at h k es)
  All-remove_at P h k [] a = tt
  All-remove_at P h k (e ∷ es) a = elim (Bool-cases (is_at h k e)) [
    | inl t ↦ rw t a.1
    | inr t ↦ rw t (a.0, All-remove_at P h k es a.1)
  ]

  remove_at-Sorted :
      (h : ℕ) (k : Bytes) (es : List (ℕ × Node)) → Sorted cmp es → Sorted cmp (remove_at h k es)
  remove_at-Sorted h k [] s = tt
  remove_at-Sorted h k (e ∷ es) s = elim (Bool-cases (is_at h k e)) [
    | inl t ↦ rw t s.1
    | inr t ↦ rw t (All-remove_at (After cmp e) h k es s.0, remove_at-Sorted h k es s.1)
  ]

  rest_apart :
      (h : ℕ) (k : Bytes) (e : ℕ × Node) (es : List (ℕ × Node))
      → is_at h k e ≡ true
      → All (After cmp e) es
      → find_at h k es ≡ none
  rest_apart h k e [] t a = refl
  rest_apart h k e (d ∷ es) t a =
      let b : before cmp h k d.0 d.1.key ≡ true = ground (arith, bytes_eq→eq k e.1.key, a.0) in
      rw (before-apart cmp o h k d b) (rest_apart h k e es t a.1)

  find_removed :
      (h : ℕ) (k : Bytes) (es : List (ℕ × Node))
      → Sorted cmp es
      → find_at h k (remove_at h k es) ≡ none
  find_removed h k [] s = refl
  find_removed h k (e ∷ es) s = elim (Bool-cases (is_at h k e)) [
    | inl t ↦ rw t (rest_apart h k e es t s.0)
    | inr t ↦ rw t (rw t (find_removed h k es s.1))
  ]

  -- What the code relies on of ngx_rbtree_delete: it takes the one node out of the sequence.
  abbrev pub Removes : (ℕ → Bytes → Tree → Tree) → Type 0
  Removes delete =
      (h : ℕ) (k : Bytes) (t : Tree) → inorder (delete h k t) ≡ remove_at h k (inorder t)

  pub Index-remove :
      (crc32 : Bytes → ℕ) (delete : ℕ → Bytes → Tree → Tree) (t : Tree) (q : List Node) (k : Bytes)
      → Removes delete
      → Index crc32 t q
      → Distinct q
      → Index crc32 (delete (crc32 k) k t) (remove_node k q)
  Index-remove crc32 delete t q k d i u = record {
    sorted = rw (d (crc32 k) k t) (remove_at-Sorted (crc32 k) k (inorder t) i.sorted);
    agrees = λ j. rw (d (crc32 k) k t) (elim (Bool-cases (bytes_eq j k)) [
      | inl e ↦ rw (bytes_eq→eq j k e) (
          find_removed (crc32 k) k (inorder t) i.sorted
          ∙ sym (find-Absent k (remove_node k q) (remove_self k q u)))
      | inr e ↦
          let apart : (crc32 j == crc32 k && bytes_eq j k) ≡ false = ground arith in
          find-remove_at (crc32 j) (crc32 k) j k (inorder t) apart
          ∙ i.agrees j
          ∙ sym (find-remove_ne k j q (sym (bytes_eq_sym j k) ∙ e))
    ]);
  }

-- ===== src/Shm/Tree/Write.antt =====
-- A write to the fields of a node, which the tree and the queue share, and a touch of the queue.
use nginx_http_sentinel_modu.Prelude.{
  ℕ, ◌≡◌, refl, sym, ◌∙◌, true, List, [], ◌∷◌, ◌++◌, Option, none, some, ap, arith, ◌==◌, ◌&&◌,
  if◌then◌else◌, All, Bytes, bytes_eq, bytes_eq→eq, Bool-cases, Option-cases, inl, inr,
}
use nginx_http_sentinel_modu.Prelude.Int.{ℤ}
use nginx_http_sentinel_modu.Shm.Zone.{Node, find_node, remove_node}
use nginx_http_sentinel_modu.Shm.Zone.Find.{Distinct, Absent, find-put, find-key, put-Distinct}
use nginx_http_sentinel_modu.Shm.Tree.{Tree, sentinel, branch, inorder}
use nginx_http_sentinel_modu.Shm.Tree.Order.{IsComparison, is_at, find_at, After, Sorted}
use nginx_http_sentinel_modu.Shm.Tree.Index.{Index}

-- A write to the node at a hash and a key; `n` is the node after it.
abbrev put_at : ℕ → Node → ℕ × Node → ℕ × Node
put_at h n e = if is_at h n.key e then (e.0, n) else e

abbrev write_all : ℕ → Node → List (ℕ × Node) → List (ℕ × Node)
write_all h n [] = []
write_all h n (e ∷ es) = put_at h n e ∷ write_all h n es

-- The tree and the queue behind such a write.
abbrev pub tree_write : ℕ → Node → Tree → Tree
tree_write h n sentinel = sentinel
tree_write h n (branch h' m l r) =
    branch h' (put_at h n (h', m)).1 (tree_write h n l) (tree_write h n r)

abbrev pub queue_write : Node → List Node → List Node
queue_write n [] = []
queue_write n (m ∷ q) = (if bytes_eq n.key m.key then n else m) ∷ queue_write n q

-- `sentinel_shm_touch`: the node of a key goes to the head.
abbrev move : Bytes → Option Node → List Node → List Node
move k none q = q
move k (some n) q = n ∷ remove_node k q

abbrev pub touch : Bytes → List Node → List Node
touch k q = move k (find_node k q) q

write_all-++ :
    (h : ℕ) (n : Node) (xs ys : List (ℕ × Node))
    → write_all h n (xs ++ ys) ≡ write_all h n xs ++ write_all h n ys
write_all-++ h n [] ys = refl
write_all-++ h n (x ∷ xs) ys = ap (λ zs. put_at h n x ∷ zs) (write_all-++ h n xs ys)

put_at-hash : (h : ℕ) (n : Node) (e : ℕ × Node) → (put_at h n e).0 ≡ e.0
put_at-hash h n e = ground arith

put_at-key : (h : ℕ) (n : Node) (e : ℕ × Node) → (put_at h n e).1.key ≡ e.1.key
put_at-key h n e = elim (Bool-cases (is_at h n.key e)) [
  | inl t ↦ rw t (bytes_eq→eq n.key e.1.key (ground arith))
  | inr t ↦ rw t refl
]

put_at-pair : (h : ℕ) (n : Node) (e : ℕ × Node) → put_at h n e ≡ (e.0, (put_at h n e).1)
put_at-pair h n e = elim (Bool-cases (is_at h n.key e)) [ inl t ↦ rw t refl | inr t ↦ rw t refl ]

inorder-tree_write :
    (h : ℕ) (n : Node) (t : Tree) → inorder (tree_write h n t) ≡ write_all h n (inorder t)
inorder-tree_write h n sentinel = refl
inorder-tree_write h n (branch h' m l r) =
    ap (λ xs. xs ++ ((h', (put_at h n (h', m)).1) ∷ inorder (tree_write h n r)))
      (inorder-tree_write h n l)
    ∙ ap (λ ys. write_all h n (inorder l) ++ ((h', (put_at h n (h', m)).1) ∷ ys))
        (inorder-tree_write h n r)
    ∙ ap (λ e. write_all h n (inorder l) ++ (e ∷ write_all h n (inorder r)))
        (sym (put_at-pair h n (h', m)))
    ∙ sym (write_all-++ h n (inorder l) ((h', m) ∷ inorder r))

-- What a search finds after a write.
abbrev written : Node → Bytes → Option Node → Option Node
written n k none = none
written n k (some m) = some (if bytes_eq n.key k then n else m)

same_key : (n m : Node) → (if bytes_eq n.key m.key then n else m).key ≡ m.key
same_key n m = elim (Bool-cases (bytes_eq n.key m.key)) [
  | inl e ↦ rw e (bytes_eq→eq n.key m.key e)
  | inr e ↦ rw e refl
]

find-queue_write :
    (n : Node) (k : Bytes) (q : List Node)
    → find_node k (queue_write n q) ≡ written n k (find_node k q)
unfolding find_node
find-queue_write n k [] = refl
find-queue_write n k (m ∷ q) = rw (same_key n m) (elim (Bool-cases (bytes_eq k m.key)) [
  | inl e ↦ rw e (ap (λ j. some (if bytes_eq n.key j then n else m)) (sym (bytes_eq→eq k m.key e)))
  | inr e ↦ rw e (find-queue_write n k q)
])

at_same :
    (crc32 : Bytes → ℕ) (n : Node) (k : Bytes) (e : ℕ × Node)
    → is_at (crc32 k) k e ≡ true
    → is_at (crc32 n.key) n.key e ≡ bytes_eq n.key k
at_same crc32 n k e t = elim (Bool-cases (bytes_eq n.key k)) [
  | inl g ↦ rw g (rw (bytes_eq→eq n.key k g) t)
  | inr g ↦ rw g (ground (arith, bytes_eq→eq k e.1.key))
]

put_at-place :
    (g h : ℕ) (k : Bytes) (n : Node) (e : ℕ × Node) → is_at g k (put_at h n e) ≡ is_at g k e
put_at-place g h k n e =
    ap (λ x. g == x && bytes_eq k (put_at h n e).1.key) (put_at-hash h n e)
    ∙ ap (λ x. g == e.0 && bytes_eq k x) (put_at-key h n e)

find-write_all :
    (crc32 : Bytes → ℕ) (n : Node) (k : Bytes) (es : List (ℕ × Node))
    → find_at (crc32 k) k (write_all (crc32 n.key) n es) ≡ written n k (find_at (crc32 k) k es)
find-write_all crc32 n k [] = refl
find-write_all crc32 n k (e ∷ es) =
    rw (put_at-place (crc32 k) (crc32 n.key) k n e) (elim (Bool-cases (is_at (crc32 k) k e)) [
      | inl t ↦ rw t (
          ap (λ b. some (if b then (e.0, n) else e).1) (at_same crc32 n k e t)
          ∙ elim (Bool-cases (bytes_eq n.key k)) [ inl g ↦ rw g refl | inr g ↦ rw g refl ])
      | inr t ↦ rw t (find-write_all crc32 n k es)
    ])

find-touch : (j k : Bytes) (q : List Node) → find_node j (touch k q) ≡ find_node j q
find-touch j k q = elim (Option-cases (find_node k q)) [
  | inl e ↦ rw e refl
  | inr (n, e) ↦
      let moved = find-put k j n q (find-key k q n e) in
      rw e (
        moved ∙ elim (Bool-cases (bytes_eq j k)) [
          | inl g ↦ rw g (sym (ap (λ x. find_node x q) (bytes_eq→eq j k g) ∙ e))
          | inr g ↦ rw g refl
        ])
]

module _ (cmp : Bytes → Bytes → ℤ) (o : IsComparison cmp) where
  write_all-After :
      (h : ℕ) (n : Node) (d : ℕ × Node) (es : List (ℕ × Node))
      → All (After cmp d) es
      → All (After cmp (put_at h n d)) (write_all h n es)
  write_all-After h n d [] a = tt
  write_all-After h n d (e ∷ es) a = (
    rw (put_at-hash h n d, put_at-key h n d, put_at-hash h n e, put_at-key h n e) a.0,
    write_all-After h n d es a.1,
  )

  write_all-Sorted :
      (h : ℕ) (n : Node) (es : List (ℕ × Node)) → Sorted cmp es → Sorted cmp (write_all h n es)
  write_all-Sorted h n [] s = tt
  write_all-Sorted h n (e ∷ es) s = (write_all-After h n e es s.0, write_all-Sorted h n es s.1)

  pub Index-write :
      (crc32 : Bytes → ℕ) (t : Tree) (q : List Node) (n : Node)
      → Index cmp o crc32 t q
      → Index cmp o crc32 (tree_write (crc32 n.key) n t) (queue_write n q)
  Index-write crc32 t q n i =
      let e = inorder-tree_write (crc32 n.key) n t in
      record {
        sorted = rw e (write_all-Sorted (crc32 n.key) n (inorder t) i.sorted);
        agrees = λ k.
            ap (find_at (crc32 k) k) e
            ∙ find-write_all crc32 n k (inorder t)
            ∙ ap (written n k) (i.agrees k)
            ∙ sym (find-queue_write n k q);
      }

  pub Index-touch :
      (crc32 : Bytes → ℕ) (t : Tree) (q : List Node) (k : Bytes)
      → Index cmp o crc32 t q
      → Index cmp o crc32 t (touch k q)
  Index-touch crc32 t q k i = record {
    sorted = i.sorted;
    agrees = λ j. i.agrees j ∙ sym (find-touch j k q);
  }

queue_write-Absent :
    (n : Node) (j : Bytes) (q : List Node) → Absent j q → Absent j (queue_write n q)
queue_write-Absent n j [] a = tt
queue_write-Absent n j (m ∷ q) a = (rw (same_key n m) a.0, queue_write-Absent n j q a.1)

pub queue_write-Distinct : (n : Node) (q : List Node) → Distinct q → Distinct (queue_write n q)
queue_write-Distinct n [] u = tt
queue_write-Distinct n (m ∷ q) u =
    (rw (same_key n m) (queue_write-Absent n m.key q u.0), queue_write-Distinct n q u.1)

pub touch-Distinct : (k : Bytes) (q : List Node) → Distinct q → Distinct (touch k q)
touch-Distinct k q u = elim (Option-cases (find_node k q)) [
  | inl e ↦ rw e u
  | inr (n, e) ↦ rw e (put-Distinct k n q (find-key k q n e) u)
]

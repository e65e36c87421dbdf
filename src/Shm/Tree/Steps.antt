-- ===== src/Shm/Tree/Steps.antt =====
-- The steps on the tree and the queue of a zone: a search of the tree by hash and key bytes stays a
-- search of the queue by key.
use nginx_http_sentinel_modu.Prelude.{ℕ, ◌≡◌, sym, ◌∙◌, List, [], ◌∷◌, none, Bytes}
use nginx_http_sentinel_modu.Prelude.Int.{ℤ}
use nginx_http_sentinel_modu.Shm.Zone.{Node, find_node, remove_node}
use nginx_http_sentinel_modu.Shm.Zone.Find.{Distinct, Absent-find, remove-Distinct}
use nginx_http_sentinel_modu.Shm.Tree.{Tree, sentinel, tree_lookup, rbtree_insert}
use nginx_http_sentinel_modu.Shm.Tree.Order.{IsComparison}
use nginx_http_sentinel_modu.Shm.Tree.Index.{
  Index, KeepsOrder, Removes, Index-empty, Index-insert, Index-remove, tree_lookup-find_node,
}
use nginx_http_sentinel_modu.Shm.Tree.Write.{
  tree_write, queue_write, touch, Index-write, Index-touch, queue_write-Distinct, touch-Distinct,
}

module _ (cmp : Bytes → Bytes → ℤ) (o : IsComparison cmp) where
  module _ (crc32 : Bytes → ℕ) (balance : Tree → Tree) (delete : ℕ → Bytes → Tree → Tree) where
    -- The tree and the queue of a zone after some steps: a new zone; a node that
    -- `sentinel_shm_create_node` puts into both after a lookup that found none; a node that leaves
    -- both; a node that `sentinel_shm_touch` moves to the head of the queue; and a write to the
    -- fields of a node in place, which leaves its key as it is.
    pub data Reach : Tree → List Node → Type 0 where
      new_zone : Reach sentinel []
      created :
          {t : Tree} {q : List Node} (n : Node)
          → tree_lookup cmp (crc32 n.key) n.key t ≡ none
          → Reach t q
          → Reach (balance (rbtree_insert cmp (crc32 n.key) n t)) (n ∷ q)
      removed :
          {t : Tree} {q : List Node} (k : Bytes)
          → Reach t q
          → Reach (delete (crc32 k) k t) (remove_node k q)
      touched : {t : Tree} {q : List Node} (k : Bytes) → Reach t q → Reach t (touch k q)
      changed :
          {t : Tree} {q : List Node} (n : Node)
          → Reach t q
          → Reach (tree_write (crc32 n.key) n t) (queue_write n q)

    Reach-Index :
        (t : Tree) (q : List Node)
        → KeepsOrder cmp o balance
        → Removes cmp o delete
        → Reach t q
        → Index cmp o crc32 t q × Distinct q
    Reach-Index _ _ b d new_zone = (Index-empty cmp o crc32, tt)
    Reach-Index _ _ b d (created {t} {q} n a r) =
        let (i, u) = Reach-Index t q b d r in
        let free = sym (tree_lookup-find_node cmp o crc32 t q n.key i) ∙ a in
        (Index-insert cmp o crc32 balance t q n b i free, (Absent-find n.key q free, u))
    Reach-Index _ _ b d (removed {t} {q} k r) =
        let (i, u) = Reach-Index t q b d r in
        (Index-remove cmp o crc32 delete t q k d i u, remove-Distinct k q u)
    Reach-Index _ _ b d (touched {t} {q} k r) =
        let (i, u) = Reach-Index t q b d r in
        (Index-touch cmp o crc32 t q k i, touch-Distinct k q u)
    Reach-Index _ _ b d (changed {t} {q} n r) =
        let (i, u) = Reach-Index t q b d r in
        (Index-write cmp o crc32 t q n i, queue_write-Distinct n q u)

    -- When nginx's rotations keep the sequence of the nodes and its deletion takes one out of it,
    -- then after any sequence of creations, removals, touches and writes in place the lookup by hash
    -- and key bytes finds in the tree exactly what a search of the queue for the key finds, also for
    -- keys of one hash, and the queue has no two nodes of one key.
    pub Reach-tree_lookup :
        (t : Tree) (q : List Node) (k : Bytes)
        → KeepsOrder cmp o balance
        → Removes cmp o delete
        → Reach t q
        → (tree_lookup cmp (crc32 k) k t ≡ find_node k q) × Distinct q
    Reach-tree_lookup t q k b d r =
        let (i, u) = Reach-Index t q b d r in (tree_lookup-find_node cmp o crc32 t q k i, u)

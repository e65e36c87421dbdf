-- ===== src/Shm/Tree/Tests.antt =====
-- The tree of a zone with two identities of one hash, under a concrete comparison and deletion.
use nginx_http_sentinel_modu.Prelude.{
  ℕ, ◌≡◌, refl, true, false, List, [], ◌∷◌, arith, ltb, if◌then◌else◌, length, Bytes, codes,
  bytes_eq,
}
use nginx_http_sentinel_modu.Prelude.Int.{ℤ, pos, negsuc, is_zero, is_neg}
use nginx_http_sentinel_modu.Shm.Zone.{Node, find_node}
use nginx_http_sentinel_modu.Shm.Zone.Find.{Distinct}
use nginx_http_sentinel_modu.Shm.Tree.{Tree, sentinel, branch, tree_lookup, rbtree_insert, inorder}
use nginx_http_sentinel_modu.Shm.Tree.Order.{IsComparison}
use nginx_http_sentinel_modu.Shm.Tree.Index.{remove_at}
use nginx_http_sentinel_modu.Shm.Tree.Write.{tree_write, queue_write, touch}
use nginx_http_sentinel_modu.Shm.Tree.Steps.{
  Reach, new_zone, created, touched, changed, Reach-tree_lookup,
}

-- The lexicographic order.
abbrev compare_bytes : Bytes → Bytes → ℤ
compare_bytes [] [] = pos 0
compare_bytes [] (b ∷ bs) = negsuc 0
compare_bytes (a ∷ cs) [] = pos 1
compare_bytes (a ∷ cs) (b ∷ bs) =
    let rest = compare_bytes cs bs in if ltb a b then negsuc 0 else if ltb b a then pos 1 else rest

compare_equal : (a b : Bytes) → is_zero (compare_bytes a b) ≡ bytes_eq a b
unfolding bytes_eq
compare_equal [] [] = refl
compare_equal [] (b ∷ bs) = refl
compare_equal (a ∷ cs) [] = refl
compare_equal (a ∷ cs) (b ∷ bs) = ground (arith, compare_equal cs bs)

compare_trans :
    (a b c : Bytes)
    → is_neg (compare_bytes a b) ≡ true
    → is_neg (compare_bytes b c) ≡ true
    → is_neg (compare_bytes a c) ≡ true
compare_trans [] [] c h g = ground arith
compare_trans [] (b ∷ bs) [] h g = ground arith
compare_trans [] (b ∷ bs) (c ∷ cs) h g = refl
compare_trans (a ∷ ds) [] c h g = ground arith
compare_trans (a ∷ ds) (b ∷ bs) [] h g = ground arith
compare_trans (a ∷ ds) (b ∷ bs) (c ∷ cs) h g = ground (arith, compare_trans ds bs cs)

compare_total :
    (a b : Bytes)
    → bytes_eq a b ≡ false
    → is_neg (compare_bytes a b) ≡ false
    → is_neg (compare_bytes b a) ≡ true
unfolding bytes_eq
compare_total [] [] h g = ground arith
compare_total [] (b ∷ bs) h g = ground arith
compare_total (a ∷ cs) [] h g = refl
compare_total (a ∷ cs) (b ∷ bs) h g = ground (arith, compare_total cs bs)

compare-IsComparison : IsComparison compare_bytes
compare-IsComparison = record {
  equal = compare_equal;
  trans = compare_trans;
  total = compare_total;
}

-- A tree of the nodes that are left.
abbrev spine : List (ℕ × Node) → Tree
spine [] = sentinel
spine (e ∷ es) = branch e.0 e.1 sentinel (spine es)

inorder-spine : (es : List (ℕ × Node)) → inorder (spine es) ≡ es
inorder-spine [] = refl
inorder-spine (e ∷ es) = rw (inorder-spine es) refl

abbrev delete : ℕ → Bytes → Tree → Tree
delete h k t = spine (remove_at h k (inorder t))

abbrev node : Bytes → Node
node k = record {
  key = k;
  blocked_until = 0;
  last_seen = 7;
  event_head = 0;
  event_count = 0;
  cs_generation = 0;
  cs_action = 0;
  redis_pulled = 0;
  events = [];
}

abbrev one : Tree
one = rbtree_insert compare_bytes 5 (node (codes "alice")) sentinel

abbrev two : Tree
two = rbtree_insert compare_bytes 5 (node (codes "carol")) one

abbrev nodes : List Node
nodes = node (codes "carol") ∷ node (codes "alice") ∷ []

abbrev Reached : Tree → List Node → Type 0
Reached = Reach compare_bytes compare-IsComparison length (λ t. t) delete

-- alice is found, touched and written to.
abbrev seen : Node
seen = record (node (codes "alice")) { last_seen = 9 }

abbrev three : Tree
three = tree_write 5 seen two

abbrev later : List Node
later = queue_write seen (touch (codes "alice") nodes)

reached : Reached three later
unfolding tree_lookup rbtree_insert
reached = changed seen (
    touched (codes "alice")
      (created (node (codes "carol")) refl (created (node (codes "alice")) refl new_zone)))

Reach-tree_lookup_example :
    (tree_lookup compare_bytes 5 (codes "alice") three ≡ find_node (codes "alice") later)
    × Distinct later
Reach-tree_lookup_example =
    Reach-tree_lookup compare_bytes compare-IsComparison length (λ t. t) delete three later
      (codes "alice") (λ t. refl) (λ h k t. inorder-spine (remove_at h k (inorder t))) reached

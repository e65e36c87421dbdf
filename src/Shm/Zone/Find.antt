-- ===== src/Shm/Zone/Find.antt =====
-- The queue as a map from keys to nodes.
use mathlib.Core.Path.{subst, ◌∙◌}
use nginx_http_sentinel_modu.Prelude.{
  ◌≡◌, refl, sym, false, List, [], ◌∷◌, none, some, arith, if◌then◌else◌, All, Bytes, bytes_eq,
  bytes_eq→eq, Bool-cases, inl, inr,
}
use nginx_http_sentinel_modu.Shm.Zone.{Node, find_node, remove_node}

-- No node of the queue has the key.
abbrev pub Absent : Bytes → List Node → Type 0
Absent k q = All (λ n. bytes_eq k n.key ≡ false) q

-- No two nodes have one key.
abbrev pub Distinct : List Node → Type 0
Distinct [] = Unit {0}
Distinct (n ∷ q) = Absent n.key q × Distinct q

pub bytes_eq_sym : (a b : Bytes) → bytes_eq a b ≡ bytes_eq b a
bytes_eq_sym a b = elim (Bool-cases (bytes_eq a b)) [
  | inl h ↦ rw (bytes_eq→eq a b h)
  | inr h ↦ elim (Bool-cases (bytes_eq b a)) [ inl g ↦ rw (bytes_eq→eq b a g) | inr g ↦ rw (h, g) ]
]

pub find-key : (k : Bytes) (q : List Node) (n : Node) → find_node k q ≡ some n → n.key ≡ k
unfolding find_node
find-key k [] n h = cc
find-key k (m ∷ q) n h = ground (arith, find-key k q n, bytes_eq→eq k m.key)

pub find-Absent : (k : Bytes) (q : List Node) → Absent k q → find_node k q ≡ none
unfolding find_node
find-Absent k [] h = refl
find-Absent k (m ∷ q) h = ground (arith, find-Absent k q h.1)

pub Absent-find : (k : Bytes) (q : List Node) → find_node k q ≡ none → Absent k q
unfolding find_node
Absent-find k [] h = tt
Absent-find k (m ∷ q) h = ground (arith, Absent-find k q)

remove-Absent : (k j : Bytes) (q : List Node) → Absent j q → Absent j (remove_node k q)
unfolding remove_node
remove-Absent k j [] h = tt
remove-Absent k j (m ∷ q) h = ground (arith, remove-Absent k j q h.1)

pub remove-Distinct : (k : Bytes) (q : List Node) → Distinct q → Distinct (remove_node k q)
unfolding remove_node
remove-Distinct k [] h = tt
remove-Distinct k (m ∷ q) h = ground (arith, remove-Distinct k q h.1, remove-Absent k m.key q h.0)

-- With distinct keys the key is gone after a removal.
pub remove_self : (k : Bytes) (q : List Node) → Distinct q → Absent k (remove_node k q)
unfolding remove_node
remove_self k [] h = tt
remove_self k (m ∷ q) h = elim (Bool-cases (bytes_eq k m.key)) [
  | inl e ↦ rw e (rw (bytes_eq→eq k m.key e) h.0)
  | inr e ↦ rw e (e, remove_self k q h.1)
]

pub find-remove_ne :
    (k j : Bytes) (q : List Node)
    → bytes_eq k j ≡ false
    → find_node j (remove_node k q) ≡ find_node j q
unfolding find_node remove_node
find-remove_ne k j [] h = refl
find-remove_ne k j (m ∷ q) h = elim (Bool-cases (bytes_eq k m.key)) [
  | inl e ↦ rw (e, ← bytes_eq→eq k m.key e, bytes_eq_sym j k, h)
  | inr e ↦ rw (e, find-remove_ne k j q h)
]

-- The queue after the node of a key has been moved to the head in a new form: other keys keep
-- their nodes.
pub find-put :
    (k j : Bytes) (n : Node) (q : List Node)
    → n.key ≡ k
    → find_node j (n ∷ remove_node k q) ≡ (if bytes_eq j k then some n else find_node j q)
unfolding find_node
find-put k j n q e = elim (Bool-cases (bytes_eq j k)) [
  | inl t ↦ rw (e, t)
  | inr t ↦ rw (e, t, find-remove_ne k j q (sym (bytes_eq_sym j k) ∙ t))
]

pub put-Distinct :
    (k : Bytes) (n : Node) (q : List Node) → n.key ≡ k → Distinct q → Distinct (n ∷ remove_node k q)
put-Distinct k n q e d = rw e (remove_self k q d, remove-Distinct k q d)

module _ {ℓ} (P : Node → Type ℓ) where
  pub remove-All : (k : Bytes) (q : List Node) → All P q → All P (remove_node k q)
  unfolding remove_node
  remove-All k [] h = tt
  remove-All k (m ∷ q) h = elim (Bool-cases (bytes_eq k m.key)) [
    | inl e ↦ rw e h.1
    | inr e ↦ rw e (h.0, remove-All k q h.1)
  ]

  pub find-All : (k : Bytes) (q : List Node) {n : Node} → All P q → find_node k q ≡ some n → P n
  unfolding find_node
  find-All k [] h e = cc
  find-All k (m ∷ q) {n} h e = elim (Bool-cases (bytes_eq k m.key)) [
    | inl t ↦ let same : m ≡ n = ground arith in subst P same h.0
    | inr t ↦ find-All k q h.1 (rw t at e)
  ]

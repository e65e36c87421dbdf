-- ===== src/Fcrdns/Match.antt =====
-- What the suffix test and the comparison of addresses accept.
use nginx_http_sentinel_modu.Prelude.{
  ℕ, zero, suc, ◌-◌, ◌≤◌, ◌≡◌, ◌⊎◌, inl, inr, refl, sym, ap, Bool, true, List, [], ◌∷◌, ◌++◌, arith,
  length, take, drop, Bytes, bytes_eq→eq, Bool-cases,
}
use nginx_http_sentinel_modu.Nginx.{SockAddr, inet, inet6, unix}
use nginx_http_sentinel_modu.Fcrdns.{ends_with, some_suffix, suffix_ok, same_addr, forward_match}

-- The client's address is one of the forward set.
abbrev pub Among : SockAddr → List SockAddr → Type 0
Among o [] = ⊥
Among o (a ∷ as') = (a ≡ o) ⊎ Among o as'

-- The end of the name is the suffix, letter case aside.
abbrev EndsWith : (Bytes → Bytes → ℕ → Bool) → Bytes → Bytes → Type 0
EndsWith same name s =
    (head tail : Bytes) × (name ≡ head ++ tail)
    × (length tail ≡ length s)
    × (same tail s (length s) ≡ true)

abbrev EndsWithOne : (Bytes → Bytes → ℕ → Bool) → Bytes → List Bytes → Type 0
EndsWithOne same name [] = ⊥
EndsWithOne same name (s ∷ ss) = EndsWith same name s ⊎ EndsWithOne same name ss

-- Every name has a suffix when none is configured.
abbrev pub HasSuffix : (Bytes → Bytes → ℕ → Bool) → Bytes → List Bytes → Type 0
HasSuffix same name [] = Unit
HasSuffix same name (s ∷ ss) = EndsWithOne same name (s ∷ ss)

take-drop : (n : ℕ) (s : Bytes) → take n s ++ drop n s ≡ s
take-drop zero s = refl
take-drop (suc n) [] = refl
take-drop (suc n) (c ∷ s) = ap (◌∷◌ c) (take-drop n s)

length-drop : (n : ℕ) (s : Bytes) → length (drop n s) ≡ length s - n
length-drop zero s = omega arith
length-drop (suc n) [] = omega arith
length-drop (suc n) (c ∷ s) = omega (arith, length-drop n s)

ends_with-EndsWith :
    (same : Bytes → Bytes → ℕ → Bool) (name s : Bytes)
    → ends_with same name s ≡ true
    → EndsWith same name s
unfolding ends_with
ends_with-EndsWith same name s h =
    let n = length name - length s in
    let fits : length s ≤ length name = ground arith in
    let len = length-drop n name in
    (take n name, drop n name, sym (take-drop n name), omega (arith, fits, len), ground arith)

some_suffix-EndsWithOne :
    (same : Bytes → Bytes → ℕ → Bool) (name : Bytes) (ss : List Bytes)
    → some_suffix same name ss ≡ true
    → EndsWithOne same name ss
unfolding some_suffix
some_suffix-EndsWithOne same name [] h = cc
some_suffix-EndsWithOne same name (s ∷ ss) h = elim (Bool-cases (ends_with same name s)) [
  | inl e ↦ inl (ends_with-EndsWith same name s e)
  | inr e ↦ inr (some_suffix-EndsWithOne same name ss (rw e at h))
]

pub suffix_ok-HasSuffix :
    (same : Bytes → Bytes → ℕ → Bool) (name : Bytes) (ss : List Bytes)
    → suffix_ok same ss name ≡ true
    → HasSuffix same name ss
unfolding suffix_ok
suffix_ok-HasSuffix same name [] h = tt
suffix_ok-HasSuffix same name (s ∷ ss) h = some_suffix-EndsWithOne same name (s ∷ ss) h

same_addr→eq : (a o : SockAddr) → same_addr a o ≡ true → a ≡ o
unfolding same_addr
same_addr→eq (inet a) (inet o) h = ap inet (bytes_eq→eq a o h)
same_addr→eq (inet a) (inet6 o) h = cc
same_addr→eq (inet a) unix h = cc
same_addr→eq (inet6 a) (inet o) h = cc
same_addr→eq (inet6 a) (inet6 o) h = ap inet6 (bytes_eq→eq a o h)
same_addr→eq (inet6 a) unix h = cc
same_addr→eq unix o h = cc

pub forward_match-Among :
    (o : SockAddr) (as' : List SockAddr) → forward_match o as' ≡ true → Among o as'
unfolding forward_match
forward_match-Among o [] h = cc
forward_match-Among o (a ∷ as') h = elim (Bool-cases (same_addr a o)) [
  | inl e ↦ inl (same_addr→eq a o e)
  | inr e ↦ inr (forward_match-Among o as' (rw e at h))
]

-- ===== src/Signal/Agent/Substring.antt =====
-- What ua_contains decides.
use nginx_http_sentinel_modu.Prelude.{
  ℕ, ◌<◌, ◌≡◌, ◌↔◌, ap, true, [], ◌∷◌, ◌++◌, arith, length, length-append, Bytes, strncmp_eq,
  Bool-cases, inl, inr, drop,
}
use nginx_http_sentinel_modu.Prelude.Prefix.{NoNul, strncmp_prefix, prefix_strncmp}
use nginx_http_sentinel_modu.Signal.Agent.{head_eq, find_from, ua_contains}

-- `sub` stands somewhere in `ua`.
abbrev pub Occurs : Bytes → Bytes → Type 0
Occurs ua sub = (pre : Bytes) × (post : Bytes) × (ua ≡ pre ++ (sub ++ post))

head_prefix : (b : ℕ) (t s : Bytes) → head_eq ((b ∷ t) ++ s) (b ∷ t) ≡ true
head_prefix b t s = ground arith

find_from-Occurs : (ua sub : Bytes) → NoNul sub → find_from ua sub ≡ true → Occurs ua sub
unfolding find_from
find_from-Occurs [] sub n h = ground arith
find_from-Occurs (x ∷ ua) sub n h = elim (Bool-cases (strncmp_eq (x ∷ ua) sub (length sub))) [
  | inl e ↦ ([], drop (length sub) (x ∷ ua), strncmp_prefix (x ∷ ua) sub n e)
  | inr e ↦
      let later : find_from ua sub ≡ true = ground arith in
      let (pre, post, same) = find_from-Occurs ua sub n later in (x ∷ pre, post, ap (◌∷◌ x) same)
]

Occurs-find_from :
    (pre : Bytes) (b : ℕ) (t post : Bytes) → find_from (pre ++ ((b ∷ t) ++ post)) (b ∷ t) ≡ true
unfolding find_from
Occurs-find_from [] b t post = ground (arith, prefix_strncmp (b ∷ t) post, length-append t post)
Occurs-find_from (x ∷ pre) b t post = ground (
  arith,
  Occurs-find_from pre b t post,
  length-append pre ((b ∷ t) ++ post),
  length-append (b ∷ t) post,
)

-- For a pattern that is not empty and has no NUL byte, ua_contains tells whether the pattern
-- stands somewhere in the string.
pub ua_contains_iff :
    (ua sub : Bytes) → NoNul sub → 0 < length sub → (ua_contains ua sub ≡ true) ↔ Occurs ua sub
unfolding ua_contains
ua_contains_iff ua [] n l = absurd (omega arith)
ua_contains_iff ua (b ∷ t) n l =
    ((λ h. find_from-Occurs ua (b ∷ t) n (found h)), (λ (pre, post, e). rw e (found_back pre post)))
  where
    found : ua_contains ua (b ∷ t) ≡ true → find_from ua (b ∷ t) ≡ true
    found h = ground arith

    found_back : (pre post : Bytes) → ua_contains (pre ++ ((b ∷ t) ++ post)) (b ∷ t) ≡ true
    found_back pre post = ground (
      arith,
      Occurs-find_from pre b t post,
      length-append pre ((b ∷ t) ++ post),
      length-append (b ∷ t) post,
    )

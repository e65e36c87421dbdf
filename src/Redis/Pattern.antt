-- ===== src/Redis/Pattern.antt =====
-- The pattern of the SCAN command in its fixed buffer.
use mathlib.Core.List.{append_assoc}
use nginx_http_sentinel_modu.Prelude.{
  ℕ, zero, suc, ◌+◌, ◌≤◌, ◌<◌, ◌≡◌, inl, inr, refl, sym, ap, [], ◌∷◌, ◌++◌, none, some, arith, ltb,
  if◌then◌else◌, length, length-append, take, All-append, Bytes, codes, Bool-cases,
}
use nginx_http_sentinel_modu.Prelude.Prefix.{NoNul}
use nginx_http_sentinel_modu.Redis.Pull.{c_string, match_pattern}

c_string-some : (s : Bytes) → NoNul s → c_string (s ++ (0 ∷ [])) ≡ some s
unfolding c_string
c_string-some [] h = refl
c_string-some (c ∷ s) h = rw (h.0, c_string-some s h.1) refl

c_string-none : (s : Bytes) → NoNul s → c_string s ≡ none
unfolding c_string
c_string-none [] h = refl
c_string-none (c ∷ s) h = rw (h.0, c_string-none s h.1) refl

take-snoc_long : (n : ℕ) (s t : Bytes) → n ≤ length s → take n (s ++ t) ≡ take n s
take-snoc_long zero s t h = refl
take-snoc_long (suc n) [] t h = absurd (omega arith)
take-snoc_long (suc n) (c ∷ s) t h = ap (◌∷◌ c) (take-snoc_long n s t (omega arith))

take-snoc_short : (n : ℕ) (s : Bytes) → length s < n → take n (s ++ (0 ∷ [])) ≡ s ++ (0 ∷ [])
take-snoc_short zero s h = absurd (omega arith)
take-snoc_short (suc zero) [] h = refl
take-snoc_short (suc (suc n)) [] h = refl
take-snoc_short (suc n) (c ∷ s) h = ap (◌∷◌ c) (take-snoc_short n s (omega arith))

take-NoNul : (n : ℕ) (s : Bytes) → NoNul s → NoNul (take n s)
take-NoNul zero s h = tt
take-NoNul (suc n) [] h = tt
take-NoNul (suc n) (c ∷ s) h = (h.0, take-NoNul n s h.1)

-- For a prefix without a NUL, the pattern is a C string, the one meant, when the prefix leaves
-- seven bytes of the buffer; for a longer prefix the buffer has no NUL, and the call that reads
-- the pattern runs past it.
pub match_pattern_lem :
    (strlen : ℕ) (prefix : Bytes)
    → NoNul prefix
    → match_pattern strlen prefix
      ≡ (if ltb (length prefix + 6) (strlen + 64) then some (prefix ++ codes ":ban:*") else none)
unfolding match_pattern
match_pattern_lem strlen prefix h =
    let whole = prefix ++ codes ":ban:*" in
    let len = length-append prefix (codes ":ban:*") in
    let clean : NoNul whole =
      All-append _ prefix (codes ":ban:*") h (refl, (refl, (refl, (refl, (refl, (refl, tt)))))) in
    rw (sym (append_assoc prefix (codes ":ban:*") (0 ∷ [])))
      (elim (Bool-cases (ltb (length prefix + 6) (strlen + 64))) [
        | inl e ↦
            rw (e, take-snoc_short (strlen + 64) whole (ground (arith, len)))
              (c_string-some whole clean)
        | inr e ↦
            rw (e, take-snoc_long (strlen + 64) whole (0 ∷ []) (ground (arith, len)))
              (c_string-none (take (strlen + 64) whole) (take-NoNul (strlen + 64) whole clean))
      ])

-- ===== src/Prelude/Prefix.antt =====
-- `strncmp` against a string without a NUL is the test for a prefix.
use mathlib.Core.Path.{◌≡◌, refl}
use mathlib.Core.Bool.{true, false}
use mathlib.Core.List.{[], ◌∷◌, ◌++◌}
use mathlib.Core.Logic.{inl, inr}
use native.Mathlib.Omega.{arith}
use nginx_http_sentinel_modu.Prelude.Tests.{◌==◌, ==_iff, Bool-cases}
use nginx_http_sentinel_modu.Prelude.Lists.{All, length, drop}
use nginx_http_sentinel_modu.Prelude.Strings.{Bytes, strncmp_eq}

-- A string without a NUL byte.
abbrev pub NoNul : Bytes → Type 0
NoNul = All (λ b. (b == 0) ≡ false)

pub strncmp_prefix :
    (s t : Bytes) → NoNul t → strncmp_eq s t (length t) ≡ true → s ≡ t ++ drop (length t) s
unfolding strncmp_eq
strncmp_prefix s [] n h = refl
strncmp_prefix [] (b ∷ t) n h = ground arith
strncmp_prefix (a ∷ s) (b ∷ t) n h = elim (Bool-cases (a == b)) [
  | inl e ↦
      let same : a ≡ b = (==_iff a b).0 e in
      let rest = strncmp_prefix s t n.1 in ground (arith, rest, n.0)
  | inr e ↦ ground arith
]

pub prefix_strncmp : (t s : Bytes) → strncmp_eq (t ++ s) t (length t) ≡ true
unfolding strncmp_eq
prefix_strncmp [] s = refl
prefix_strncmp (b ∷ t) s = ground (arith, prefix_strncmp t s)

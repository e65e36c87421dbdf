-- ===== src/Signal/Lists/Denied.antt =====
-- What the list signals decide.
use nginx_http_sentinel_modu.Prelude.{
  ◌≡◌, ◌↔◌, refl, ap, Bool, true, List, [], ◌∷◌, ◌++◌, some, arith, All, any, length, length-append,
  Bytes, Bool-cases, inl, inr, drop,
}
use nginx_http_sentinel_modu.Prelude.Prefix.{NoNul, strncmp_prefix, prefix_strncmp}
use nginx_http_sentinel_modu.Nginx.{Request}
use nginx_http_sentinel_modu.Score.{Inputs}
use nginx_http_sentinel_modu.Signal.Config.{LocConf}
use nginx_http_sentinel_modu.Signal.Lists.{on_decoy, honeypot_signal}

-- An element of the list that passes the test.
abbrev pub Passes {ℓ} : (A : Type ℓ) → (A → Bool) → List A → Type ℓ
Passes A p xs = (pre : List A) × (x : A) × (post : List A) × (xs ≡ pre ++ (x ∷ post)) × (p x ≡ true)

any-Passes {ℓ} : {A : Type ℓ} (p : A → Bool) (xs : List A) → any p xs ≡ true → Passes A p xs
any-Passes p [] h = absurd (ground arith)
any-Passes p (x ∷ xs) h = elim (Bool-cases (p x)) [
  | inl e ↦ ([], x, xs, refl, e)
  | inr e ↦
      let (pre, y, post, same, t) = any-Passes p xs (rw e at h) in
      (x ∷ pre, y, post, ap (◌∷◌ x) same, t)
]

any_passes {ℓ} :
    {A : Type ℓ} (p : A → Bool) (pre : List A) (x : A) (post : List A)
    → p x ≡ true
    → any p (pre ++ (x ∷ post)) ≡ true
any_passes p [] x post h = rw h refl
any_passes p (y ∷ pre) x post h = elim (Bool-cases (p y)) [
  | inl e ↦ rw e refl
  | inr e ↦ rw e (any_passes p pre x post h)
]

-- Whether a path begins with a decoy path.
abbrev Below : Bytes → Bytes → Type 0
Below uri decoy = (rest : Bytes) × (uri ≡ decoy ++ rest)

on_decoy-Below : (uri decoy : Bytes) → NoNul decoy → on_decoy uri decoy ≡ true → Below uri decoy
unfolding on_decoy
on_decoy-Below uri decoy n h = (drop (length decoy) uri, strncmp_prefix uri decoy n (ground arith))

Below-on_decoy : (decoy rest : Bytes) → on_decoy (decoy ++ rest) decoy ≡ true
unfolding on_decoy
Below-on_decoy decoy rest = ground (arith, prefix_strncmp decoy rest, length-append decoy rest)

All-at {ℓ κ} :
    {A : Type ℓ} (P : A → Type κ) (pre : List A) (x : A) (post : List A)
    → All P (pre ++ (x ∷ post))
    → P x
All-at P [] x post h = h.0
All-at P (y ∷ pre) x post h = All-at P pre x post h.1

-- With decoy paths that have no NUL byte, the honeypot flag is set exactly when the request's path
-- begins with one of them, whatever the flag was.
honeypot_iff :
    (r : Request) (lcf : LocConf) (i : Inputs)
    → All NoNul lcf.decoy_paths
    → ((honeypot_signal (some r) (some lcf) i).honeypot ≡ true) ↔ (
        (pre : List Bytes) × (decoy : Bytes) × (post : List Bytes) × (lcf.decoy_paths
          ≡ pre ++ (decoy ∷ post))
        × Below r.uri decoy)
unfolding honeypot_signal
honeypot_iff r lcf i n = (
  (λ h.
      let (pre, d, post, same, t) = any-Passes (on_decoy r.uri) lcf.decoy_paths h in
      (pre, d, post, same, on_decoy-Below r.uri d (All-at NoNul pre d post (rw same at n)) t)),
  (λ (pre, d, post, same, below).
      rw same (any_passes (on_decoy r.uri) pre d post (rw (below.1) (Below-on_decoy d (below.0))))),
)

-- ===== src/Pow/Gate.antt =====
-- sentinel_pow.c: whom the dispatch lets past.
use nginx_http_sentinel_modu.Prelude.{
  ℕ, ◌<◌, ◌≡◌, ◌≢◌, refl, Bool, true, false, not, ◌++◌, Option, none, some, arith, ◌==◌, ◌||◌,
  length, Bytes, Bool-cases, inl, inr, ◌⊎◌,
}
use nginx_http_sentinel_modu.Nginx.{Rc, ok, error, done, declined, Request}
use nginx_http_sentinel_modu.Pow.{
  PowLib, PowConf, pow_challenge, meets_difficulty, check_cookie, get_nonce, answer_nonce,
  with_challenge, behind_cookie, pow_dispatch,
}

-- A nonce whose digest with the challenge has enough leading zero bits.
abbrev pub Solved : PowLib → PowConf → Request → ℕ → Type 0
Solved lib conf r now =
    (chal : Bytes) × (nonce : Bytes) × (pow_challenge lib conf r now ≡ some chal)
    × (get_nonce lib r ≡ some nonce)
    × (meets_difficulty (lib.sha256 (chal ++ nonce)) conf.difficulty ≡ true)

-- What lets a request past: a cookie or a solution, or that the page could not be allocated.
abbrev pub Past : PowLib → PowConf → Request → ℕ → Bool → Rc → Type 0
Past lib conf r now page rc =
    ((rc ≡ declined) × ((check_cookie lib conf r now ≡ ok) ⊎ Solved lib conf r now))
    ⊎ ((rc ≡ error) × (page ≡ false))

answer_nonce-Past :
    (lib : PowLib) (conf : PowConf) (r : Request) (now : ℕ) (alloc page : Bool) (chal : Bytes)
    (o : Option Bytes)
    → pow_challenge lib conf r now ≡ some chal
    → get_nonce lib r ≡ o
    → (answer_nonce lib conf r now alloc page chal o).rc ≢ done
    → Past lib conf r now page (answer_nonce lib conf r now alloc page chal o).rc
unfolding answer_nonce
answer_nonce-Past lib conf r now alloc true chal none e n h = absurd (h refl)
answer_nonce-Past lib conf r now alloc false chal none e n h = inr (refl, refl)
answer_nonce-Past lib conf r now alloc page chal (some x) e n h =
    elim (Bool-cases (meets_difficulty (lib.sha256 (chal ++ x)) conf.difficulty)) [
      | inl m ↦ rw m (inl (refl, inr (chal, x, e, n, m)))
      | inr m ↦ elim (Bool-cases page) [
        | inl p ↦ absurd (h (rw (m, p) refl))
        | inr p ↦ rw (m, p) (inr (refl, refl))
      ]
    ]

with_challenge-Past :
    (lib : PowLib) (conf : PowConf) (r : Request) (now : ℕ) (alloc page : Bool) (o : Option Bytes)
    → pow_challenge lib conf r now ≡ o
    → o ≢ none
    → (with_challenge lib conf r now alloc page o).rc ≢ done
    → Past lib conf r now page (with_challenge lib conf r now alloc page o).rc
unfolding with_challenge
with_challenge-Past lib conf r now alloc page none e c h = absurd (c refl)
with_challenge-Past lib conf r now alloc page (some chal) e c h =
    answer_nonce-Past lib conf r now alloc page chal (get_nonce lib r) e refl h

behind_cookie-Past :
    (lib : PowLib) (conf : PowConf) (r : Request) (now : ℕ) (alloc page : Bool) (rc : Rc)
    → check_cookie lib conf r now ≡ rc
    → pow_challenge lib conf r now ≢ none
    → (behind_cookie lib conf r now alloc page rc).rc ≢ done
    → Past lib conf r now page (behind_cookie lib conf r now alloc page rc).rc
unfolding behind_cookie
behind_cookie-Past lib conf r now alloc page rc e c h =
    elim rc
        as (λ x.
          check_cookie lib conf r now ≡ x
          → (behind_cookie lib conf r now alloc page x).rc ≢ done
          → Past lib conf r now page (behind_cookie lib conf r now alloc page x).rc) [
            | ok ↦ λ k g. inl (refl, inl k)
            | _ ↦ λ k g.
                with_challenge-Past lib conf r now alloc page (pow_challenge lib conf r now) refl c
                  g
          ]
      e h

-- With the challenge on and a secret set, a request for which a challenge can be computed and that
-- is not answered with NGX_DONE comes with a cookie that passes the check or with a solved
-- challenge, and the dispatch declines; or the buffer of the challenge page cannot be allocated, and
-- the dispatch returns NGX_ERROR.
pub pow_dispatch_closed :
    (lib : PowLib) (conf : PowConf) (r : Request) (now : ℕ) (alloc page : Bool)
    → conf.enabled ≡ true
    → 0 < length conf.secret
    → pow_challenge lib conf r now ≢ none
    → (pow_dispatch lib conf r now alloc page).rc ≢ done
    → Past lib conf r now page (pow_dispatch lib conf r now alloc page).rc
unfolding pow_dispatch
pow_dispatch_closed lib conf r now alloc page on s c h =
    let test : (not conf.enabled || length conf.secret == 0) ≡ false = ground arith in
    rw test (
      behind_cookie-Past lib conf r now alloc page (check_cookie lib conf r now) refl c
        (rw test at h))

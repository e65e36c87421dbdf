-- ===== src/Feed/Load/Gates.antt =====
-- What one tick of the loader may change.
use nginx_http_sentinel_modu.Prelude.{
  ℕ, ◌+◌, ◌≤◌, ◌<◌, ◌≡◌, ◌≢◌, ◌⊎◌, inl, inr, refl, sym, ap, ◌∙◌, Bool, false, Option, none, some,
  arith, ltb, ◌==◌, ==_iff, ◌&&◌, not, length, Bytes, Bool-cases,
}
use nginx_http_sentinel_modu.Nginx.{Rc, ok, error, again, busy, done, declined, status}
use nginx_http_sentinel_modu.Shm.Zone.{Zone}
use nginx_http_sentinel_modu.Feed.Decide.{FeedLib}
use nginx_http_sentinel_modu.Feed.Parse.{feed_parse}
use nginx_http_sentinel_modu.Feed.Parse.Correct.{rejected_keeps}
use nginx_http_sentinel_modu.Feed.Load.{
  FeedTimer, FeedConf, FileWorld, Loaded, advance, parse_read, load_file, load_stat, feed_do_load,
}

Rc-cases : (rc : Rc) → (rc ≡ ok) ⊎ (rc ≢ ok)
Rc-cases ok = inl refl
Rc-cases error = inr (λ h. cc)
Rc-cases again = inr (λ h. cc)
Rc-cases busy = inr (λ h. cc)
Rc-cases done = inr (λ h. cc)
Rc-cases declined = inr (λ h. cc)
Rc-cases (status n) = inr (λ h. cc)

newer : (mtime last : ℕ) → (not (last == 0) && mtime == last) ≡ false → (last ≡ 0) ⊎ (mtime ≢ last)
newer mtime last h = elim (Bool-cases (last == 0)) [
  | inl e ↦ inl ((==_iff last 0).0 e)
  | inr e ↦ inr (λ x. absurd (ground arith))
]

module _ (lib : FeedLib) (fits : ℕ → Bool) (conf : FeedConf) (w : FileWorld) (now : ℕ) where
  -- The table and the mtime are as before.
  abbrev pub Kept : FeedTimer → Zone → Loaded → Type 0
  Kept t z out = (out.1 ≡ some z) × (out.0.last_mtime ≡ t.last_mtime)

  -- A feed was read in full and applied.
  abbrev pub Applied : ℕ → ℕ → Zone → Loaded → Type 0
  Applied mtime fsize z out =
      (bytes : Bytes) × (w.read ≡ some bytes)
      × (fsize ≤ length bytes)
      × (feed_parse lib fits (some z) bytes conf.default_ttl now ≡ (ok, out.1))
      × (out.0.last_mtime ≡ mtime)

  parse_bytes-lem :
      (mtime fsize : ℕ) (bytes : Bytes) (t : FeedTimer) (z : Zone)
      → w.read ≡ some bytes
      → let out = parse_read lib fits conf w now mtime fsize (some bytes) t (some z) in
        Kept t z out ⊎ Applied mtime fsize z out
  unfolding parse_read
  parse_bytes-lem mtime fsize bytes t z e =
      let parsed = feed_parse lib fits (some z) bytes conf.default_ttl now in
      elim (Bool-cases (ltb (length bytes) fsize)) [
        | inl s ↦ rw s (inl (refl, refl))
        | inr s ↦ rw s (elim (Rc-cases (parsed.0)) [
          | inl k ↦ inr (
            bytes,
            e,
            ground arith,
            ap (λ rc. (rc, parsed.1)) k,
            ap (λ rc. (advance t mtime rc).last_mtime) k,
          )
          | inr k ↦
              let same = rejected_keeps lib fits z bytes conf.default_ttl now k in
              inl (ap (λ p. p.1) same, ap (λ p. (advance t mtime (p.0)).last_mtime) same)
        ])
      ]

  parse_read-lem :
      (mtime fsize : ℕ) (o : Option Bytes) (t : FeedTimer) (z : Zone)
      → w.read ≡ o
      → let out = parse_read lib fits conf w now mtime fsize o t (some z) in
        Kept t z out ⊎ Applied mtime fsize z out
  unfolding parse_read
  parse_read-lem mtime fsize none t z e = inl (refl, refl)
  parse_read-lem mtime fsize (some bytes) t z e = parse_bytes-lem mtime fsize bytes t z e

  -- The gates that a feed has passed.
  abbrev pub Passed : ℕ → ℕ → FeedTimer → Type 0
  Passed mtime fsize t =
      (now ≤ mtime + conf.stale_after)
      × ((t.last_mtime ≡ 0) ⊎ (mtime ≢ t.last_mtime))
      × (0 < fsize)
      × (fsize ≤ conf.max_bytes)

  load_file-lem :
      (mtime fsize : ℕ) (t : FeedTimer) (z : Zone)
      → let out = load_file lib fits conf w now mtime fsize t (some z) in
        Kept t z out ⊎ (Passed mtime fsize t × Applied mtime fsize z out)
  unfolding load_file
  load_file-lem mtime fsize t z =
      let t' : FeedTimer = record t { stale_logged = false } in
      let rest = parse_read-lem mtime fsize w.read t' z refl in
      elim (Bool-cases (ltb (mtime + conf.stale_after) now)) [
        | inl a ↦ rw a (inl (refl, refl))
        | inr a ↦ elim (Bool-cases (not (t.last_mtime == 0) && mtime == t.last_mtime)) [
          | inl b ↦ rw (a, b) (inl (refl, refl))
          | inr b ↦ elim (Bool-cases (fsize == 0)) [
            | inl c ↦ rw (a, b, c) (inl (refl, refl))
            | inr c ↦ elim (Bool-cases (ltb conf.max_bytes fsize)) [
              | inl d ↦ rw (a, b, c, d) (inl (refl, refl))
              | inr d ↦ elim (Bool-cases (w.pool && w.opened && w.buffer)) [
                | inr e ↦ rw (a, b, c, d, e) (inl (refl, refl))
                | inl e ↦
                    rw (a, b, c, d, e)
                      (elim rest [
                        | inl k ↦ inl k
                        | inr k ↦ inr (
                          (ground arith, newer mtime t.last_mtime b, ground arith, ground arith),
                          k,
                        )
                      ])
              ]
            ]
          ]
        ]
      ]

  load_stat-lem :
      (o : Option (ℕ × ℕ)) (t : FeedTimer) (z : Zone)
      → w.stat ≡ o
      → let out = load_stat lib fits conf w now o t (some z) in
        Kept t z out
        ⊎ ((mtime fsize : ℕ) × (w.stat ≡ some (mtime, fsize))
            × Passed mtime fsize t
            × Applied mtime fsize z out)
  unfolding load_stat
  load_stat-lem none t z e = inl (refl, refl)
  load_stat-lem (some (mtime, fsize)) t z e =
      elim (load_file-lem mtime fsize (record t { missing_logged = false }) z) [
        | inl k ↦ inl k
        | inr (p, a) ↦ inr (mtime, fsize, e, p, a)
      ]

same_mtime : (a b c d : ℕ) (o : Option (ℕ × ℕ)) → o ≡ some (a, b) → o ≡ some (c, d) → a ≡ c
same_mtime a b c d none e g = cc
same_mtime a b c d (some p) e g = ap (λ q. q.0) (some_inj _ _ (sym e ∙ g))
  where
    some_inj : (x y : ℕ × ℕ) → some x ≡ some y → x ≡ y
    some_inj x y h = cc

-- A tick of the loader leaves the table and its mtime as they were, or it has read in full and
-- applied a feed that is not older than the bound, not empty, not over the size limit and not the
-- one loaded last; only then the mtime advances, to that of the file.
pub load_gates :
    (lib : FeedLib) (fits : ℕ → Bool) (conf : FeedConf) (w : FileWorld) (now : ℕ) (t : FeedTimer)
    (z : Zone)
    → let out = feed_do_load lib fits conf w now t (some z) in
      Kept lib fits conf w now t z out
      ⊎ ((mtime fsize : ℕ) × (w.stat ≡ some (mtime, fsize))
          × Passed lib fits conf w now mtime fsize t
          × Applied lib fits conf w now mtime fsize z out)
unfolding feed_do_load
load_gates lib fits conf w now t z = elim (Bool-cases (length conf.feed == 0)) [
  | inl e ↦ rw e (inl (refl, refl))
  | inr e ↦ rw e (load_stat-lem lib fits conf w now w.stat t z refl)
]

-- A tick that finds the file whose mtime, not zero, was loaded last does not touch the table,
-- whatever the file holds by now.
load_idle :
    (lib : FeedLib) (fits : ℕ → Bool) (conf : FeedConf) (w : FileWorld) (now : ℕ) (t : FeedTimer)
    (z : Zone) (fsize : ℕ)
    → t.last_mtime ≢ 0
    → w.stat ≡ some (t.last_mtime, fsize)
    → let out = feed_do_load lib fits conf w now t (some z) in
      (out.1 ≡ some z) × (out.0.last_mtime ≡ t.last_mtime)
load_idle lib fits conf w now t z fsize n s = elim (load_gates lib fits conf w now t z) [
  | inl k ↦ k
  | inr (mtime, size, e, p, a) ↦ absurd (elim p.1 [
    | inl zero_mtime ↦ n zero_mtime
    | inr other ↦ other (same_mtime mtime size (t.last_mtime) fsize w.stat e s)
  ])
]

-- ===== src/Feed/Parse/Accept.antt =====
-- What an accepted feed is, and what the table holds after it.
use nginx_http_sentinel_modu.Prelude.{
  Bool, ℕ, ◌+◌, ◌*◌, ◌≤◌, ◌≡◌, refl, ap, ◌∙◌, true, false, List, [], ◌∷◌, ◌++◌, Option, none, some,
  arith, ◌==◌, ==_iff, All, Bytes, Bool-cases, Option-cases, inl, inr, drop, strncmp_eq,
}
use nginx_http_sentinel_modu.Nginx.{Rc, ok, error, declined}
use nginx_http_sentinel_modu.Shm.Zone.{Zone, find_node}
use nginx_http_sentinel_modu.Shm.Zone.Find.{Distinct}
use nginx_http_sentinel_modu.Shm.Crowdsec.Sweep.{marked}
use nginx_http_sentinel_modu.Feed.Lines.{Line, split_lines, line_bytes, find_trailer, eof_mark}
use nginx_http_sentinel_modu.Feed.Trailer.{
  space, split_space, hex_loop, check_crc, is_empty, check_count, check_split, check_trailer,
}
use nginx_http_sentinel_modu.Feed.Decide.{FeedLib, strip_cr}
use nginx_http_sentinel_modu.Feed.Parse.{
  open_feed, too_malformed, malformed_denom, next_generation, count_lines, apply_feed, accept_body,
  check_body, check_lines, validate, feed_parse,
}
use nginx_http_sentinel_modu.Feed.Parse.Apply.{entry_of, plan}
use nginx_http_sentinel_modu.Feed.Parse.Correct.{apply_feed-plan}

-- A trailer with the number of decisions and the checksum.
pub record Sealed (atoi : Bytes → Option ℕ) (t : Bytes) (count crc : ℕ) : Type 0 where
  pub digits : Bytes
  pub hex : Bytes
  pub form : drop 6 t ≡ digits ++ (space ∷ hex)
  pub count_field : atoi digits ≡ some count
  pub crc_field : hex_loop 0 hex ≡ some crc

split_space_join : (v a b : Bytes) → split_space v ≡ some (a, b) → v ≡ a ++ (space ∷ b)
unfolding split_space
split_space_join [] a b h = cc
split_space_join (c ∷ cs) a b h = elim (Bool-cases (c == space)) [
  | inl e ↦ ground (arith, (==_iff c space).0 e)
  | inr e ↦ elim (Option-cases (split_space cs)) [
    | inl n ↦ ground arith
    | inr ((a', b'), s) ↦ ground (arith, split_space_join cs a' b' s)
  ]
]

check_crc-ok : (hex : Bytes) (crc : ℕ) → check_crc hex crc ≡ ok → hex_loop 0 hex ≡ some crc
unfolding check_crc
check_crc-ok [] crc h = absurd (ground arith)
check_crc-ok (c ∷ cs) crc h = elim (Option-cases (hex_loop 0 (c ∷ cs))) [
  | inl e ↦ absurd (ground arith)
  | inr (v, e) ↦ elim (Bool-cases (v == crc)) [
    | inl g ↦ e ∙ ap some ((==_iff v crc).0 g)
    | inr g ↦ absurd (ground arith)
  ]
]

check_split-Sealed :
    (atoi : Bytes → Option ℕ) (t : Bytes) (count crc : ℕ) (o : Option (Bytes × Bytes))
    → split_space (drop 6 t) ≡ o
    → check_split atoi count crc o ≡ ok
    → Sealed atoi t count crc
unfolding check_split check_count
check_split-Sealed atoi t count crc none e h = absurd (ground arith)
check_split-Sealed atoi t count crc (some (digits, hex)) e h = elim (Bool-cases (is_empty digits)) [
  | inl z ↦ absurd (ground arith)
  | inr z ↦ elim (Option-cases (atoi digits)) [
    | inl n ↦ absurd (ground arith)
    | inr (n, g) ↦ elim (Bool-cases (n == count)) [
      | inl q ↦ record {
        digits = digits;
        hex = hex;
        form = split_space_join (drop 6 t) digits hex e;
        count_field = g ∙ ap some ((==_iff n count).0 q);
        crc_field = check_crc-ok hex crc (ground arith);
      }
      | inr q ↦ absurd (ground arith)
    ]
  ]
]

check_trailer-Sealed :
    (atoi : Bytes → Option ℕ) (t : Bytes) (count crc : ℕ)
    → check_trailer atoi t count crc ≡ ok
    → Sealed atoi t count crc
unfolding check_trailer
check_trailer-Sealed atoi t count crc h = elim (Bool-cases (strncmp_eq t eof_mark 6)) [
  | inl e ↦ check_split-Sealed atoi t count crc (split_space (drop 6 t)) refl (ground arith)
  | inr e ↦ absurd (ground arith)
]

module _ (lib : FeedLib) where
  open lib use {atoi, crc32}

  -- A buffer that begins with the header line, whose body ends in a trailer that counts the
  -- body's decisions and seals its bytes, and of whose lines at most a quarter is malformed.
  pub record Accepted (bytes : Bytes) (body : List Line) : Type 0 where
    pub lines : List Line
    pub trailer : Bytes
    pub header : open_feed (split_lines bytes) ≡ some lines
    pub cut : find_trailer lines ≡ some (body, trailer)
    pub seal : Sealed atoi (strip_cr trailer) (count_lines lib body).0 (crc32 (line_bytes body))
    pub sane :
        (count_lines lib body).1 * malformed_denom
        ≤ (count_lines lib body).0 + (count_lines lib body).1

  accept_body-facts :
      (body b : List Line) (count malformed : ℕ) (rc : Rc)
      → accept_body lib body (count, malformed) rc ≡ some b
      → (b ≡ body) × (rc ≡ ok) × (malformed * malformed_denom ≤ count + malformed)
  unfolding accept_body too_malformed
  accept_body-facts body b count malformed ok h = (ground arith, refl, ground arith)
  accept_body-facts body b count malformed error h = absurd (ground arith)
  accept_body-facts body b count malformed Rc.again h = absurd (ground arith)
  accept_body-facts body b count malformed Rc.busy h = absurd (ground arith)
  accept_body-facts body b count malformed Rc.done h = absurd (ground arith)
  accept_body-facts body b count malformed declined h = absurd (ground arith)
  accept_body-facts body b count malformed (Rc.status n) h = absurd (ground arith)

  check_body-Accepted :
      (bytes : Bytes) (ls b : List Line) (o : Option (List Line × Bytes))
      → open_feed (split_lines bytes) ≡ some ls
      → find_trailer ls ≡ o
      → check_body lib o ≡ some b
      → Accepted bytes b
  unfolding check_body
  check_body-Accepted bytes ls b none h c v = absurd (ground arith)
  check_body-Accepted bytes ls b (some (body, trailer)) h c v =
      let (same, t, few) =
        accept_body-facts body b (count_lines lib body).0 (count_lines lib body).1
          (check_trailer atoi (strip_cr trailer) (count_lines lib body).0 (crc32 (line_bytes body)))
          v in
      rw same (record {
        lines = ls;
        trailer = trailer;
        header = h;
        cut = c;
        seal =
            check_trailer-Sealed atoi (strip_cr trailer) (count_lines lib body).0
              (crc32 (line_bytes body)) t;
        sane = few;
      })

  check_lines-Accepted :
      (bytes : Bytes) (o : Option (List Line)) (b : List Line)
      → open_feed (split_lines bytes) ≡ o
      → check_lines lib o ≡ some b
      → Accepted bytes b
  unfolding check_lines
  check_lines-Accepted bytes none b h v = absurd (ground arith)
  check_lines-Accepted bytes (some ls) b h v =
      check_body-Accepted bytes ls b (find_trailer ls) h refl v

  validate-Accepted :
      (bytes : Bytes) (b : List Line) → validate lib bytes ≡ some b → Accepted bytes b
  unfolding validate
  validate-Accepted bytes b v = check_lines-Accepted bytes (open_feed (split_lines bytes)) b refl v

  -- A load that succeeds, with room for every decision, into a table with distinct keys none of
  -- which carries the next generation: the buffer is a well-formed feed, and the table holds at
  -- each key exactly the last decision of the feed for it that has not run out.
  pub feed_loaded :
      (z : Zone) (bytes : Bytes) (ttl now : ℕ)
      → Distinct z.queue
      → All (λ n. marked (next_generation z.cs_generation) n ≡ false) z.queue
      → (feed_parse lib (λ _. true) (some z) bytes ttl now).0 ≡ ok
      → (body : List Line) × (z' : Zone) × ((feed_parse lib (λ _. true) (some z) bytes ttl now).1
          ≡ some z')
        × Accepted bytes body
        × ((k : Bytes)
            → entry_of (find_node k z'.queue)
              ≡ plan lib (next_generation z.cs_generation) ttl now body (λ _. none) k)
  unfolding feed_parse
  feed_loaded z [] ttl now u f h = absurd (ground arith)
  feed_loaded z (b ∷ bs) ttl now u f h = elim (Option-cases (validate lib (b ∷ bs))) [
    | inl e ↦ absurd (ground arith)
    | inr (body, e) ↦ (
      body,
      apply_feed lib (λ _. true) ttl now body z,
      rw (e, feed_parse) refl,
      validate-Accepted (b ∷ bs) body e,
      (λ k. apply_feed-plan lib ttl now body z u f k),
    )
  ]

  -- A buffer that is not a well-formed feed (the header line, a trailer that counts and seals the
  -- body, at most a quarter of malformed lines) is rejected and leaves the table exactly as it was,
  -- whatever the slab can hold: a torn file never takes a ban away or brings one in.
  pub feed_rejected :
      (fits : ℕ → Bool) (z : Zone) (bytes : Bytes) (ttl now : ℕ)
      → ((body : List Line) → ¬ Accepted bytes body)
      → feed_parse lib fits (some z) bytes ttl now ≡ (declined, some z)
  unfolding feed_parse
  feed_rejected fits z [] ttl now h = refl
  feed_rejected fits z (b ∷ bs) ttl now h = elim (Option-cases (validate lib (b ∷ bs))) [
    | inl e ↦ rw (e, feed_parse) refl
    | inr (body, e) ↦ absurd (h body (validate-Accepted (b ∷ bs) body e))
  ]

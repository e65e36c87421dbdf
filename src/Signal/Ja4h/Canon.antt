-- ===== src/Signal/Ja4h/Canon.antt =====
-- The canonical string of a JA4H fingerprint against a description without the buffer.
use mathlib.Core.List.{append-nil, append_assoc}
use nginx_http_sentinel_modu.Prelude.{
  ℕ, zero, suc, ◌+◌, ◌-◌, ◌*◌, ◌/◌, ◌%◌, ◌≤◌, ◌<◌, ◌≡◌, ◌≢◌, inl, inr, refl, ap, ◌∙◌, Bool, true,
  false, List, [], ◌∷◌, ◌++◌, map, arith, ltb, leb, ◌==◌, if◌then◌else◌, length, length-append,
  Bytes, Bool-cases,
}
use nginx_http_sentinel_modu.Nginx.{Request}
use nginx_http_sentinel_modu.Signal.Ja4h.{
  PrintLib, canlen, bin_len, method_str, version_str, Walk, walk_parts, sorted_names, lang_of,
  Build, fine, overflow, overrun, append, put_byte, end_string, bar, comma, flag, append_pair,
  append_names, shown, canonical, hex_digest, zero_hash, ja4h_compute,
}

-- A part of the construction adds `s` when all of it fits in front of the last byte of the buffer,
-- and ends in the overflow otherwise.
pub record Adds (f : Build → Build) (s : Bytes) : Type 0 where
  pub grows :
      (b : Bytes)
      → length b < canlen - 1
      → f (fine b) ≡ (if ltb (length b + length s) (canlen - 1) then fine (b ++ s) else overflow)
  pub stays : f overflow ≡ overflow

Adds-append : (s : Bytes) → Adds (append s) s
unfolding append
Adds-append s = record { grows = λ b h. ground arith; stays = refl }

-- One part after another.
Adds-then : (f g : Build → Build) (s t : Bytes) → Adds f s → Adds g t → Adds (λ b. g (f b)) (s ++ t)
Adds-then f g s t a b = record {
  grows = λ x h. elim (Bool-cases (ltb (length x + length s) (canlen - 1))) [
    | inl e ↦
        let xs = length-append x s in
        let st = length-append s t in
        let same : (length (x ++ s) + length t) ≡ (length x + length (s ++ t)) =
          omega (arith, xs, st) in
        ap g (a.grows x h ∙ rw e refl)
        ∙ b.grows (x ++ s) (ground (arith, xs))
        ∙ rw (same, append_assoc x s t) refl
    | inr e ↦
        let st = length-append s t in
        let full : ltb (length x + length (s ++ t)) (canlen - 1) ≡ false = ground (arith, st) in
        rw (a.grows x h, e, full) (b.stays)
  ];
  stays = ap g (a.stays) ∙ b.stays;
}

put_byte_fits : (c : ℕ) (b : Bytes) → length b < canlen → put_byte c (fine b) ≡ fine (b ++ (c ∷ []))
unfolding put_byte
put_byte_fits c b h = let room : ltb (length b) canlen ≡ true = ground arith in rw room refl

Adds-pair : (x y : ℕ) → Adds (append_pair x y) (x ∷ y ∷ bar)
unfolding append put_byte
Adds-pair x y = record {
  grows = λ b h.
      let one = length-append b (x ∷ []) in
      let two = length-append b (x ∷ y ∷ []) in
      let both : put_byte y (put_byte x (fine b)) ≡ fine (b ++ (x ∷ y ∷ [])) =
        ap (put_byte y) (put_byte_fits x b (omega arith))
        ∙ put_byte_fits y (b ++ (x ∷ [])) (omega (arith, one))
        ∙ ap fine (append_assoc b (x ∷ []) (y ∷ [])) in
      let joined = append_assoc b (x ∷ y ∷ []) bar in
      ap (append bar) both ∙ elim (Bool-cases (ltb (length b + 3) (canlen - 1))) [
        | inl e ↦
            let room : leb (canlen - 1) (length (b ++ (x ∷ y ∷ [])) + 1) ≡ false =
              ground (arith, two) in
            rw (e, room) (ap fine joined)
        | inr e ↦
            let full : leb (canlen - 1) (length (b ++ (x ∷ y ∷ [])) + 1) ≡ true =
              ground (arith, two) in
            rw (e, full) refl
      ];
  stays = refl;
}

-- The names in lower case, with commas between them.
abbrev joined : (ℕ → ℕ) → Bool → List Bytes → Bytes
joined tolower first [] = []
joined tolower first (n ∷ ns) =
    (if first then [] else comma) ++ (map tolower n ++ joined tolower false ns)

Adds-same : Adds (λ b. b) []
Adds-same = record {
  grows = λ b h.
      let room : ltb (length b + 0) (canlen - 1) ≡ true = ground arith in
      rw (room, append-nil b) refl;
  stays = refl;
}

Adds-names :
    (tolower : ℕ → ℕ) (first : Bool) (ns : List Bytes)
    → Adds (append_names tolower first ns) (joined tolower first ns)
unfolding append_names
Adds-names tolower first [] = Adds-same
Adds-names tolower true (n ∷ ns) =
    Adds-then (append (map tolower n)) (append_names tolower false ns) _ _
      (Adds-append (map tolower n)) (Adds-names tolower false ns)
Adds-names tolower false (n ∷ ns) =
    Adds-then (append comma) (λ b. append_names tolower false ns (append (map tolower n) b)) _ _
      (Adds-append comma)
      (Adds-then (append (map tolower n)) (append_names tolower false ns) _ _
        (Adds-append (map tolower n)) (Adds-names tolower false ns))

Adds-lang : (lang : Bytes) → Adds (λ b. if length lang == 0 then b else append lang b) lang
Adds-lang [] = Adds-same
Adds-lang (c ∷ s) =
    let some_lang : (suc (length s) == 0) ≡ false = ground arith in
    rw some_lang (Adds-append (c ∷ s))

ended :
    (t : Bytes)
    → end_string (if ltb (0 + length t) (canlen - 1) then fine t else overflow)
      ≡ (if ltb (length t) (canlen - 1) then fine t else overflow)
unfolding end_string
ended t = elim (Bool-cases (ltb (length t) (canlen - 1))) [
  | inl e ↦
      let more : ltb (length t) canlen ≡ true = ground arith in
      let same : ltb (0 + length t) (canlen - 1) ≡ true = ground arith in rw (same, e, more) refl
  | inr e ↦ let same : ltb (0 + length t) (canlen - 1) ≡ false = ground arith in rw (same, e) refl
]

length-hex : (n : ℕ) (d : Bytes) → n ≤ length d → length (hex_digest n d) ≡ n * 2
unfolding hex_digest
length-hex zero d h = refl
length-hex (suc n) [] h = absurd (omega arith)
length-hex (suc n) (x ∷ d) h = omega (arith, length-hex n d (omega arith))

module _ (lib : PrintLib) (r : Request) where
  abbrev walked : Walk
  walked = walk_parts lib (record { has_cookie = false; has_referer = false; names = [] }) r.headers

  -- The canonical string without a bound: method, version, the flags of the headers Cookie and
  -- Referer, the number of names, the names in order, the language.
  unfoldable pub canonical_text : Bytes
  canonical_text =
      let count = shown (length walked.names) in
      let flags = flag walked.has_cookie ∷ flag walked.has_referer ∷ bar in
      let digits = (b'0' + count / 10) ∷ (b'0' + count % 10) ∷ bar in
      let names = joined lib.tolower true (sorted_names lib walked.names) in
      method_str lib r.method
      ++ (bar
          ++ (version_str lib r.http_version
              ++ (bar ++ (flags ++ (digits ++ (names ++ (bar ++ lang_of r.accept_language)))))))

  canonical-text :
      canonical lib r
      ≡ (if ltb (length canonical_text) (canlen - 1) then fine canonical_text else overflow)
  unfolding canonical end_string canonical_text
  canonical-text =
      let count = shown (length walked.names) in
      let lang = lang_of r.accept_language in
      let ns = sorted_names lib walked.names in
      let a8 : Adds (λ b. if length lang == 0 then b else append lang b) lang = Adds-lang lang in
      let a7 = Adds-then (append bar) _ bar lang (Adds-append bar) a8 in
      let a6 =
        Adds-then (append_names lib.tolower true ns) _ _ _ (Adds-names lib.tolower true ns) a7 in
      let a5 =
        Adds-then (append_pair (b'0' + count / 10) (b'0' + count % 10)) _ _ _ (Adds-pair _ _) a6 in
      let a4 =
        Adds-then (append_pair (flag walked.has_cookie) (flag walked.has_referer)) _ _ _
          (Adds-pair _ _) a5 in
      let a3 = Adds-then (append bar) _ _ _ (Adds-append bar) a4 in
      let a2 = Adds-then (append (version_str lib r.http_version)) _ _ _ (Adds-append _) a3 in
      let a1 = Adds-then (append bar) _ _ _ (Adds-append bar) a2 in
      let a0 = Adds-then (append (method_str lib r.method)) _ _ _ (Adds-append _) a1 in
      ap end_string (a0.grows [] (omega arith)) ∙ ended canonical_text

-- The fingerprint of a request is the first twelve bytes of the digest of its canonical text, in
-- hexadecimal, when the text fits in front of the last byte of the buffer, and twenty-four zeros
-- otherwise; it has twenty-four characters; and no byte is written behind the buffer. The digest
-- has thirty-two bytes.
pub ja4h_text :
    (lib : PrintLib) (r : Request)
    → ((b : Bytes) → length (lib.sha256 b) ≡ 32)
    → let text = canonical_text lib r in
      (ja4h_compute lib r ≡ (
        if ltb (length text) (canlen - 1) then hex_digest bin_len (lib.sha256 text) else zero_hash))
      × (length (ja4h_compute lib r) ≡ 24)
      × (canonical lib r ≢ overrun)
unfolding ja4h_compute
ja4h_text lib r h =
    let text = canonical_text lib r in
    let digest = length-hex bin_len (lib.sha256 text) (omega (arith, h text)) in
    elim (Bool-cases (ltb (length text) (canlen - 1))) [
      | inl e ↦
          let all : canonical lib r ≡ fine text = canonical-text lib r ∙ rw e refl in
          rw (all, e) (refl, digest, (λ x. cc))
      | inr e ↦
          let all : canonical lib r ≡ overflow = canonical-text lib r ∙ rw e refl in
          rw (all, e) (refl, refl, (λ x. cc))
    ]

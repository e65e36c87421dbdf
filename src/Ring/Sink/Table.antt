-- ===== src/Ring/Sink/Table.antt =====
-- The decision set as a map from addresses to expiry times.
use nginx_http_sentinel_modu.Prelude.{
  ℕ, ◌<◌, ◌≡◌, refl, ap, ◌∙◌, Bool, true, false, List, [], ◌∷◌, Option, none, some, arith, ◌==◌,
  if◌then◌else◌, any, Bytes, bytes_eq, bytes_eq→eq, Bool-cases, Option-cases, inl, inr, ◌⊎◌,
}
use nginx_http_sentinel_modu.Shm.Zone.Find.{bytes_eq_sym}
use nginx_http_sentinel_modu.Ring.Sink.{SinkSlot, SinkSet, holds, refresh, occupy, set_upsert}

-- The expiry of the first live slot of an address.
abbrev pub lookup : Bytes → List SinkSlot → Option ℕ
lookup ip [] = none
lookup ip (d ∷ ds) = if holds ip d then some d.expiry else lookup ip ds

abbrev pub is_free : SinkSlot → Bool
is_free d = d.expiry == 0

-- The map with one address set.
abbrev pub Sets : List SinkSlot → Bytes → ℕ → List SinkSlot → Type 0
Sets ds ip x es = (j : Bytes) → lookup j es ≡ (if bytes_eq j ip then some x else lookup j ds)

live_holds :
    (d : SinkSlot) (ip j : Bytes) (x : ℕ)
    → 0 < x
    → d.ip ≡ ip
    → holds j (record d { expiry = x }) ≡ bytes_eq j ip
unfolding holds
live_holds d ip j x h e = ground (arith, bytes_eq_sym d.ip j)

holds-ip : (d : SinkSlot) (ip : Bytes) → holds ip d ≡ true → d.ip ≡ ip
unfolding holds
holds-ip d ip h = bytes_eq→eq d.ip ip (ground arith)

-- A live slot of one address is none of another.
holds_other :
    (d : SinkSlot) (ip j : Bytes) → holds ip d ≡ true → bytes_eq j ip ≡ false → holds j d ≡ false
unfolding holds
holds_other d ip j h n = let same = holds-ip d ip h in ground (arith, bytes_eq_sym d.ip j)

refresh-none :
    (ip : Bytes) (x : ℕ) (ds : List SinkSlot) → refresh ip x ds ≡ none → lookup ip ds ≡ none
unfolding refresh
refresh-none ip x [] h = refl
refresh-none ip x (d ∷ ds) h = elim (Bool-cases (holds ip d)) [
  | inl e ↦ absurd (ground arith)
  | inr e ↦ elim (Option-cases (refresh ip x ds)) [
    | inl g ↦ rw e (refresh-none ip x ds g)
    | inr (es, g) ↦ absurd (ground arith)
  ]
]

skip-Sets :
    (d : SinkSlot) (ip : Bytes) (x : ℕ) (ds es : List SinkSlot)
    → holds ip d ≡ false
    → Sets ds ip x es
    → Sets (d ∷ ds) ip x (d ∷ es)
skip-Sets d ip x ds es t r j = elim (Bool-cases (bytes_eq j ip)) [
  | inl b ↦
      let same : j ≡ ip = bytes_eq→eq j ip b in
      let found : lookup j es ≡ some x = r j ∙ (rw b refl) in
      rw (b, ap (λ k. holds k d) same ∙ t) found
  | inr b ↦ let kept : lookup j es ≡ lookup j ds = r j ∙ (rw b refl) in rw (b, kept) refl
]

refresh-Sets :
    (ip : Bytes) (x : ℕ) (ds es : List SinkSlot)
    → 0 < x
    → refresh ip x ds ≡ some es
    → Sets ds ip x es
unfolding refresh
refresh-Sets ip x [] es h e j = absurd (ground arith)
refresh-Sets ip x (d ∷ ds) es h e j = elim (Bool-cases (holds ip d)) [
  | inl t ↦
      let same : record d { expiry = x } ∷ ds ≡ es = ground arith in
      let live = live_holds d ip j x h (holds-ip d ip t) in
      elim (Bool-cases (bytes_eq j ip)) [
        | inl b ↦ rw (← same, live, b) refl
        | inr b ↦ rw (← same, live, b, holds_other d ip j t b) refl
      ]
  | inr t ↦ elim (Option-cases (refresh ip x ds)) [
    | inl g ↦ absurd (ground arith)
    | inr (es', g) ↦
        let same : d ∷ es' ≡ es = ground arith in
        rw (← same) (skip-Sets d ip x ds es' t (refresh-Sets ip x ds es' h g) j)
  ]
]

free-holds : (d : SinkSlot) (j : Bytes) → is_free d ≡ true → holds j d ≡ false
unfolding holds
free-holds d j h = ground arith

occupy-Sets :
    (ip : Bytes) (x : ℕ) (ds es : List SinkSlot)
    → 0 < x
    → lookup ip ds ≡ none
    → occupy ip x ds ≡ some es
    → Sets ds ip x es
unfolding occupy
occupy-Sets ip x [] es h a e j = absurd (ground arith)
occupy-Sets ip x (d ∷ ds) es h a e j = elim (Bool-cases (is_free d)) [
  | inl t ↦
      let new : SinkSlot = record { ip = ip; expiry = x } in
      let same : new ∷ ds ≡ es = ground arith in
      let live = live_holds new ip j x h refl in rw (← same, live, free-holds d j t) refl
  | inr t ↦ elim (Option-cases (occupy ip x ds)) [
    | inl g ↦ absurd (ground arith)
    | inr (es', g) ↦ elim (Bool-cases (holds ip d)) [
      | inl b ↦ absurd (ground arith)
      | inr b ↦
          let same : d ∷ es' ≡ es = ground arith in
          rw (← same) (skip-Sets d ip x ds es' b (occupy-Sets ip x ds es' h (rw b at a) g) j)
    ]
  ]
]

occupy-none :
    (ip : Bytes) (x : ℕ) (ds : List SinkSlot) → occupy ip x ds ≡ none → any is_free ds ≡ false
unfolding occupy
occupy-none ip x [] h = refl
occupy-none ip x (d ∷ ds) h = elim (Bool-cases (is_free d)) [
  | inl e ↦ absurd (ground arith)
  | inr e ↦ elim (Option-cases (occupy ip x ds)) [
    | inl g ↦ rw e (occupy-none ip x ds g)
    | inr (es, g) ↦ absurd (ground arith)
  ]
]

-- A drained ban sets its address's expiry in the decision set and changes no other address's,
-- unless the address has no live slot and no slot is free: then the set stays as it was.
pub set_upsert-Sets :
    (s : SinkSet) (ip : Bytes) (x : ℕ)
    → 0 < x
    → Sets s.slots ip x (set_upsert s ip x).slots
      ⊎ ((lookup ip s.slots ≡ none) × (any is_free s.slots ≡ false) × (set_upsert s ip x ≡ s))
unfolding set_upsert
set_upsert-Sets s ip x h = elim (Option-cases (refresh ip x s.slots)) [
  | inl e ↦
      let absent = refresh-none ip x s.slots e in
      elim (Option-cases (occupy ip x s.slots)) [
        | inl g ↦
            inr (absent, occupy-none ip x s.slots g, rw (e, set_upsert) (rw (g, set_upsert) refl))
        | inr (es, g) ↦ inl (λ j.
            rw (e, set_upsert) (rw (g, set_upsert) (occupy-Sets ip x s.slots es h absent g j)))
      ]
  | inr (es, e) ↦ inl (λ j. rw (e, set_upsert) (refresh-Sets ip x s.slots es h e j))
]

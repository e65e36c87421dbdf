-- ===== src/Feed/Load/Collect.antt =====
-- The feeds for which timers are armed: each once, and none forgotten.
use nginx_http_sentinel_modu.Prelude.{
  ◌≡◌, ◌⊎◌, inl, inr, refl, ap, ◌∙◌, Bool, true, false, List, [], ◌∷◌, ◌++◌, Option, none, some,
  arith, if◌then◌else◌, any, All, All-append, Bool-cases,
}
use nginx_http_sentinel_modu.Feed.Load.{
  FeedLoc, LocTree, leaf, node, same_feed, is_fed, feed_add, collect_loc, feed_collect,
}

-- Every entry has a feed and a zone, and no entry is another's feed and zone again: an entry
-- behind another is not the same.
abbrev pub Distinct : List FeedLoc → Type 0
Distinct [] = Unit
Distinct (e ∷ es) = (is_fed e ≡ true) × All (λ l. same_feed l e ≡ false) es × Distinct es

Distinct-snoc :
    (es : List FeedLoc) (l : FeedLoc)
    → Distinct es
    → is_fed l ≡ true
    → any (same_feed l) es ≡ false
    → Distinct (es ++ (l ∷ []))
Distinct-snoc [] l d f n = (f, tt, tt)
Distinct-snoc (e ∷ es) l d f n =
    let head : same_feed l e ≡ false = ground arith in
    let tail : any (same_feed l) es ≡ false = ground arith in
    (
      d.0,
      All-append (λ x. same_feed x e ≡ false) es (l ∷ []) d.1 (head, tt),
      Distinct-snoc es l d.2 f tail,
    )

feed_add-Distinct :
    (room : Bool) (o : Option FeedLoc) (es : List FeedLoc)
    → Distinct es
    → Distinct (feed_add room o es)
unfolding feed_add
feed_add-Distinct room none es d = d
feed_add-Distinct room (some l) es d = elim (Bool-cases (is_fed l)) [
  | inr f ↦ rw f d
  | inl f ↦ elim (Bool-cases (any (same_feed l) es)) [
    | inl a ↦ rw (f, a) d
    | inr a ↦ rw (f, a) (snoc room f a)
  ]
]
  where
    snoc :
        (b : Bool)
        → is_fed l ≡ true
        → any (same_feed l) es ≡ false
        → Distinct (if b then es ++ (l ∷ []) else es)
    snoc true f a = Distinct-snoc es l d f a
    snoc false f a = d

collect_loc-Distinct :
    (room : Bool) (t : LocTree) (es : List FeedLoc) → Distinct es → Distinct (collect_loc room t es)
unfolding collect_loc
collect_loc-Distinct room leaf es d = d
collect_loc-Distinct room (node exact inclusive left tree right) es d =
    collect_loc-Distinct room right _ (
      collect_loc-Distinct room tree _ (
        collect_loc-Distinct room left _
          (feed_add-Distinct room inclusive _ (feed_add-Distinct room exact es d))))

-- A location of the tree.
abbrev pub In : FeedLoc → LocTree → Type 0
In l leaf = ⊥
In l (node exact inclusive left tree right) =
    (exact ≡ some l) ⊎ (inclusive ≡ some l) ⊎ In l left ⊎ In l tree ⊎ In l right

-- The feed of a location is in the list.
abbrev pub Armed : FeedLoc → List FeedLoc → Type 0
Armed l es = any (same_feed l) es ≡ true

any-snoc :
    (p : FeedLoc → Bool) (es : List FeedLoc) (x : FeedLoc)
    → any p es ≡ true
    → any p (es ++ (x ∷ [])) ≡ true
any-snoc p [] x h = cc
any-snoc p (e ∷ es) x h = ground (arith, any-snoc p es x)

any-snoc_last :
    (p : FeedLoc → Bool) (es : List FeedLoc) (x : FeedLoc)
    → p x ≡ true
    → any p (es ++ (x ∷ [])) ≡ true
any-snoc_last p [] x h = rw h refl
any-snoc_last p (e ∷ es) x h = ground (arith, any-snoc_last p es x h)

same_feed_self : (l : FeedLoc) → same_feed l l ≡ true
unfolding same_feed
same_feed_self l = ground arith

feed_add-keeps :
    (room : Bool) (o : Option FeedLoc) (l : FeedLoc) (es : List FeedLoc)
    → Armed l es
    → Armed l (feed_add room o es)
unfolding feed_add
feed_add-keeps room none l es h = h
feed_add-keeps room (some x) l es h = ground (arith, h, any-snoc (same_feed l) es x h)

feed_add-adds :
    (l : FeedLoc) (es : List FeedLoc) → is_fed l ≡ true → Armed l (feed_add true (some l) es)
unfolding feed_add
feed_add-adds l es f = elim (Bool-cases (any (same_feed l) es)) [
  | inl a ↦ rw (f, a) a
  | inr a ↦ rw (f, a) (any-snoc_last (same_feed l) es l (same_feed_self l))
]

collect_loc-keeps :
    (room : Bool) (t : LocTree) (l : FeedLoc) (es : List FeedLoc)
    → Armed l es
    → Armed l (collect_loc room t es)
unfolding collect_loc
collect_loc-keeps room leaf l es h = h
collect_loc-keeps room (node exact inclusive left tree right) l es h =
    collect_loc-keeps room right l _ (
      collect_loc-keeps room tree l _ (
        collect_loc-keeps room left l _
          (feed_add-keeps room inclusive l _ (feed_add-keeps room exact l es h))))

collect_loc-Armed :
    (t : LocTree) (l : FeedLoc) (es : List FeedLoc)
    → is_fed l ≡ true
    → In l t
    → Armed l (collect_loc true t es)
unfolding collect_loc
collect_loc-Armed leaf l es f h = absurd h
collect_loc-Armed (node exact inclusive left tree right) l es f h =
    let es1 = feed_add true exact es in
    let es2 = feed_add true inclusive es1 in
    let es3 = collect_loc true left es2 in
    let es4 = collect_loc true tree es3 in
    let from2 : (Armed l es2 → Armed l (collect_loc true right es4)) = λ a.
      collect_loc-keeps true right l es4
        (collect_loc-keeps true tree l es3 (collect_loc-keeps true left l es2 a)) in
    elim h [
      | inl e ↦ from2 (
          feed_add-keeps true inclusive l es1
            (ap (λ o. any (same_feed l) (feed_add true o es)) e ∙ feed_add-adds l es f))
      | inr (inl e) ↦
          from2 (ap (λ o. any (same_feed l) (feed_add true o es1)) e ∙ feed_add-adds l es1 f)
      | inr (inr (inl i)) ↦
          collect_loc-keeps true right l es4
            (collect_loc-keeps true tree l es3 (collect_loc-Armed left l es2 f i))
      | inr (inr (inr (inl i))) ↦
          collect_loc-keeps true right l es4 (collect_loc-Armed tree l es3 f i)
      | inr (inr (inr (inr i))) ↦ collect_loc-Armed right l es4 f i
    ]

-- A location of one of the servers' trees.
abbrev pub InSome : FeedLoc → List LocTree → Type 0
InSome l [] = ⊥
InSome l (t ∷ ts) = In l t ⊎ InSome l ts

feed_collect-keeps :
    (room : Bool) (ts : List LocTree) (l : FeedLoc) (es : List FeedLoc)
    → Armed l es
    → Armed l (feed_collect room ts es)
unfolding feed_collect
feed_collect-keeps room [] l es h = h
feed_collect-keeps room (t ∷ ts) l es h =
    feed_collect-keeps room ts l _ (collect_loc-keeps room t l es h)

feed_collect-Distinct :
    (room : Bool) (ts : List LocTree) (es : List FeedLoc)
    → Distinct es
    → Distinct (feed_collect room ts es)
unfolding feed_collect
feed_collect-Distinct room [] es d = d
feed_collect-Distinct room (t ∷ ts) es d =
    feed_collect-Distinct room ts _ (collect_loc-Distinct room t es d)

feed_collect-Armed :
    (ts : List LocTree) (l : FeedLoc) (es : List FeedLoc)
    → is_fed l ≡ true
    → InSome l ts
    → Armed l (feed_collect true ts es)
unfolding feed_collect
feed_collect-Armed [] l es f h = absurd h
feed_collect-Armed (t ∷ ts) l es f (inl i) =
    feed_collect-keeps true ts l _ (collect_loc-Armed t l es f i)
feed_collect-Armed (t ∷ ts) l es f (inr i) = feed_collect-Armed ts l _ f i

-- The feeds that the walk over the servers' location trees collects are pairwise distinct, each has
-- a path and a zone, and every location of the trees that has both is represented, when the array
-- can grow.
pub feed_collect_once :
    (ts : List LocTree)
    → let feeds = feed_collect true ts [] in
      Distinct feeds × ((l : FeedLoc) → is_fed l ≡ true → InSome l ts → Armed l feeds)
feed_collect_once ts =
    (feed_collect-Distinct true ts [] tt, (λ l f i. feed_collect-Armed ts l [] f i))

-- ===== src/Config/Inherit.antt =====
-- Zones that are bound by name, and a location without directives of its own.
use mathlib.Core.Path.{fun_ext}
use nginx_http_sentinel_modu.Prelude.{
  ℕ, suc, ◌+◌, ◌≡◌, ◌⊎◌, inl, inr, refl, sym, ap, ◌∙◌, Bool, true, false, List, [], ◌∷◌, Option,
  none, some, arith, ◌==◌, ◌&&◌, if◌then◌else◌, length, Bytes, Bool-cases, get_elem?, strncmp_eq,
}
use nginx_http_sentinel_modu.Prelude.Int.{ℤ}
use nginx_http_sentinel_modu.Config

-- The zone is a declared one that has the name, when there is a name.
abbrev pub Resolves : List Bytes → Bytes → Config.Ref → Type 0
Resolves zs name r =
    (name ≡ [])
    ⊎ ((i : ℕ) × (z : Bytes) × (r ≡ Config.ref i)
        × (get_elem? zs i ≡ some z)
        × ((length z == length name && strncmp_eq z name (length name)) ≡ true))

find_zone-lem :
    (i : ℕ) (zs : List Bytes) (name : Bytes)
    → (Config.find_zone i zs name ≡ Config.null)
      ⊎ ((j : ℕ) × (z : Bytes) × (Config.find_zone i zs name ≡ Config.ref (i + j))
          × (get_elem? zs j ≡ some z)
          × ((length z == length name && strncmp_eq z name (length name)) ≡ true))
unfolding Config.find_zone
find_zone-lem i [] name = inl refl
find_zone-lem i (z ∷ zs) name =
    elim (Bool-cases (length z == length name && strncmp_eq z name (length name))) [
      | inl e ↦
          let at : i + 0 ≡ i = omega arith in inr (0, z, rw e (ap Config.ref (sym at)), refl, e)
      | inr e ↦ rw e (elim (find_zone-lem (suc i) zs name) [
        | inl n ↦ inl n
        | inr (j, y, f, g, s) ↦
            let at : suc i + j ≡ i + suc j = omega arith in
            inr (suc j, y, f ∙ ap Config.ref at, g, s)
      ])
    ]

pub named_zone-Resolves :
    (c p : Config.Ref) (zs : List Bytes) (name : Bytes)
    → Config.resolved name (Config.named_zone c p zs name) ≡ true
    → Resolves zs name (Config.named_zone c p zs name)
unfolding Config.named_zone Config.resolved
named_zone-Resolves c p zs [] h = inl refl
named_zone-Resolves c p zs (b ∷ name) h = elim (find_zone-lem 0 zs (b ∷ name)) [
  | inl n ↦ let bad : false ≡ true = ap (Config.resolved (b ∷ name)) (sym n) ∙ h in absurd cc
  | inr (j, z, f, g, s) ↦ let at : 0 + j ≡ j = omega arith in inr (j, z, f ∙ ap Config.ref at, g, s)
]

value_settled :
    (c p : ℤ) (d : ℕ)
    → Config.merge_value Config.conf_unset (Config.merge_value c p d) d ≡ Config.merge_value c p d
unfolding Config.merge_value
value_settled c p d = ground arith

text_settled :
    (c p : Option Bytes) (d : Bytes)
    → Config.merge_text none (Config.merge_text c p d) d ≡ Config.merge_text c p d
unfolding Config.merge_text
text_settled (some s) p d = refl
text_settled none (some s) d = refl
text_settled none none d = refl

ref_settled :
    (c p : Config.Ref) → Config.merge_ref Config.unset (Config.merge_ref c p) ≡ Config.merge_ref c p
unfolding Config.merge_ref
ref_settled Config.unset Config.unset = refl
ref_settled Config.unset Config.null = refl
ref_settled Config.unset (Config.ref i) = refl
ref_settled Config.null p = refl
ref_settled (Config.ref i) p = refl

named_settled :
    (c p : Config.Ref) (zs : List Bytes) (name : Bytes)
    → Config.named_zone Config.unset (Config.named_zone c p zs name) zs name
      ≡ Config.named_zone c p zs name
unfolding Config.named_zone
named_settled c p zs [] = ref_settled c p
named_settled c p zs (b ∷ name) = refl

zone_settled :
    (zs : List Bytes) (o : Option ℕ)
    → Config.first_zone zs (Config.merge_ptr none (Config.first_zone zs o)) ≡ Config.first_zone zs o
unfolding Config.merge_ptr
zone_settled zs (some z) = refl
zone_settled [] none = refl
zone_settled (z ∷ zs) none = refl

-- The ban table behind the merge, and again behind an empty location.
abbrev bans : Bool → List Bytes → Config.Ref → Config.Ref
bans w zs r = if w then Config.first_ref zs r else r

bans_settled :
    (w : Bool) (zs : List Bytes) (c p : Config.Ref)
    → bans w zs (Config.merge_ref Config.unset (bans w zs (Config.merge_ref c p)))
      ≡ bans w zs (Config.merge_ref c p)
unfolding Config.merge_ref
bans_settled false zs c p = ref_settled c p
bans_settled true [] Config.unset Config.unset = refl
bans_settled true (z ∷ zs) Config.unset Config.unset = refl
bans_settled true [] Config.unset Config.null = refl
bans_settled true (z ∷ zs) Config.unset Config.null = refl
bans_settled true [] Config.unset (Config.ref i) = refl
bans_settled true (z ∷ zs) Config.unset (Config.ref i) = refl
bans_settled true [] Config.null p = refl
bans_settled true (z ∷ zs) Config.null p = refl
bans_settled true [] (Config.ref i) p = refl
bans_settled true (z ∷ zs) (Config.ref i) p = refl

zones_settled :
    (m : Config.MainRaw) (p c : Config.LocRaw) (k : Config.ZoneField)
    → (Config.merged m (Config.merged m p c) Config.create_loc_conf).zones k
      ≡ (Config.merged m p c).zones k
unfolding Config.merged Config.merged_zone Config.create_loc_conf Config.merged_path
    Config.merge_list
zones_settled m p c Config.vel_zone =
    named_settled (c.zones Config.vel_zone) (p.zones Config.vel_zone) m.vel_zones _
zones_settled m p c Config.fcrdns_zone =
    named_settled (c.zones Config.fcrdns_zone) (p.zones Config.fcrdns_zone) m.fcrdns_zones _
zones_settled m p c Config.cs_zone =
    bans_settled _ m.cs_zones (c.zones Config.cs_zone) (p.zones Config.cs_zone)

pointers_settled :
    (m : Config.MainRaw) (p c : Config.LocRaw) (k : Config.PtrField)
    → (Config.merged m (Config.merged m p c) Config.create_loc_conf).pointer k
      ≡ (Config.merged m p c).pointer k
unfolding Config.merged Config.merged_pointer Config.create_loc_conf Config.merge_ptr
pointers_settled m p c Config.zone = zone_settled m.error_zones _
pointers_settled m p c Config.asn_source = refl
pointers_settled m p c Config.c2ip_tree = refl
pointers_settled m p c Config.c2ip_tree6 = refl
pointers_settled m p c Config.ja3_source = refl
pointers_settled m p c Config.ja4_source = refl
pointers_settled m p c Config.ja4t_source = refl

merged_settled :
    (m : Config.MainRaw) (p c : Config.LocRaw)
    → Config.merged m (Config.merged m p c) Config.create_loc_conf ≡ Config.merged m p c
unfolding Config.merged Config.create_loc_conf Config.merged_path Config.merge_list Config.merge_ptr
merged_settled m p c =
    let again = Config.merged m (Config.merged m p c) Config.create_loc_conf in
    let once = Config.merged m p c in
    let values : again.value ≡ once.value =
      fun_ext (λ k. value_settled (c.value k) (p.value k) (Config.default_of k)) in
    let paths : again.path ≡ once.path = refl in
    let texts : again.text ≡ once.text =
      fun_ext (λ k. text_settled (c.text k) (p.text k) (Config.default_text k)) in
    let lists : again.list ≡ once.list = refl in
    let pointers : again.pointer ≡ once.pointer = fun_ext (pointers_settled m p c) in
    let zones : again.zones ≡ once.zones = fun_ext (zones_settled m p c) in
    let push : again.push_zone ≡ once.push_zone = refl in
    let sink : again.sink_zone ≡ once.sink_zone = refl in
    (λ i. record {
      value = values i;
      path = paths i;
      text = texts i;
      list = lists i;
      pointer = pointers i;
      zones = zones i;
      push_zone = push i;
      sink_zone = sink i;
    })

-- What the merge makes of the merged members.
abbrev outcome : Config.MainRaw → Config.LocRaw → Option (Config.LocRaw × Option (ℕ × ℤ))
outcome m r =
    if Config.is_valid m r
    then some (r, Config.zone_interval (r.zones Config.cs_zone) (r.value Config.cs_stale_after))
    else none

-- A location without directives of its own gets its parent's configuration, when that is one that
-- a merge has accepted: the merge accepts it again and changes nothing, the interval of the ban
-- table included.
pub merge_loc_conf_inherits :
    (m : Config.MainRaw) (p c r : Config.LocRaw) (e : Option (ℕ × ℤ))
    → Config.merge_loc_conf m p c ≡ some (r, e)
    → Config.merge_loc_conf m r Config.create_loc_conf ≡ some (r, e)
unfolding Config.merge_loc_conf
merge_loc_conf_inherits m p c r e h = elim (Bool-cases (Config.is_valid m (Config.merged m p c))) [
  | inl v ↦
      let accepted = rw v at h in
      let same : Config.merged m p c ≡ r = cc in
      ap (λ x. outcome m (Config.merged m x Config.create_loc_conf)) (sym same)
      ∙ ap (outcome m) (merged_settled m p c)
      ∙ h
  | inr v ↦ let refused = rw v at h in absurd cc
]

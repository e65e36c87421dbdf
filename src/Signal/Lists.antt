-- ===== src/Signal/Lists.antt =====
-- The signals that look the client up in a configured list: sentinel_honeypot.c,
-- sentinel_allowlist.c, sentinel_asn.c, sentinel_c2ip.c, sentinel_ja3sig.c, sentinel_ja4sig.c and
-- sentinel_ja4tsig.c.
pub mod Denied
use nginx_http_sentinel_modu.Prelude.{
  ℕ, ◌-◌, ◌^◌, Bool, true, false, not, List, [], ◌∷◌, Option, none, some, ◌&&◌, ◌==◌, leb,
  if◌then◌else◌, any, length, Bytes, strncmp_eq,
}
use nginx_http_sentinel_modu.Nginx.{Rc, ok, SockAddr, inet, inet6, unix, Request}
use nginx_http_sentinel_modu.Score.{Inputs}
use nginx_http_sentinel_modu.Signal.Config.{NginxLib, LocConf}

-- `NGX_RADIX_NO_VALUE`
abbrev radix_no_value : ℕ
radix_no_value = 2 ^ 64 - 1

-- The test of one decoy path.
unfoldable pub on_decoy : Bytes → Bytes → Bool
on_decoy uri decoy = leb (length decoy) (length uri) && strncmp_eq uri decoy (length decoy)

-- `sentinel_honeypot_signal`
unfoldable pub honeypot_signal : Option Request → Option LocConf → Inputs → Inputs
honeypot_signal none lcf i = record i { honeypot = false }
honeypot_signal (some r) none i = record i { honeypot = false }
honeypot_signal (some r) (some lcf) i = record i { honeypot = any (on_decoy r.uri) lcf.decoy_paths }

-- The address against the CIDRs, of which an empty array matches nothing.
unfoldable pub in_cidrs : NginxLib → Option SockAddr → List Bytes → Bool
in_cidrs lib sockaddr [] = false
in_cidrs lib none (c ∷ cs) = false
in_cidrs lib (some s) (c ∷ cs) = elim (lib.cidr_match s (c ∷ cs)) [ ok ↦ true | _ ↦ false ]

-- `sentinel_allowlist_signal`
unfoldable pub allowlist_signal : NginxLib → Option Request → Option LocConf → Inputs → Inputs
allowlist_signal lib none lcf i = record i { allowlisted = false }
allowlist_signal lib (some r) none i = record i { allowlisted = false }
allowlist_signal lib (some r) (some lcf) i = record i {
  allowlisted = in_cidrs lib r.sockaddr lcf.allow_cidrs;
}

-- A complex value that is configured, resolves and is not empty.
unfoldable pub resolve : NginxLib → Request → Option Bytes → Option Bytes
resolve lib r none = none
resolve lib r (some source) = elim (lib.complex_value r source) [
  | none ↦ none
  | some value ↦ if length value == 0 then none else some value
]

-- The resolved value as an AS number that stands in the list.
unfoldable pub asn_flagged : NginxLib → Option Bytes → List ℕ → Bool
asn_flagged lib none asns = false
asn_flagged lib (some value) asns = elim (lib.atoi value) [
  | none ↦ false
  | some parsed ↦ if parsed == 0 then false else any (λ asn. asn == parsed) asns
]

-- `sentinel_asn_signal`. The empty list, which is tested before the value is resolved, flags
-- nothing.
unfoldable pub asn_signal : NginxLib → Option Request → Option LocConf → Inputs → Inputs
asn_signal lib none lcf i = record i { datacenter_asn = false }
asn_signal lib (some r) none i = record i { datacenter_asn = false }
asn_signal lib (some r) (some lcf) i = record i {
  datacenter_asn = asn_flagged lib (resolve lib r lcf.asn_source) lcf.asn_list;
}

-- Whether a tree, if there is one, has a value for the address.
unfoldable pub in_tree : Option (Bytes → ℕ) → Bytes → Bool
in_tree none addr = false
in_tree (some find) addr = not (find addr == radix_no_value)

-- The switch over the address family.
unfoldable pub c2ip_flag : LocConf → Option SockAddr → Bool
c2ip_flag lcf none = false
c2ip_flag lcf (some (inet addr)) = in_tree lcf.c2ip_tree addr
c2ip_flag lcf (some (inet6 addr)) = in_tree lcf.c2ip_tree6 addr
c2ip_flag lcf (some unix) = false

-- `sentinel_c2ip_signal`
unfoldable pub c2ip_signal : Option Request → Option LocConf → Inputs → Inputs
c2ip_signal none lcf i = record i { c2ip_flagged = false }
c2ip_signal (some r) none i = record i { c2ip_flagged = false }
c2ip_signal (some r) (some lcf) i = record i { c2ip_flagged = c2ip_flag lcf r.sockaddr }

-- The test of one denied fingerprint.
unfoldable pub same_print : NginxLib → Bytes → Bytes → Bool
same_print lib value deny =
    length deny == length value && lib.strncasecmp_eq deny value (length value)

-- A resolved fingerprint in a deny list.
unfoldable pub denied : NginxLib → Option Bytes → List Bytes → Bool
denied lib none list = false
denied lib (some value) list = any (same_print lib value) list

-- `sentinel_ja3_signal`
unfoldable pub ja3_signal : NginxLib → Option Request → Option LocConf → Inputs → Inputs
ja3_signal lib none lcf i = record i { ja3_flagged = false }
ja3_signal lib (some r) none i = record i { ja3_flagged = false }
ja3_signal lib (some r) (some lcf) i = record i {
  ja3_flagged = denied lib (resolve lib r lcf.ja3_source) lcf.ja3_list;
}

-- `sentinel_ja4_signal`
unfoldable pub ja4_signal : NginxLib → Option Request → Option LocConf → Inputs → Inputs
ja4_signal lib none lcf i = record i { ja4_flagged = false }
ja4_signal lib (some r) none i = record i { ja4_flagged = false }
ja4_signal lib (some r) (some lcf) i = record i {
  ja4_flagged = denied lib (resolve lib r lcf.ja4_source) lcf.ja4_list;
}

-- `sentinel_ja4t_signal`
unfoldable pub ja4t_signal : NginxLib → Option Request → Option LocConf → Inputs → Inputs
ja4t_signal lib none lcf i = record i { ja4t_flagged = false }
ja4t_signal lib (some r) none i = record i { ja4t_flagged = false }
ja4t_signal lib (some r) (some lcf) i = record i {
  ja4t_flagged = denied lib (resolve lib r lcf.ja4t_source) lcf.ja4t_list;
}

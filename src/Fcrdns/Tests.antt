-- ===== src/Fcrdns/Tests.antt =====
-- The theorems on the DNS confirmation at a crawler whose claim holds.
use nginx_http_sentinel_modu.Prelude.{
  ℕ, ◌≡◌, ◌⊎◌, refl, Bool, true, List, [], ◌∷◌, some, arith, codes, Bytes, bytes_eq, take,
}
use nginx_http_sentinel_modu.Nginx.{SockAddr, inet, inet6}
use nginx_http_sentinel_modu.Shm.Zone.{Zone}
use nginx_http_sentinel_modu.Shm.Crowdsec.{fcrdns_verified}
use nginx_http_sentinel_modu.Fcrdns.{
  Carrier, Env, suffix_ok, some_suffix, ends_with, forward_match, same_addr, chain,
}
use nginx_http_sentinel_modu.Fcrdns.Confirm.{Grounds, cached, fcrdns_sound, fcrdns_complete}

abbrev same : Bytes → Bytes → ℕ → Bool
same s t n = bytes_eq (take n s) (take n t)

abbrev carrier : Carrier
carrier = record {
  key = codes "k";
  addr = inet (codes "abcd");
  ttl = 60;
  suffixes = codes ".example" ∷ [];
  ptr_name = [];
}

abbrev env : Env
env = record { now = 100; alloc = true; started = true; submitted = true; fits = true }

abbrev zone : Zone
zone = record { interval = 600; block = 0; threshold = 0; cs_generation = 0; queue = [] }

abbrev addrs : List SockAddr
addrs = inet6 (codes "abcd") ∷ inet (codes "abcd") ∷ []

suffix : suffix_ok same carrier.suffixes (codes "bot.example") ≡ true
unfolding suffix_ok some_suffix ends_with bytes_eq
suffix = refl

match : forward_match carrier.addr addrs ≡ true
unfolding forward_match same_addr bytes_eq
match = refl

fcrdns_sound_example :
    let z' = chain same carrier (some (codes "bot.example")) env (some addrs) env (some zone) in
    (cached z' carrier.key 120 ≡ cached (some zone) carrier.key 120)
    ⊎ Grounds same carrier (some (codes "bot.example")) (some addrs) (cached z' carrier.key 120)
fcrdns_sound_example =
    fcrdns_sound same carrier (some (codes "bot.example")) env (some addrs) env zone 120 tt

fcrdns_complete_example :
    cached
      (chain same carrier (some (codes "bot.example")) env (some addrs) env (some zone))
      carrier.key
      120
    ≡ fcrdns_verified
fcrdns_complete_example =
    fcrdns_complete same carrier b'b' (codes "ot.example") env addrs env zone 120 tt suffix refl
      match refl (omega arith)

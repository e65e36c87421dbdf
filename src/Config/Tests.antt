-- ===== src/Config/Tests.antt =====
-- The theorems on the merge at a location with a feed, below an empty parent.
use nginx_http_sentinel_modu.Prelude.{◌≡◌, refl, [], ◌∷◌, some, codes, Bytes, strncmp_eq}
use nginx_http_sentinel_modu.Prelude.Int.{pos}
use nginx_http_sentinel_modu.Config
use nginx_http_sentinel_modu.Config.Inherit.{merge_loc_conf_inherits}

abbrev main : Config.MainRaw
main = record {
  error_zones = codes "e" ∷ [];
  cs_zones = codes "bans" ∷ [];
  vel_zones = codes "fast" ∷ codes "slow" ∷ [];
  fcrdns_zones = [];
  pagesize = 4096;
  http_close = 444;
}

abbrev paths : Config.PathField → Bytes
paths Config.cs_feed = codes "/feed"
paths Config.vel_zone_name = codes "slow"
paths _ = []

abbrev child : Config.LocRaw
child = record Config.create_loc_conf { path = paths }

abbrev loaded : Config.LocRaw
loaded = Config.merged main Config.create_loc_conf child

merges : Config.merge_loc_conf main Config.create_loc_conf child ≡ some (loaded, some (0, pos 600))
unfolding Config.merge_loc_conf Config.is_valid Config.merged Config.merged_zone Config.merged_path
    Config.create_loc_conf Config.named_zone Config.find_zone Config.resolved Config.bound
    Config.in_bounds Config.is_status Config.merge_value Config.merge_ref Config.merge_list
    Config.default_of Config.zone_interval strncmp_eq
merges = refl

merge_loc_conf_inherits_example :
    Config.merge_loc_conf main loaded Config.create_loc_conf ≡ some (loaded, some (0, pos 600))
merge_loc_conf_inherits_example =
    merge_loc_conf_inherits main Config.create_loc_conf child loaded (some (0, pos 600)) merges

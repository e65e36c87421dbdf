-- ===== src/Handler/Block.antt =====
-- ngx_sentinel_preaccess_handler: what a block that this node decides leaves behind.
use nginx_http_sentinel_modu.Prelude.{
  ℕ, ◌+◌, ◌≤◌, ◌<◌, ◌≡◌, refl, ap, ◌∙◌, true, false, [], ◌∷◌, ◌++◌, some, arith, ltb, ◌&&◌,
  if◌then◌else◌, length, Bytes,
}
use nginx_http_sentinel_modu.Nginx.{busy, status, Request}
use nginx_http_sentinel_modu.Score.{block, cs_ban}
use nginx_http_sentinel_modu.Shm.Zone.{Zone}
use nginx_http_sentinel_modu.Shm.Errrate.{quiet, errrate_lookup, softban_set}
use nginx_http_sentinel_modu.Shm.Errrate.Track.{IsSound}
use nginx_http_sentinel_modu.Shm.Errrate.Ban.{softban_lasts}
use nginx_http_sentinel_modu.Ring.{push_ring, Entry, Ring, enqueue_locked, redis_enqueue_ban}
use nginx_http_sentinel_modu.Ring.Fifo.{IsRing, queue, enqueue_fifo}
use nginx_http_sentinel_modu.Tarpit.{TarpitConf}
use nginx_http_sentinel_modu.Pow.{PowLib, PowConf}
use nginx_http_sentinel_modu.Signal.Config.{NginxLib, LocConf}
use nginx_http_sentinel_modu.Signal.Gather.{Zones, Ctx}
use nginx_http_sentinel_modu.Handler.{
  Shared, Env, block_softban, enforce_block, exports, enforce, dispatch,
}

softban_zones :
    (lib : NginxLib) (r : Request) (lcf : LocConf) (env : Env) (zs : Zones) (z : Zone)
    → zs.zone ≡ some z
    → 0 < lcf.block_ttl
    → 0 < length r.addr_text
    → (block_softban lib r lcf env zs).zone
      ≡ (softban_set (some z) (lib.sha256 r.addr_text) env.now lcf.block_ttl env.node_fits).1
unfolding block_softban
softban_zones lib r lcf env zs z e t a =
    let test : (ltb 0 lcf.block_ttl && ltb 0 (length r.addr_text)) ≡ true = ground arith in
    rw (e, block_softban) (rw test refl)

exported :
    (target addr : Bytes) → 0 < length target → 0 < length addr → exports target false addr ≡ true
unfolding exports
exported target addr t a = ground arith

redis_pushed :
    (strlen : ℕ) (p : Ring) (ip : Bytes) (action expiry : ℕ)
    → 0 < length ip
    → length ip < strlen
    → redis_enqueue_ban strlen (some p) ip action expiry
      ≡ some (enqueue_locked p (record { ip = ip; action = action; expiry = expiry }))
unfolding redis_enqueue_ban
redis_pushed strlen p ip action expiry a b = ground arith

-- What a block decided by this node leaves behind, if soft-bans and the push ring are configured,
-- the zone and the ring are well formed and have room, and the client's address fits an entry: the
-- configured status, a soft-ban of the client in the error-rate zone that lasts for exactly the
-- configured time, and one new entry for the client at the end of the push ring.
pub local_block :
    (lib : NginxLib) (plib : PowLib) (r : Request) (lcf : LocConf) (pconf : PowConf)
    (tconf : TarpitConf) (env : Env) (ctx : Ctx) (s : Shared) (z : Zone) (p : Ring) (later : ℕ)
    → lcf.shadow ≡ false
    → ctx.verdict ≡ block
    → ctx.inputs.crowdsec_hit ≡ false
    → s.zones.zone ≡ some z
    → IsSound env.now z
    → 0 < z.threshold
    → env.node_fits ≡ true
    → 0 < lcf.block_ttl
    → s.push ≡ some p
    → IsRing p
    → length (queue p) < push_ring
    → 0 < length lcf.redis_host
    → 0 < length r.addr_text
    → length r.addr_text < env.strlen
    → env.now ≤ later
    → let (out, s') = dispatch lib plib r lcf pconf tconf env (some ctx) s in
      let until = env.now + lcf.block_ttl in
      let entry : Entry = record {
        ip = r.addr_text;
        action = cs_ban;
        expiry = env.now + lcf.redis_ttl;
      } in
      (out.rc ≡ status lcf.block_status)
      × ((errrate_lookup s'.zones.zone (lib.sha256 r.addr_text) later).0 ≡ (
          if ltb later until
          then record { rc = busy; count = z.threshold; blocked_until = until }
          else quiet))
      × ((p' : Ring) × (s'.push ≡ some p') × IsRing p' × (queue p' ≡ queue p ++ (entry ∷ [])))
unfolding dispatch enforce enforce_block
local_block lib plib r lcf pconf tconf env ctx s z p later sh v hit ez sound th fits ttl ep w room
      host addr len le =
    let entry : Entry = record {
      ip = r.addr_text;
      action = cs_ban;
      expiry = env.now + lcf.redis_ttl;
    } in
    let f = enqueue_fifo p entry w in
    let ban =
      softban_lasts z (lib.sha256 r.addr_text) env.now lcf.block_ttl later sound th ttl le in
    let zone = softban_zones lib r lcf env s.zones z ez ttl addr in
    let push = redis_pushed env.strlen p r.addr_text cs_ban (env.now + lcf.redis_ttl) addr len in
    simp (sh, v, hit)
      (
        refl,
        ap (λ o. (errrate_lookup o (lib.sha256 r.addr_text) later).0)
              (zone
                ∙ ap
                    (λ b. (softban_set (some z) (lib.sha256 r.addr_text) env.now lcf.block_ttl b).1)
                    fits)
            ∙ ban.1,
        (
          enqueue_locked p entry,
          rw (exported lcf.redis_host r.addr_text host addr, ep) push,
          f.0,
          (f.1 room).0,
        ),
      )

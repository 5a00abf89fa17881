-- ===== src/Util.antt =====
-- src/util.c: the clock in milliseconds and the estimate of the round-trip time.
use peer_server.Base.{
  ℕ, ◌+◌, ◌-◌, ◌*◌, ◌/◌, ◌%◌, Option, none, some, ltb, ◌==◌, if◌then◌else◌, u32_mod, add32, sub32,
  mul32,
}
use peer_server.Platform.{Platform, World, tick}

abbrev pub default_timeout : ℕ
default_timeout = 5 * 1000

-- `(tv_sec * 1000) + (tv_usec / 1000)` as a `uint32_t`; 0 stands for a failure.
unfoldable pub milliseconds : Option (ℕ × ℕ) → ℕ
milliseconds none = 0
milliseconds (some (sec, usec)) = (sec * 1000 + usec / 1000) % u32_mod

unfoldable pub get_timestamp_now : Platform → World → ℕ × World
unfolding milliseconds tick
get_timestamp_now plat w = (milliseconds (plat.gettimeofday w.calls), tick w)

pub record Rtt : Type 0 where
  pub rtt : ℕ
  pub dev : ℕ

-- The new estimate from one sample. The source's test `s_rtt < 0` is never true of a `uint32_t`.
unfoldable pub smooth : Rtt → ℕ → Rtt
smooth r s_rtt =
    let rtt = if r.rtt == 0 then s_rtt else add32 (mul32 r.rtt 7 / 8) (s_rtt / 8) in
    let s_dev = if ltb rtt s_rtt then s_rtt - rtt else rtt - s_rtt in
    record { rtt = rtt; dev = if r.dev == 0 then s_dev else add32 (mul32 r.dev 3 / 4) (s_dev / 4) }

unfoldable pub update_rtt : Platform → Rtt → ℕ → World → Rtt × World
unfolding get_timestamp_now smooth
update_rtt plat r ts w =
    if ts == 0
    then (r, w)
    else let (now, w') = get_timestamp_now plat w in (smooth r (sub32 now ts), w')

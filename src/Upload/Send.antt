-- ===== src/Upload/Send.antt =====
-- What `ul_send` sends: the packets that the window allows, each once and in order.
use peer_server.Base.{
  ℕ, zero, suc, ◌+◌, ◌-◌, ◌^◌, ◌≤◌, ◌<◌, ◌≡◌, ◌≢◌, refl, ◌∙◌, true, false, List, ◌∷◌, arith, min,
  max, ◌==◌, add32,
}
use native.Mathlib.Decide.{dec_lt}
use peer_server.Platform.{Platform, World, PktParam, emit}
use peer_server.Util.{get_timestamp_now, milliseconds}
use peer_server.Upload.{Upload, Sent, ul_send, send_loop, send_end, stamped, data_param}
use peer_server.Upload.Valid.{IsValid}

-- The clock never fails, and never shows 0.
abbrev pub ClockRuns : Platform → Type 0
ClockRuns plat = (n : ℕ) → milliseconds (plat.gettimeofday n) ≢ 0

-- `count` packets from number `seq` on, each in front of those sent before it.
abbrev pub sent_from : (ℕ → PktParam) → ℕ → ℕ → List PktParam → List PktParam
sent_from packet seq zero before = before
sent_from packet seq (suc count) before = sent_from packet (seq + 1) count (packet seq ∷ before)

-- The number of packets that the window leaves to send, up to the last of the chunk.
abbrev pub allowed : Upload → ℕ
allowed ul = min 512 (ul.last_pkt_acked + ul.window_size) - ul.last_pkt_sent

-- What the loop has done after `left` rounds at most.
record Run (ul : Upload) (left : ℕ) (w : World) (out : Sent) : Type 0 where
  good : out.good ≡ true
  last : out.ul.last_pkt_sent ≡ max ul.last_pkt_sent (min 512 (ul.last_pkt_sent + left))
  most : out.ul.max_pkt_sent ≡ ul.max_pkt_sent
  packets :
      out.world.sent
      ≡ sent_from (data_param ul) (ul.last_pkt_sent + 1) (min left (512 - ul.last_pkt_sent)) w.sent

module _ (plat : Platform) (runs : ClockRuns plat) where
  clock-ne : (w : World) → ((get_timestamp_now plat w).0 == 0) ≡ false
  unfolding get_timestamp_now
  clock-ne w = ground (arith, runs w.calls)

  sent-clock : (p : PktParam) (w : World) → (get_timestamp_now plat (emit p w)).1.sent ≡ p ∷ w.sent
  unfolding get_timestamp_now emit
  sent-clock p w = refl

  abbrev stamp : Upload → World → ℕ × World
  stamp ul w = get_timestamp_now plat (emit (data_param ul (ul.last_pkt_sent + 1)) w)

  -- The handler after the round that sends the next packet, and the world then.
  abbrev next_ul : Upload → World → Upload
  next_ul ul w = record (stamped ul (ul.last_pkt_sent + 1) (stamp ul w).0) {
    last_pkt_sent = ul.last_pkt_sent + 1;
  }

  loop_stop :
      (left : ℕ) (ul : Upload) (w : World)
      → ul.last_pkt_sent ≡ 512
      → send_loop plat (suc left) ul w ≡ record { good = true; ul = ul; world = w }
  unfolding send_loop
  loop_stop left ul w e = ground arith

  loop_step :
      (left : ℕ) (ul : Upload) (w : World)
      → ul.last_pkt_sent < 512
      → send_loop plat (suc left) ul w ≡ send_loop plat left (next_ul ul w) (stamp ul w).1
  unfolding send_loop
  loop_step left ul w h =
      let e : add32 ul.last_pkt_sent 1 ≡ ul.last_pkt_sent + 1 = omega arith in
      rw (e, clock-ne (emit (data_param ul (ul.last_pkt_sent + 1)) w)) (ground arith)

  same_packets : (ul : Upload) (w : World) → data_param (next_ul ul w) ≡ data_param ul
  unfolding data_param stamped
  same_packets ul w = refl

  next-most : (ul : Upload) (w : World) → (next_ul ul w).max_pkt_sent ≡ ul.max_pkt_sent
  unfolding stamped
  next-most ul w = refl

  send_loop-Run :
      (left : ℕ) (ul : Upload) (w : World)
      → ul.last_pkt_sent ≤ 512
      → Run ul left w (send_loop plat left ul w)
  send_loop-Run zero ul w h =
      let e : min 0 (512 - ul.last_pkt_sent) ≡ 0 = omega arith in
      unfold send_loop in record { good = refl; last = omega arith; most = refl; packets = rw e }
  send_loop-Run (suc left) ul w h = elim (dec_lt ul.last_pkt_sent 512) [
    | no full ↦
        let e : min (suc left) (512 - ul.last_pkt_sent) ≡ 0 = omega arith in
        rw (loop_stop left ul w (omega arith))
          (record { good = refl; last = omega arith; most = refl; packets = rw e })
    | yes more ↦
        let r = send_loop-Run left (next_ul ul w) (stamp ul w).1 (omega arith) in
        let e : min (suc left) (512 - ul.last_pkt_sent)
            ≡ suc (min left (512 - (ul.last_pkt_sent + 1))) =
          omega arith in
        rw (loop_step left ul w more) (record {
          good = r.good;
          last = omega (arith, r.last);
          most = r.most ∙ next-most ul w;
          packets = rw e (
              r.packets
              ∙ rw (same_packets ul w, sent-clock (data_param ul (ul.last_pkt_sent + 1)) w));
        })
  ]

  -- While the clock runs and the window ends below 2 ^ 32, `ul_send` of a valid upload returns 0
  -- and sends every packet after the last one sent that lies in the window, up to the last of the
  -- chunk, in order and once; it counts them as sent.
  pub ul_send_lem :
      (ul : Upload) (w : World)
      → IsValid ul
      → ul.last_pkt_acked + ul.window_size < 2 ^ 32
      → let out = ul_send plat ul w in
        (out.good ≡ true)
        × (out.world.sent ≡ sent_from (data_param ul) (ul.last_pkt_sent + 1) (allowed ul) w.sent)
        × (out.ul.last_pkt_sent ≡ ul.last_pkt_sent + allowed ul)
        × (out.ul.max_pkt_sent ≡ max ul.max_pkt_sent (ul.last_pkt_sent + allowed ul))
  unfolding ul_send send_end
  ul_send_lem ul w v h =
      let fits : add32 ul.last_pkt_acked ul.window_size ≡ ul.last_pkt_acked + ul.window_size =
        omega arith in
      let left = ul.last_pkt_acked + ul.window_size - ul.last_pkt_sent in
      let r = send_loop-Run left ul w v.sent-le in
      let e : min left (512 - ul.last_pkt_sent) ≡ allowed ul = omega (arith, v.sent-le) in
      rw (fits, r.good)
        (
          refl,
          r.packets ∙ rw e,
          omega (arith, r.last, v.sent-le),
          omega (arith, r.last, r.most, v.sent-le),
        )

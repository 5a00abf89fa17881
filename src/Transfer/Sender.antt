-- ===== src/Transfer/Sender.antt =====
-- What each step of the upload does to the calls of `send_packet` and to the chunk that it reads.
use peer_server.Base.{
  ℕ, zero, suc, ◌+◌, ◌≤◌, ◌<◌, ◌≡◌, refl, ◌∙◌, arith, max, add32, ltb, ◌==◌, update, Every, if_ind,
  inl, inr, Bool-cases, ◌||◌,
}
use peer_server.Base.Int.{pos}
use peer_server.Platform.{Platform, World, PktParam, emit}
use peer_server.Util.{get_timestamp_now, update_rtt}
use peer_server.Upload.{
  Upload, Status, slow_start, Sent, ul_loss, ul_send, send_loop, send_end, stamped, data_param,
  byte_at, write_winsize,
}
use peer_server.Upload.Control.{
  Checked, ack_rtt, ack_count, grow_in, acknowledged, ack_new, ack_act, ul_handle_ack, ca_start,
  ca_grow, ul_timeout, ul_check_timeout,
}
use peer_server.Upload.Valid.{
  IsValid, ul_loss-IsValid, ul_handle_ack-IsValid, ca_grow-IsValid, send_loop-Looped,
}
use peer_server.Transfer.Wire.{IsPiece}

-- A step that sends nothing, keeps the chunk, and acknowledges nothing beyond `ack`.
pub record Quiet (ack : ℕ) (ul : Upload) (w : World) (out : Upload) (w' : World) : Type 0 where
  pub same : out.data_ptr ≡ ul.data_ptr
  pub sent : w'.sent ≡ w.sent
  pub acked : out.last_pkt_acked ≤ max ul.last_pkt_acked ack

pub write_winsize-sent :
    (plat : Platform) (p_index window : ℕ) (w : World)
    → (write_winsize plat p_index window w).sent ≡ w.sent
unfolding write_winsize get_timestamp_now
write_winsize-sent plat p_index window w = ground arith

clock-sent : (plat : Platform) (w : World) → (get_timestamp_now plat w).1.sent ≡ w.sent
unfolding get_timestamp_now
clock-sent plat w = refl

pub ul_loss-Quiet :
    (plat : Platform) (ul : Upload) (w : World) (ack : ℕ)
    → let r = ul_loss plat ul w in Quiet ack ul w r.0 r.1
unfolding ul_loss
ul_loss-Quiet plat ul w ack = record {
  same = refl;
  sent = write_winsize-sent plat ul.p_index 1 w;
  acked = omega arith;
}

ack_rtt-Quiet :
    (plat : Platform) (ul : Upload) (ack : ℕ) (w : World)
    → let r = ack_rtt plat ul ack w in Quiet ack ul w r.0 r.1
unfolding ack_rtt update_rtt
ack_rtt-Quiet plat ul ack w = ground arith

grow_in-data : (s : Status) (ul : Upload) (ack : ℕ) → (grow_in s ul ack).0.data_ptr ≡ ul.data_ptr
unfolding grow_in
grow_in-data slow_start ul ack = refl
grow_in-data _ ul ack = ground arith

ack_new-Quiet :
    (plat : Platform) (ul : Upload) (ack : ℕ) (w : World)
    → let r = ack_new plat ul ack w in Quiet ack ul w r.0 r.1
unfolding ack_new acknowledged
ack_new-Quiet plat ul ack w =
    let g = (grow_in ul.status ul ack).0 in
    ground (arith, grow_in-data ul.status ul ack, write_winsize-sent plat g.p_index g.window_size w)

ack_act-Quiet :
    (plat : Platform) (ul : Upload) (ack : ℕ) (w : World)
    → let r = ack_act plat ul ack w in Quiet ack ul w r.0 r.1
unfolding ack_act
ack_act-Quiet plat ul ack w = ground (
  arith,
  ul_loss-Quiet plat (record ul { ack_cnt = update ul.ack_cnt ack (pos 0) }) w ack,
  ack_new-Quiet plat ul ack w,
)

ack_count-Quiet : (ul : Upload) (ack : ℕ) (w : World) → Quiet ack ul w (ack_count ul ack) w
unfolding ack_count
ack_count-Quiet ul ack w = ground arith

pub Quiet-trans :
    (ack : ℕ) {ul mid out : Upload} {w w₁ w₂ : World}
    → Quiet ack ul w mid w₁
    → Quiet ack mid w₁ out w₂
    → Quiet ack ul w out w₂
Quiet-trans ack p q = record {
  same = q.same ∙ p.same;
  sent = q.sent ∙ p.sent;
  acked = omega (arith, p.acked, q.acked);
}

pub ul_handle_ack-Quiet :
    (plat : Platform) (ul : Upload) (ack : ℕ) (w : World)
    → let r = ul_handle_ack plat ul ack w in Quiet ack ul w r.0 r.1
unfolding ul_handle_ack
ul_handle_ack-Quiet plat ul ack w =
    let r = ack_rtt plat ul ack w in
    ground (
      arith,
      Quiet-trans ack (ack_rtt-Quiet plat ul ack w) (
          Quiet-trans ack (ack_count-Quiet r.0 ack r.1)
            (ack_act-Quiet plat (ack_count r.0 ack) ack r.1)),
    )

-- An upload that reads the chunk, and has sent nothing but pieces of it.
pub record Owns (chunk : ℕ → ℕ) (ul : Upload) (w : World) : Type 0 where
  pub bytes : (i : ℕ) → i < 524288 → byte_at ul.data_ptr i ≡ chunk i
  pub pieces : Every (IsPiece chunk) w.sent

Quiet-Owns :
    {chunk : ℕ → ℕ} (ack : ℕ) {ul out : Upload} {w w' : World}
    → Owns chunk ul w
    → Quiet ack ul w out w'
    → Owns chunk out w'
Quiet-Owns ack o q = record { bytes = rw q.same o.bytes; pieces = rw q.sent o.pieces }

emit-Every :
    {chunk : ℕ → ℕ} (plat : Platform) (p : PktParam) (w : World)
    → IsPiece chunk p
    → Every (IsPiece chunk) w.sent
    → Every (IsPiece chunk) (get_timestamp_now plat (emit p w)).1.sent
unfolding get_timestamp_now emit
emit-Every plat p w a b = (a, b)

stamped-same : (ul : Upload) (seq now : ℕ) → (stamped ul seq now).data_ptr ≡ ul.data_ptr
unfolding stamped
stamped-same ul seq now = refl

stamped-last : (ul : Upload) (seq now : ℕ) → (stamped ul seq now).last_pkt_sent ≡ ul.last_pkt_sent
unfolding stamped
stamped-last ul seq now = refl

send_loop-Owns :
    {chunk : ℕ → ℕ} (plat : Platform) (left : ℕ) (ul : Upload) (w : World)
    → ul.last_pkt_sent ≤ 512
    → Owns chunk ul w
    → let s = send_loop plat left ul w in Owns chunk s.ul s.world
unfolding send_loop
send_loop-Owns plat zero ul w h o = o
send_loop-Owns {chunk} plat (suc left) ul w h o =
    elim (Bool-cases (ltb 512 (add32 ul.last_pkt_sent 1))) [
      | inl over ↦ rw over o
      | inr more ↦
          let seq = add32 ul.last_pkt_sent 1 in
          let stamp = get_timestamp_now plat (emit (data_param ul seq) w) in
          let mid : Owns chunk (stamped ul seq stamp.0) stamp.1 = record {
            bytes = rw (stamped-same ul seq stamp.0) o.bytes;
            pieces =
                emit-Every plat (data_param ul seq) w
                  (record {
                    from = ul;
                    seq = seq;
                    first = omega arith;
                    last = ground (arith, more);
                    bytes = o.bytes;
                    call = refl;
                  })
                  o.pieces;
          } in
          let rest =
            send_loop-Owns plat left (record (stamped ul seq stamp.0) { last_pkt_sent = seq })
              stamp.1 (ground (arith, more)) (record { bytes = mid.bytes; pieces = mid.pieces }) in
          elim (Bool-cases (stamp.0 == 0)) [
            | inl stop ↦ rw (more, stop) mid
            | inr runs ↦ rw (more, runs) rest
          ]
    ]

send_end-Owns :
    {chunk : ℕ → ℕ} (s : Sent)
    → Owns chunk s.ul s.world
    → Owns chunk (send_end s).ul (send_end s).world
unfolding send_end
send_end-Owns s o = elim (Bool-cases s.good) [
  | inl good ↦ rw good (record { bytes = o.bytes; pieces = o.pieces })
  | inr bad ↦ rw bad o
]

send_end-acked : (s : Sent) → (send_end s).ul.last_pkt_acked ≡ s.ul.last_pkt_acked
unfolding send_end
send_end-acked s = ground arith

-- `ul_send` of a valid upload sends pieces of the chunk only.
pub ul_send-Owns :
    {chunk : ℕ → ℕ} (plat : Platform) (ul : Upload) (w : World)
    → IsValid ul
    → Owns chunk ul w
    → let s = ul_send plat ul w in Owns chunk s.ul s.world
unfolding ul_send
ul_send-Owns plat ul w v o = send_end-Owns _ (send_loop-Owns plat _ ul w v.sent-le o)

pub ul_send-acked :
    (plat : Platform) (ul : Upload) (w : World)
    → IsValid ul
    → (ul_send plat ul w).ul.last_pkt_acked ≡ ul.last_pkt_acked
unfolding ul_send
ul_send-acked plat ul w v = send_end-acked _ ∙ (send_loop-Looped plat _ ul w v.sent-le).acked

pub ca_start-Quiet : (ul : Upload) (now : ℕ) (w : World) → Quiet 0 ul w (ca_start ul now) w
unfolding ca_start
ca_start-Quiet ul now w = ground arith

pub ca_grow-Quiet :
    (plat : Platform) (ul : Upload) (now : ℕ) (w : World)
    → let r = ca_grow plat ul now w in Quiet 0 ul w r.0 r.1
unfolding ca_grow
ca_grow-Quiet plat ul now w =
    ground (arith, write_winsize-sent plat ul.p_index (add32 ul.window_size 1) w)

pub clock-Quiet :
    (plat : Platform) (ul : Upload) (w : World) → Quiet 0 ul w ul (get_timestamp_now plat w).1
unfolding get_timestamp_now
clock-Quiet plat ul w = ground arith

-- What a check of the timeouts keeps.
pub record Checks (chunk : ℕ → ℕ) (ul : Upload) (out : Upload) (w : World) : Type 0 where
  pub owns : Owns chunk out w
  pub acked : out.last_pkt_acked ≤ ul.last_pkt_acked

Quiet-Checks :
    {chunk : ℕ → ℕ} {ul out : Upload} {w w' : World}
    → Owns chunk ul w
    → Quiet 0 ul w out w'
    → Checks chunk ul out w'
Quiet-Checks o q = record { owns = Quiet-Owns 0 o q; acked = omega (arith, q.acked) }

ul_timeout-Checks :
    {chunk : ℕ → ℕ} (plat : Platform) (ul : Upload) (w : World)
    → IsValid ul
    → Owns chunk ul w
    → let r = ul_timeout plat ul w in Checks chunk ul r.0 r.1
unfolding ul_timeout
ul_timeout-Checks plat ul w v o =
    let lost =
      Quiet-Checks (record { bytes = o.bytes; pieces = o.pieces }) (ul_loss-Quiet plat _ w 0) in
    let valid = ul_loss-IsValid plat _ w (ground arith) in
    record {
      owns = ul_send-Owns plat _ _ valid lost.owns;
      acked = rw (ul_send-acked plat _ _ valid) lost.acked;
    }

pub ul_check_timeout-Checks :
    {chunk : ℕ → ℕ} (plat : Platform) (ul : Upload) (w : World)
    → IsValid ul
    → Owns chunk ul w
    → let r = ul_check_timeout plat ul w in Checks chunk ul r.ul r.world
unfolding ul_check_timeout
ul_check_timeout-Checks {chunk} plat ul w v o =
    let t = get_timestamp_now plat w in
    let g = ca_grow plat (ca_start ul t.0) t.0 t.1 in
    let due = g.0.seq_timeout (g.0.last_pkt_acked + 1) in
    let kept : Checked → Type 0 = λ r. Checks chunk ul r.ul r.world in
    let grown : Checks chunk ul g.0 g.1 = Quiet-Checks o (
      Quiet-trans 0 (clock-Quiet plat ul w) (
        Quiet-trans 0 (ca_start-Quiet ul t.0 t.1)
          (ca_grow-Quiet plat (ca_start ul t.0) t.0 t.1))) in
    let valid = ca_grow-IsValid plat ul t.0 t.1 v in
    let out = ul_timeout-Checks plat g.0 g.1 valid grown.owns in
    if_ind kept ul.finished _ _ (λ done. record { owns = o; acked = omega arith })
      (λ run.
        if_ind kept (due == 0 || ltb t.0 due) _ _ (λ wait. grown)
          (λ late. record { owns = out.owns; acked = omega (arith, out.acked, grown.acked) }))

-- An ack and what is sent after it, `update_upload` of a valid upload.
pub ack_send-Owns :
    {chunk : ℕ → ℕ} (plat : Platform) (ul : Upload) (ack : ℕ) (w : World)
    → IsValid ul
    → Owns chunk ul w
    → let r = ul_handle_ack plat ul ack w in
      let s = ul_send plat r.0 r.1 in
      Owns chunk s.ul s.world × (s.ul.last_pkt_acked ≤ max ul.last_pkt_acked ack)
ack_send-Owns plat ul ack w v o =
    let q = ul_handle_ack-Quiet plat ul ack w in
    let valid = ul_handle_ack-IsValid plat ul ack w v in
    (ul_send-Owns plat _ _ valid (Quiet-Owns ack o q), rw (ul_send-acked plat _ _ valid) q.acked)

-- ===== src/Transfer/Receiver.antt =====
-- What each step of the download does to the packets received, to the acks sent and to the content.
use peer_server.Base.{
  ◌/◌, ℕ, zero, suc, ◌+◌, ◌≤◌, ◌<◌, ◌≡◌, refl, Bool, true, not, ◌&&◌, ◌||◌, List, [], ◌∷◌, arith,
  ltb, ◌==◌, sub32, Every, if_ind,
}
use peer_server.RecvWin.{recvwin_mark, seq_fit_in, recvwin_slideack}
use peer_server.RecvWin.SlideAck.{IsValid, Acked, slideack-Acked}
use peer_server.Platform.{Platform, World, PktParam, emit}
use peer_server.Util.{get_timestamp_now, update_rtt}
use peer_server.Packet.{Packet, get_data_len}
use peer_server.Download.{
  Download, Received, dl_recv, dl_measure, dl_accept, dl_answer, dl_store, dl_loss,
  dl_check_timeout, dl_offset, get_ack, ack_of, send_ack, ack_again,
}
use peer_server.Download.Content.{IsData, Inv, window-IsValid}
use peer_server.Download.Complete.{dl_recv-Step}
use peer_server.Transfer.Wire.{IsAck, ack_param}

-- An ack stays one when more packets come.
Acks-later : {n m : ℕ} (ps : List PktParam) → n ≤ m → Every (IsAck n) ps → Every (IsAck m) ps
Acks-later [] h a = a
Acks-later (p ∷ ps) h a = (
  record { to = a.0.to; ack = a.0.ack; low = omega (arith, a.0.low); call = a.0.call },
  Acks-later ps h a.1,
)

-- The download keeps its content, expects at least the packet `n` next, and has sent only acks of
-- what it has received.
pub record Answers (chunk : ℕ → ℕ) (n : ℕ) (dl : Download) (w : World) : Type 0 where
  pub content : Inv chunk dl
  pub reached : n ≤ dl.rwin.next_seq
  pub acks : Every (IsAck dl.rwin.next_seq) w.sent

pub send_ack-sent :
    (p_index ack : ℕ) (w : World) → (send_ack p_index ack w).sent ≡ ack_param p_index ack ∷ w.sent
unfolding send_ack emit ack_param
send_ack-sent p_index ack w = refl

-- With the first gap in front, `get_ack` moves nothing.
module _ {chunk : ℕ → ℕ} {dl : Download} (v : Inv chunk dl) where
  pub again : Acked dl.rwin (get_ack dl).rwin
  unfolding get_ack
  again = slideack-Acked dl.rwin (window-IsValid v)

  pub get_ack-next : (get_ack dl).rwin.next_seq ≡ dl.rwin.next_seq
  get_ack-next = ground (arith, again.run dl.rwin.next_seq, again.lower, v.gap)

  pub get_ack-Inv : Inv chunk (get_ack dl)
  unfolding get_ack
  get_ack-Inv = record {
    front_in = again.front_in;
    lower = omega (arith, again.lower, v.lower);
    upper = omega (arith, get_ack-next, v.upper);
    top = λ s h. ground (arith, again.rest s, v.top s);
    gap = ground (arith, again.rest (get_ack dl).rwin.next_seq, again.stop);
    len = v.len;
    bytes = λ i h g. v.bytes i h (ground (arith, get_ack-next, again.rest (i / 1024 + 1)));
    complete = rw (get_ack-next) v.complete;
  }

-- The number that is acknowledged is the one before the next expected.
ack_low : (n : ℕ) → 1 ≤ n → n ≤ 513 → sub32 n 1 < n
ack_low n a b = omega arith

get_ack-Answers :
    {chunk : ℕ → ℕ} {n : ℕ} {dl : Download} (w : World)
    → Answers chunk n dl w
    → let out = get_ack dl in Answers chunk n out (send_ack out.p_index (ack_of out) w)
get_ack-Answers {chunk} {n} {dl} w a =
    let v = get_ack-Inv a.content in
    record {
      content = v;
      reached = omega (arith, a.reached, get_ack-next a.content);
      acks = rw (send_ack-sent (get_ack dl).p_index (ack_of (get_ack dl)) w) (
        record {
          to = (get_ack dl).p_index;
          ack = ack_of (get_ack dl);
          low = unfold get_ack ack_of in ack_low (get_ack dl).rwin.next_seq v.lower v.upper;
          call = refl;
        },
        Acks-later w.sent (omega (arith, get_ack-next a.content)) a.acks,
      );
    }

ack_again-Answers :
    {chunk : ℕ → ℕ} {n : ℕ} (times : ℕ) {dl : Download} (w : World)
    → Answers chunk n dl w
    → let r = ack_again times dl w in Answers chunk n r.0 r.1
unfolding ack_again
ack_again-Answers zero w a = a
ack_again-Answers (suc times) w a = ack_again-Answers times _ (get_ack-Answers w a)

-- The times and the flags that a timeout changes are not part of the content.
pub retimed-Inv :
    {chunk : ℕ → ℕ} {dl : Download} (ts cnt : ℕ) (block : Bool)
    → Inv chunk dl
    → Inv chunk (record dl { ts = ts; timeout_cnt = cnt; block_update = block })
retimed-Inv ts cnt block v = record {
  front_in = v.front_in;
  lower = v.lower;
  upper = v.upper;
  top = v.top;
  gap = v.gap;
  len = v.len;
  bytes = v.bytes;
  complete = v.complete;
}

retimed-Answers :
    {chunk : ℕ → ℕ} {n : ℕ} {dl : Download} {w w' : World} (ts cnt : ℕ) (block : Bool)
    → Answers chunk n dl w
    → w'.sent ≡ w.sent
    → Answers chunk n (record dl { ts = ts; timeout_cnt = cnt; block_update = block }) w'
retimed-Answers ts cnt block a e = record {
  content = retimed-Inv ts cnt block a.content;
  reached = a.reached;
  acks = rw e a.acks;
}

dl_loss-Answers :
    {chunk : ℕ → ℕ} {n : ℕ} (plat : Platform) {dl : Download} (w : World)
    → Answers chunk n dl w
    → let r = dl_loss plat dl w in Answers chunk n r.0 r.1
unfolding dl_loss get_timestamp_now
dl_loss-Answers plat {dl} w a =
    let r = ack_again 3 dl w in
    retimed-Answers (get_timestamp_now plat r.1).0 r.0.timeout_cnt true (ack_again-Answers 3 w a)
      refl

-- A timeout of the download only repeats its last ack.
pub dl_check_timeout-Answers :
    {chunk : ℕ → ℕ} {n : ℕ} (plat : Platform) {dl : Download} (w : World)
    → Answers chunk n dl w
    → let r = dl_check_timeout plat dl w in Answers chunk n r.dl r.world
unfolding dl_check_timeout get_timestamp_now
dl_check_timeout-Answers {chunk} {n} plat {dl} w a =
    let t = get_timestamp_now plat w in
    let kept : Received → Type 0 = λ r. Answers chunk n r.dl r.world in
    let waits : Answers chunk n dl t.1 = record {
      content = a.content;
      reached = a.reached;
      acks = a.acks;
    } in
    if_ind kept dl.finished _ _ (λ done. a)
      (λ run.
        if_ind kept (dl.est.rtt == 0 && ltb (sub32 t.0 dl.ts) 5000) _ _ (λ first. waits)
          (λ measured.
            if_ind kept (ltb (sub32 t.0 dl.ts) 2500) _ _ (λ early. waits)
              (λ late.
                dl_loss-Answers plat t.1
                  (retimed-Answers dl.ts (dl.timeout_cnt + 1) dl.block_update waits refl))))

pub measure-keeps :
    (plat : Platform) (dl : Download) (pkt : Packet) (w : World)
    → let r = dl_measure plat dl pkt w in (r.0.rwin ≡ dl.rwin) × (r.1.sent ≡ w.sent)
unfolding dl_measure update_rtt get_timestamp_now
measure-keeps plat dl pkt w = ground arith

pub store-IsValid :
    (dl : Download) (pkt : Packet)
    → IsValid dl.rwin
    → IsValid (dl_store dl pkt).rwin × ((dl_store dl pkt).rwin.next_seq ≡ dl.rwin.next_seq)
unfolding dl_store recvwin_mark
store-IsValid dl pkt v = ground arith

-- An answer acknowledges what lies before the next packet expected.
answer-Acks :
    (plat : Platform) (dl : Download) (w : World)
    → IsValid dl.rwin
    → let r = dl_answer plat dl w in
      1 ≤ r.0.rwin.next_seq
      → r.0.rwin.next_seq ≤ 513
      → Every (IsAck dl.rwin.next_seq) w.sent
      → Every (IsAck r.0.rwin.next_seq) r.1.sent
unfolding dl_answer get_timestamp_now get_ack ack_of send_ack emit
answer-Acks plat dl w v low high a = (
  record {
    to = dl.p_index;
    ack = sub32 (recvwin_slideack dl.rwin).next_seq 1;
    low = ack_low (recvwin_slideack dl.rwin).next_seq low high;
    call = unfold ack_param in refl;
  },
  Acks-later w.sent (slideack-Acked dl.rwin v).lower a,
)

-- What a call that answers `r` has sent, if the next number expected is in range.
record Acks (r : Received) : Type 0 where
  acks :
      1 ≤ r.dl.rwin.next_seq
      → r.dl.rwin.next_seq ≤ 513
      → Every (IsAck r.dl.rwin.next_seq) r.world.sent

accept-Acks :
    (plat : Platform) (dl : Download) (pkt : Packet) (w : World)
    → IsValid dl.rwin
    → Every (IsAck dl.rwin.next_seq) w.sent
    → Acks (dl_accept plat (dl, w) pkt)
unfolding dl_accept
accept-Acks plat dl pkt w v a =
    let s = store-IsValid dl pkt v in
    if_ind Acks
      (not (seq_fit_in dl.rwin pkt.seq) || ltb 524288 (dl_offset dl pkt + get_data_len pkt)) _ _
      (λ refused. record { acks = λ low high. a })
      (λ taken. record {
        acks = λ low high. answer-Acks plat (dl_store dl pkt) w s.0 low high (rw s.1 a);
      })

recv-Acks :
    (plat : Platform) (dl : Download) (pkt : Packet) (w : World)
    → IsValid dl.rwin
    → Every (IsAck dl.rwin.next_seq) w.sent
    → Acks (dl_recv plat dl pkt w)
unfolding dl_recv
recv-Acks plat dl pkt w v a =
    let m = dl_measure plat dl pkt w in
    let k = measure-keeps plat dl pkt w in
    if_ind Acks dl.finished _ _ (λ done. record { acks = λ low high. a })
      (λ run. accept-Acks plat m.0 pkt m.1 (rw k.0 v) (rw (k.0, k.1) a))

-- The next number expected never goes back.
pub recv-next :
    {chunk : ℕ → ℕ} (plat : Platform) {dl : Download} {pkt : Packet} (w : World)
    → IsData chunk pkt
    → Inv chunk dl
    → dl.rwin.next_seq ≤ (dl_recv plat dl pkt w).dl.rwin.next_seq
recv-next plat {dl} {pkt} w d v =
    let s = dl_recv-Step plat w d v in
    let n = (dl_recv plat dl pkt w).dl.rwin.next_seq in ground (arith, s.adds n, s.keeps.gap)

-- The same content, with less said of how far it has come.
pub Answers-from :
    {chunk : ℕ → ℕ} {n : ℕ} (m : ℕ) {dl : Download} {w : World}
    → m ≤ dl.rwin.next_seq
    → Answers chunk n dl w
    → Answers chunk m dl w
Answers-from m h a = record { content = a.content; reached = h; acks = a.acks }

-- A packet of the chunk keeps the content, and what it makes the download send are acks of what it
-- has received.
pub dl_recv-Answers :
    {chunk : ℕ → ℕ} {n : ℕ} (plat : Platform) {dl : Download} {pkt : Packet} (w : World)
    → IsData chunk pkt
    → Answers chunk n dl w
    → let r = dl_recv plat dl pkt w in Answers chunk n r.dl r.world
dl_recv-Answers plat {dl} {pkt} w d a =
    let v = (dl_recv-Step plat w d a.content).keeps in
    record {
      content = v;
      reached = omega (arith, a.reached, recv-next plat w d a.content);
      acks = (recv-Acks plat dl pkt w (window-IsValid a.content) a.acks).acks v.lower v.upper;
    }

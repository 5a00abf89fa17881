-- ===== src/Transfer/Correct.antt =====
-- The two ends and the network together: what holds after any steps.
use mathlib.Core.List.{Memᴰ}
use peer_server.Base.{
  some, ℕ, ◌+◌, ◌^◌, ◌≤◌, ◌<◌, ◌≡◌, refl, ◌∙◌, true, List, [], ◌∷◌, arith, Every,
}
use peer_server.Chunklist.{ChunkList}
use peer_server.Packet.{Packet}
use peer_server.Packet.Encode.{encode_pkt, decode_pkt}
use peer_server.Packet.Send.{packets_of}
use peer_server.Platform.{Platform, World, tick}
use peer_server.Download.{dl_init, chunk_size}
use peer_server.Download.Content.{IsData, init-Inv}
use peer_server.Download.Complete.{finished-content}
use peer_server.Util.{get_timestamp_now}
use peer_server.Upload.{Sent, ul_init, load_data, fresh_upload}
use peer_server.Upload.Control.{ul_handle_ack}
use peer_server.Upload.Valid.{
  IsValid, ul_init-IsValid, ul_send-IsValid, ul_handle_ack-IsValid, ul_check_timeout-IsValid,
}
use peer_server.Transfer.{
  System, InFlight, Step, data_arrives, ack_arrives, sender_checks, receiver_checks, start, Reach,
  here, next, take_data, take_ack, sender_timer, receiver_timer,
}
use peer_server.Transfer.Wire.{
  IsPiece, IsAck, arrived-IsData, packets-data_param, packets-ack_param, arrived_ack,
}
use peer_server.Transfer.Sender.{
  write_winsize-sent, Owns, ul_send-Owns, ul_send-acked, ul_check_timeout-Checks, ack_send-Owns,
}
use peer_server.Transfer.Receiver.{Answers, Answers-from, dl_recv-Answers, dl_check_timeout-Answers}

pub record Agree (chunk : ℕ → ℕ) (s : System) : Type 0 where
  pub valid : IsValid s.ul
  pub owns : Owns chunk s.ul s.sender
  pub answers : Answers chunk (s.ul.last_pkt_acked + 1) s.dl s.receiver

pub Every-Memᴰ {ℓ κ} :
    {A : Type ℓ} (P : A → Type κ) (x : A) (xs : List A) → Every P xs → Memᴰ x xs → P x
Every-Memᴰ P x [] a m = elim m [ ]
Every-Memᴰ P x (y ∷ ys) a (Memᴰ.head e) = rw e a.0
Every-Memᴰ P x (y ∷ ys) a (Memᴰ.tail m) = Every-Memᴰ P x ys a.1 m

-- What arrives from the sender is data of the chunk.
pub InFlight-IsData :
    {chunk : ℕ → ℕ} (w : World) (pkt : Packet)
    → Every (IsPiece chunk) w.sent
    → InFlight w pkt
    → IsData chunk pkt
InFlight-IsData {chunk} w pkt a f =
    let p = Every-Memᴰ (IsPiece chunk) f.param w.sent a f.sent in
    let kept : Packet → Type 0 = λ q. IsData chunk (decode_pkt f.stack_r (encode_pkt q)) in
    rw f.arrived (
      Every-Memᴰ kept f.packet (packets_of f.stack_s f.getchunks f.param)
        (rw (p.call, packets-data_param f.stack_s f.getchunks p.from p.seq)
          (arrived-IsData chunk f.param p f.stack_r, tt))
        f.cut)

-- What arrives from the receiver acknowledges a packet that it has received.
InFlight-ack :
    {n : ℕ} (w : World) (pkt : Packet)
    → n ≤ 513
    → Every (IsAck n) w.sent
    → InFlight w pkt
    → pkt.ack < n
InFlight-ack {n} w pkt h a f =
    let p = Every-Memᴰ (IsAck n) f.param w.sent a f.sent in
    let kept : Packet → Type 0 = λ q. (decode_pkt f.stack_r (encode_pkt q)).ack < n in
    let low : p.ack < 2 ^ 32 = omega (arith, p.low) in
    rw f.arrived (
      Every-Memᴰ kept f.packet (packets_of f.stack_s f.getchunks f.param)
        (rw (p.call, packets-ack_param f.stack_s f.getchunks p.to p.ack)
          (rw (arrived_ack p.to p.ack f.stack_r low) p.low, tt))
        f.cut)

module _ (plat_s plat_r : Platform) {chunk : ℕ → ℕ} where
  pub Step-Agree : {s t : System} → Step plat_s plat_r s t → Agree chunk s → Agree chunk t
  unfolding take_data take_ack sender_timer receiver_timer
  Step-Agree (data_arrives s pkt f) a =
      let d = InFlight-IsData s.sender pkt a.owns.pieces f in
      record {
        valid = a.valid;
        owns = a.owns;
        answers = dl_recv-Answers plat_r s.receiver d a.answers;
      }
  Step-Agree (ack_arrives s pkt f) a =
      let r = ul_handle_ack plat_s s.ul pkt.ack s.sender in
      let o = ack_send-Owns plat_s s.ul pkt.ack s.sender a.valid a.owns in
      record {
        valid =
            ul_send-IsValid plat_s r.0 r.1
              (ul_handle_ack-IsValid plat_s s.ul pkt.ack s.sender a.valid);
        owns = o.0;
        answers =
            Answers-from _
              (omega (
                arith,
                a.answers.reached,
                o.1,
                InFlight-ack s.receiver pkt a.answers.content.upper a.answers.acks f,
              ))
              a.answers;
      }
  Step-Agree (sender_checks s) a =
      let c = ul_check_timeout-Checks plat_s s.ul s.sender a.valid a.owns in
      record {
        valid = ul_check_timeout-IsValid plat_s s.ul s.sender a.valid;
        owns = c.owns;
        answers = Answers-from _ (omega (arith, a.answers.reached, c.acked)) a.answers;
      }
  Step-Agree (receiver_checks s) a = record {
    valid = a.valid;
    owns = a.owns;
    answers = dl_check_timeout-Answers plat_r s.receiver a.answers;
  }

  pub Reach-Agree : {s t : System} → Agree chunk s → Reach plat_s plat_r s t → Agree chunk t
  Reach-Agree a here = a
  Reach-Agree a (next r st) = Step-Agree st (Reach-Agree a r)

-- `ul_init` sends nothing, and `dl_init` neither.
pub init-sent :
    (plat : Platform) (haschunks : ChunkList) (to has_index : ℕ) (w : World)
    → let s = ul_init plat haschunks to has_index w in
      (s.world.sent ≡ w.sent) × (s.ul.last_pkt_acked ≡ 0)
unfolding ul_init load_data fresh_upload tick
init-sent plat haschunks to has_index w =
    ground (arith, write_winsize-sent plat to (fresh_upload to has_index).window_size w)

fresh-Answers :
    (chunk : ℕ → ℕ) (plat : Platform) (from get_index : ℕ) (filename : List ℕ) (w : World)
    → w.sent ≡ []
    → let r = dl_init plat from get_index filename w in Answers chunk 1 r.0 r.1
fresh-Answers chunk plat from get_index filename w e =
    let v = init-Inv chunk plat from get_index filename w in
    record { content = v; reached = v.lower; acks = unfold dl_init get_timestamp_now in rw e tt }

-- One chunk between two hosts, from the first window on: the upload maps it, the download is fresh,
-- and neither has sent anything.
module _ (plat_s plat_r : Platform) (haschunks : ChunkList) (has_index to get_index from : ℕ)
    (filename : List ℕ) (w_s w_r : World) (e_s : w_s.sent ≡ []) (e_r : w_r.sent ≡ []) where
  abbrev mapped : Sent
  mapped = ul_init plat_s haschunks to has_index w_s

  abbrev first : System
  first = start plat_s plat_r mapped (dl_init plat_r from get_index filename w_r)

  module _ {bytes : ℕ → ℕ} (e : mapped.ul.data_ptr ≡ some bytes) where
    mapped-Owns : Owns bytes mapped.ul mapped.world
    mapped-Owns = record {
      bytes = λ i h. rw e refl;
      pieces = rw ((init-sent plat_s haschunks to has_index w_s).0, e_s) tt;
    }

    pub start-Agree : Agree bytes first
    unfolding start
    start-Agree =
        let v = ul_init-IsValid plat_s haschunks to has_index w_s in
        let none_acked =
          ul_send-acked plat_s mapped.ul mapped.world v
          ∙ (init-sent plat_s haschunks to has_index w_s).1 in
        record {
          valid = ul_send-IsValid plat_s mapped.ul mapped.world v;
          owns = ul_send-Owns plat_s mapped.ul mapped.world v mapped-Owns;
          answers =
              Answers-from _
                (omega
                  (arith, none_acked, (init-Inv bytes plat_r from get_index filename w_r).lower))
                (fresh-Answers bytes plat_r from get_index filename w_r e_r);
        }

    -- A chunk that `ul_init` has mapped goes from an upload to a fresh download, when neither end
    -- has sent anything before. However the network loses, repeats and reorders the packets of
    -- both ends, and whenever the timers of both are checked: the upload counts as acknowledged
    -- only packets that the download has received, it is finished only after the download, and a
    -- finished download holds the chunk, byte for byte.
    pub transfer_lem :
        (s : System)
        → Reach plat_s plat_r first s
        → (s.ul.last_pkt_acked < s.dl.rwin.next_seq)
          × (s.ul.finished ≡ true → s.dl.finished ≡ true)
          × (s.dl.finished ≡ true → (i : ℕ) → i < chunk_size → s.dl.buffer i ≡ bytes i)
    transfer_lem s r =
        let a = Reach-Agree plat_s plat_r start-Agree r in
        let v = a.answers.content in
        (
          omega (arith, a.answers.reached),
          λ done. ground (arith, a.answers.reached, a.valid.done, v.complete, v.upper),
          finished-content v,
        )

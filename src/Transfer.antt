-- ===== src/Transfer.antt =====
-- One chunk between two hosts: the upload of src/upload.c at one end, the download of
-- src/download.c at the other, and between them a network that loses, repeats and reorders
-- packets. A packet that is lost never arrives; whether one will still arrive is left open, which
-- fits statements about what can never happen, and only these.
pub mod Wire
mod Sender
mod Receiver
pub mod Correct
use mathlib.Core.List.{Memᴰ}
use peer_server.Base.{ℕ, suc, ◌≡◌, true, List}
use peer_server.Chunklist.{ChunkList}
use peer_server.Packet.{Packet}
use peer_server.Packet.Encode.{encode_pkt, decode_pkt}
use peer_server.Packet.Send.{packets_of}
use peer_server.Platform.{Platform, World, PktParam}
use peer_server.Download.{Download, dl_init, dl_recv, dl_check_timeout}
use peer_server.Upload.{Upload, Sent, ul_init, ul_send}
use peer_server.Upload.Control.{ul_handle_ack, ul_check_timeout}

-- The two handlers, each with its host's world. The calls of `send_packet` so far, `sent` of a
-- world, are all that the network may deliver to the other end, now or later, once, often or never.
pub record System : Type 0 where
  pub ul : Upload
  pub sender : World
  pub dl : Download
  pub receiver : World

-- A packet that an end has sent, as the other end finds it in the bytes that arrive.
pub record InFlight (w : World) (pkt : Packet) : Type 0 where
  pub stack_s : ℕ → ℕ
  pub stack_r : ℕ → ℕ
  pub getchunks : ChunkList
  pub param : PktParam
  pub sent : Memᴰ param w.sent
  pub packet : Packet
  pub cut : Memᴰ packet (packets_of stack_s getchunks param)
  pub arrived : pkt ≡ decode_pkt stack_r (encode_pkt packet)

module _ (plat_s plat_r : Platform) where
  -- DATA for the download.
  unfoldable pub take_data : System → Packet → System
  take_data s pkt =
      let r = dl_recv plat_r s.dl pkt s.receiver in record s { dl = r.dl; receiver = r.world }

  -- ACK for the upload: `update_upload`.
  unfoldable pub take_ack : System → Packet → System
  take_ack s pkt =
      let (ul, w) = ul_handle_ack plat_s s.ul pkt.ack s.sender in
      let r = ul_send plat_s ul w in record s { ul = r.ul; sender = r.world }

  unfoldable pub sender_timer : System → System
  sender_timer s =
      let r = ul_check_timeout plat_s s.ul s.sender in record s { ul = r.ul; sender = r.world }

  unfoldable pub receiver_timer : System → System
  receiver_timer s =
      let r = dl_check_timeout plat_r s.dl s.receiver in record s { dl = r.dl; receiver = r.world }

  pub data Step : System → System → Type 0 where
    data_arrives : (s : System) (pkt : Packet) → InFlight s.sender pkt → Step s (take_data s pkt)
    ack_arrives : (s : System) (pkt : Packet) → InFlight s.receiver pkt → Step s (take_ack s pkt)
    sender_checks : (s : System) → Step s (sender_timer s)
    receiver_checks : (s : System) → Step s (receiver_timer s)

  -- The sender has mapped its chunk and sent what the first window allows; the receiver has asked.
  unfoldable pub start : Sent → Download × World → System
  start mapped (dl, w) =
      let r = ul_send plat_s mapped.ul mapped.world in
      record { ul = r.ul; sender = r.world; dl = dl; receiver = w }

  pub data Reach (first : System) : System → Type 0 where
    here : Reach first first
    next : {s t : System} → Reach first s → Step s t → Reach first t

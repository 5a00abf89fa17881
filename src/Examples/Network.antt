-- ===== src/Examples/Network.antt =====
-- A packet and a datagram on the way, and a line from the user.
use peer_server.Server.{PeerServer}
use peer_server.Base.{
  ◌<◌, ◌≤◌, length, Option, List, ◌⊎◌, ℕ, ◌≡◌, refl, true, none, some, [], ◌∷◌, arith,
}
use peer_server.Packet.{Packet}
use peer_server.Packet.Encode.{encode_pkt, decode_pkt}
use peer_server.Packet.Roundtrip.{Fits, Arrives, decode-encode}
use peer_server.Spiffy.{SockAddr, Spiffy, spiffy_recvfrom}
use peer_server.Spiffy.Carries.{sent, sendto_lem}
use peer_server.Server.Handle.{process_inbound_udp}
use peer_server.Server.Inbound.{receive_udp, receive-sendto, receive_udp-fault, buf_len}
use peer_server.InputBuffer.{create_userbuf, process_user_input}
use peer_server.InputBuffer.Bytes.{Holds}
use peer_server.InputBuffer.Handles.{Handles, process_user_input-Handles}
use peer_server.Examples.Samples.{sample_platform, sample_server}

abbrev packet : Packet
packet = record {
  magic = 15441;
  version = 1;
  type = 3;
  hdr_len = 16;
  pkt_len = 19;
  seq = 70000;
  ack = 0;
  payload = 1 ∷ 2 ∷ 3 ∷ [];
}

packet-Fits : Fits packet
packet-Fits = record {
  magic = omega arith;
  version = omega arith;
  type = omega arith;
  hdr_len = omega arith;
  pkt_len = refl;
  room = omega arith;
  seq = omega arith;
  ack = omega arith;
}

abbrev stack : ℕ → ℕ
stack i = 77

decode-encode_example : Arrives packet (decode_pkt stack (encode_pkt packet))
decode-encode_example = decode-encode stack packet packet-Fits

abbrev address : ℕ → SockAddr
address port = record { is_inet = true; addr = 16777343; port = port }

abbrev spiffy : Spiffy
spiffy = record {
  enabled = true;
  node_id = 3;
  src_addr = 16777343;
  src_port = 4660;
  router = address 1;
}

receive-sendto_example :
    (q : Packet) × Arrives packet q
    × (receive_udp sample_platform sample_server stack (
          spiffy_recvfrom spiffy stack buf_len
            (some (address 1, sent spiffy (encode_pkt packet) (address 2)))
            stack
            (address 0))
        ≡ some (
            process_inbound_udp sample_platform sample_server q
              (record { sin_addr = 16777343; sin_port = 4660 })))
receive-sendto_example =
    receive-sendto sample_platform sample_server stack stack spiffy spiffy refl refl (omega arith)
      (omega arith) packet (address 2) (address 1) (address 1)
      (sent spiffy (encode_pkt packet) (address 2)) stack (address 0) packet-Fits refl
      (sendto_lem spiffy (encode_pkt packet) (address 2) refl refl)

abbrev faulty : Option (SockAddr × List ℕ) → Option PeerServer
faulty o =
    receive_udp sample_platform sample_server stack
      (spiffy_recvfrom spiffy stack buf_len o stack (address 0))

receive_udp-fault_example :
    (faulty none ≡ none)
    × ((from : SockAddr) (datagram : List ℕ)
        → ((faulty (some (from, datagram)) ≡ none) × (0 < length datagram) × (length datagram < 16))
          ⊎ ((out : PeerServer) × (faulty (some (from, datagram)) ≡ some out)
              × ((length datagram ≡ 0) ⊎ (16 ≤ length datagram))))
receive_udp-fault_example =
    receive_udp-fault sample_platform sample_server stack stack stack spiffy refl (address 0)

empty-Holds : Holds create_userbuf []
unfolding create_userbuf
empty-Holds = record { cur = refl; bytes = λ i h. refl }

-- "GET", a newline, and the beginning of another line.
process_user_input-Handles_example :
    Handles
      (71 ∷ 69 ∷ 84 ∷ 10 ∷ 71 ∷ [])
      (process_user_input 6 create_userbuf (71 ∷ 69 ∷ 84 ∷ 10 ∷ 71 ∷ []))
process_user_input-Handles_example =
    process_user_input-Handles 6 create_userbuf [] (71 ∷ 69 ∷ 84 ∷ 10 ∷ 71 ∷ []) empty-Holds refl
      (omega arith) (omega arith)

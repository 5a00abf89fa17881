-- ===== src/Examples/Transfers.antt =====
-- One chunk between two hosts: the first packet of a window arrives.
use mathlib.Core.List.{Memᴰ}
use peer_server.Base.Int.{pos_part}
use peer_server.Base.{ℕ, arith, ◌<◌, ◌≡◌, refl, true, some, [], ◌∷◌, ◌%◌, ◌+◌}
use peer_server.Packet.{Packet}
use peer_server.Packet.Encode.{encode_pkt, decode_pkt}
use peer_server.Platform.{World, tick, emit}
use peer_server.Util.{get_timestamp_now}
use peer_server.Upload.{
  Sent, ul_init, load_data, fresh_upload, ul_send, send_end, send_loop, stamped, data_param,
  write_winsize, get_chunk_offset,
}
use peer_server.Download.{Download, dl_init}
use peer_server.Transfer.{System, InFlight, start, take_data, Reach, here, next, data_arrives}
use peer_server.Transfer.Wire.{piece, packets-data_param}
use peer_server.Transfer.Correct.{transfer_lem}
use peer_server.Upload.Send.{ClockRuns}
use peer_server.Util.{milliseconds}
use peer_server.Examples.Samples.{sample_platform, sample_world, sample_list}

clock-runs : ClockRuns sample_platform
unfolding milliseconds
clock-runs n = omega arith

abbrev mapped : Sent
mapped = ul_init sample_platform sample_list 1 0 sample_world

abbrev fresh_download : Download × World
fresh_download = dl_init sample_platform 2 0 [] sample_world

abbrev state_0 : System
state_0 = start sample_platform sample_platform mapped fresh_download

abbrev arrived_packet : Packet
arrived_packet = decode_pkt (λ i. 7) (encode_pkt (piece mapped.ul 1))

abbrev state_1 : System
state_1 = take_data sample_platform sample_platform state_0 arrived_packet

mapped-data_ptr :
    mapped.ul.data_ptr ≡ some (λ i. (pos_part (get_chunk_offset 0 sample_list) + i) % 251)
unfolding ul_init load_data fresh_upload
mapped-data_ptr = refl

first_sent : state_0.sender.sent ≡ data_param mapped.ul 1 ∷ []
unfolding start ul_send send_end send_loop stamped ul_init load_data fresh_upload write_winsize
    get_timestamp_now tick emit
first_sent = refl

first_packet : InFlight state_0.sender arrived_packet
first_packet = record {
  stack_s = λ i. 0;
  stack_r = λ i. 7;
  getchunks = sample_list;
  param = data_param mapped.ul 1;
  sent = rw first_sent (Memᴰ.head refl);
  packet = piece mapped.ul 1;
  arrived = refl;
  cut = rw (packets-data_param (λ i. 0) sample_list mapped.ul 1) (Memᴰ.head refl);
}

state_1-Reach : Reach sample_platform sample_platform state_0 state_1
state_1-Reach = next here (data_arrives state_0 arrived_packet first_packet)

transfer_lem_example :
    (state_1.ul.last_pkt_acked < state_1.dl.rwin.next_seq)
    × (state_1.ul.finished ≡ true → state_1.dl.finished ≡ true)
    × (state_1.dl.finished ≡ true
        → (i : ℕ) → i < 524288
        → state_1.dl.buffer i ≡ (pos_part (get_chunk_offset 0 sample_list) + i) % 251)
transfer_lem_example =
    transfer_lem sample_platform sample_platform sample_list 0 1 0 2 [] sample_world sample_world
      refl refl mapped-data_ptr state_1 state_1-Reach

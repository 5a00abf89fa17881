-- ===== src/Examples/Windows.antt =====
-- Receive windows, downloads, packets and hashes at concrete inputs.
use peer_server.Base.{
  ℕ, ◌+◌, ◌*◌, ◌%◌, if◌then◌else◌, ◌≤◌, ◌<◌, ◌≡◌, refl, true, false, [], ◌∷◌, arith, ◌==◌,
}
use peer_server.RecvWin.{RecvWin, recvwin_slideack}
use peer_server.RecvWin.SlideAck.{IsValid, Acked, slideack-Acked}
use peer_server.Packet.{
  Packet, valid_packet, hash_offset, data_offset, get_data_len, ext_header_size,
}
use peer_server.Packet.Fields.{valid-in_bounds, extended-hash_offset}
use peer_server.Chunk.{binary2hex, hex2binary}
use peer_server.Chunk.Hex.{hex2binary-binary2hex}
use peer_server.Download.{dl_init, dl_recv}
use peer_server.Download.Content.{init-Inv}
use peer_server.Download.Recv.{Progress, dl_recv-Progress}
use peer_server.Download.Complete.{recv_all, download_lem}
use peer_server.Examples.Samples.{
  sample_platform, sample_world, data_packet, data_packet-IsData, backwards, backwards-AllData,
  has_seq-backwards,
}

abbrev bytes : ℕ → ℕ
bytes i = (i * 7 + 3) % 256

-- All the packets of a chunk, in the wrong order.
download_lem_example :
    (recv_all sample_platform
      (dl_init sample_platform 0 1 [] sample_world).0
      (backwards bytes 512)
      (dl_init sample_platform 0 1 [] sample_world).1).finished
    ≡ true
download_lem_example =
    (download_lem sample_platform bytes 0 1 [] (backwards bytes 512) sample_world
        (backwards-AllData bytes 512 (omega arith))).0
      (has_seq-backwards bytes 512)

fresh_runs : (dl_init sample_platform 0 1 [] sample_world).0.finished ≡ false
unfolding dl_init
fresh_runs = refl

-- The second packet of a chunk comes first.
dl_recv-Progress_example :
    Progress bytes (dl_init sample_platform 0 1 [] sample_world).0 (data_packet bytes 2) (
      dl_recv sample_platform
        (dl_init sample_platform 0 1 [] sample_world).0
        (data_packet bytes 2)
        sample_world)
dl_recv-Progress_example =
    dl_recv-Progress sample_platform (data_packet-IsData bytes 2 (omega arith) (omega arith))
      sample_world (init-Inv bytes sample_platform 0 1 [] sample_world) fresh_runs

-- A window at 2000 that has the first two numbers and the fourth.
abbrev window : RecvWin
window = record {
  bm = λ i. if i == 31 then 3221225472 else if i == 0 then 2 else 0;
  front = 1022;
  next_seq = 2000;
}

window-IsValid : IsValid window
window-IsValid = record { front_in = omega arith; small = omega arith }

slideack-Acked_example : Acked window (recvwin_slideack window)
slideack-Acked_example = slideack-Acked window window-IsValid

-- An IHAVE packet with one hash.
abbrev ihave : ℕ → Packet
ihave hdr_len = record {
  magic = 15441;
  version = 1;
  type = 1;
  hdr_len = hdr_len;
  pkt_len = hdr_len + 24;
  seq = 0;
  ack = 0;
  payload = 1 ∷ 1 ∷ 1 ∷ 1 ∷ 1 ∷ [];
}

ihave-valid : valid_packet (ihave 16) ≡ true
unfolding valid_packet
ihave-valid = refl

extended-valid : valid_packet (ihave 20) ≡ true
unfolding valid_packet
extended-valid = refl

full : get_data_len (ihave 20) ≡ 4 + (0 + 1) * 20
unfolding get_data_len
full = refl

valid-in_bounds_example :
    (hash_offset (ihave 16) 3 + 20 ≤ 1484)
    × (data_offset (ihave 16) + get_data_len (ihave 16) ≤ 1484)
    × (data_offset (ihave 16) < 1484)
valid-in_bounds_example = valid-in_bounds (ihave 16) 3 ihave-valid

extended-hash_offset_example : hash_offset (ihave 20) 0 < ext_header_size (ihave 20) + 4 + 0 * 20
extended-hash_offset_example =
    extended-hash_offset (ihave 20) 0 extended-valid (omega arith) (omega arith) full

hex2binary-binary2hex_example : hex2binary (binary2hex (10 ∷ 255 ∷ [])) ≡ 10 ∷ 255 ∷ []
hex2binary-binary2hex_example =
    hex2binary-binary2hex (10 ∷ 255 ∷ []) (omega arith, (omega arith, tt))

-- ===== src/Download/Recv.antt =====
-- `dl_recv` as a whole, on the packets of one chunk.
use peer_server.Base.{
  ℕ, ◌+◌, ◌/◌, ◌≤◌, ◌≡◌, refl, sym, ◌∙◌, inl, inr, true, false, not, ◌&&◌, ◌||◌, arith, ltb, ◌==◌,
  if◌then◌else◌, Bool-cases,
}
use peer_server.Base.Int.{pos, negsuc}
use peer_server.RecvWin.{seq_fit_in}
use peer_server.RecvWin.SlideAck.{IsValid, holds, Acked, slideack-Acked}
use peer_server.Packet.{Packet, get_data_len}
use peer_server.Platform.{Platform, World}
use peer_server.Download.{
  Download, Received, dl_measure, dl_offset, dl_answer, dl_accept, dl_recv, get_ack,
}
use peer_server.Download.Content.{IsData, got, Inv, Stored, window-IsValid, dl_store-Stored}

-- The first part of `dl_recv` leaves the data length at 1024 and the rest of the content alone.
record Measured (dl out : Download) : Type 0 where
  window : out.rwin ≡ dl.rwin
  buffer : out.buffer ≡ dl.buffer
  same : out.finished ≡ dl.finished
  len : out.data_length ≡ 1024

module _ (plat : Platform) {chunk : ℕ → ℕ} {pkt : Packet} (d : IsData chunk pkt) where
  measure-Measured :
      {dl : Download} (w : World) → Inv chunk dl → Measured dl (dl_measure plat dl pkt w).0
  measure-Measured {dl} w v = elim (Bool-cases (dl.started && not dl.block_update)) [
    | inl warm ↦
        unfold dl_measure in
        rw warm (record { window = refl; buffer = refl; same = refl; len = v.len (ground arith) })
    | inr cold ↦
        unfold dl_measure in
        rw cold (record { window = refl; buffer = refl; same = refl; len = d.len })
  ]

Measured-Inv : {chunk : ℕ → ℕ} {dl out : Download} → Inv chunk dl → Measured dl out → Inv chunk out
Measured-Inv {chunk} {dl} {out} v m = record {
  front_in = rw m.window v.front_in;
  lower = rw m.window v.lower;
  upper = rw m.window v.upper;
  top = rw m.window v.top;
  gap = rw m.window v.gap;
  len = λ h. m.len;
  bytes = rw (m.window, m.buffer) v.bytes;
  complete = rw (m.window, m.same) v.complete;
}

-- The third part: the window slides, and nothing is lost.
module _ (plat : Platform) {chunk : ℕ → ℕ} {pkt : Packet} (d : IsData chunk pkt) where
  module _ {dl mid : Download} (w : World) (v : Inv chunk dl) (run : dl.finished ≡ false)
      (s : Stored d dl mid) where
    abbrev out : Download
    out = (dl_answer plat mid w).0

    mid-IsValid : IsValid mid.rwin
    mid-IsValid =
        let valid = window-IsValid v in
        record { front_in = rw s.front valid.front_in; small = rw s.next valid.small }

    acked : Acked mid.rwin out.rwin
    unfolding dl_answer get_ack
    acked = slideack-Acked mid.rwin mid-IsValid

    top : (t : ℕ) → holds mid.rwin t ≡ true → t ≤ 512
    top t h = ground (arith, s.marks t, v.top t, d.last)

    pub got_kept : (t : ℕ) → got out t ≡ got mid t
    got_kept t = ground (arith, acked.rest t, acked.run t, acked.lower)

    upper : out.rwin.next_seq ≤ 513
    upper = ground (arith, acked.run 513, top 513, s.next, v.upper)

    lower : 1 ≤ out.rwin.next_seq
    lower = omega (arith, acked.lower, s.next, v.lower)

    pub out-Inv : Inv chunk out
    unfolding dl_answer get_ack
    out-Inv = record {
      front_in = acked.front_in;
      lower = lower;
      upper = upper;
      top = λ t h. ground (arith, acked.rest t, top t);
      gap = ground (arith, acked.rest out.rwin.next_seq, acked.stop);
      len = λ h. s.len;
      bytes = λ i h g. s.bytes i h (sym (got_kept (i / 1024 + 1)) ∙ g);
      complete = rw s.len (ground (arith, s.same, upper, lower));
    }

-- What `dl_recv` does with a packet of the chunk, while the download is not finished.
pub record Progress (chunk : ℕ → ℕ) (dl : Download) (pkt : Packet) (r : Received) : Type 0 where
  pub keeps : Inv chunk r.dl
  pub adds : (t : ℕ) → got r.dl t ≡ (t == pkt.seq || got dl t)
  pub answers : r.code ≡ (if ltb pkt.seq dl.rwin.next_seq then negsuc 0 else pos 0)

module _ (plat : Platform) {chunk : ℕ → ℕ} {pkt : Packet} (d : IsData chunk pkt) where
  module _ {dl : Download} (w : World) (v : Inv chunk dl) (run : dl.finished ≡ false) where
    fits :
        (data_length : dl.data_length ≡ 1024)
        → (not (seq_fit_in dl.rwin pkt.seq) || ltb 524288 (dl_offset dl pkt + get_data_len pkt))
          ≡ ltb pkt.seq dl.rwin.next_seq
    unfolding seq_fit_in dl_offset
    fits e = rw (e, d.len) (ground (arith, d.first, d.last, v.lower, v.upper))

    stale : ltb pkt.seq dl.rwin.next_seq ≡ true → (t : ℕ) → got dl t ≡ (t == pkt.seq || got dl t)
    stale old t = ground arith

    accept-Progress : dl.data_length ≡ 1024 → Progress chunk dl pkt (dl_accept plat (dl, w) pkt)
    accept-Progress e = elim (Bool-cases (ltb pkt.seq dl.rwin.next_seq)) [
      | inl old ↦
          unfold dl_accept in
          rw (fits e, old) (record { keeps = v; adds = stale old; answers = ground arith })
      | inr new ↦
          let stored = dl_store-Stored d v e (ground (arith, fits e)) in
          unfold dl_accept in
          rw (fits e, new)
            (record {
              keeps = out-Inv plat d w v run stored;
              adds = λ t.
                  got_kept plat d w v run stored t ∙ ground (arith, stored.marks t, stored.next);
              answers = ground arith;
            })
    ]

    running : dl_recv plat dl pkt w ≡ dl_accept plat (dl_measure plat dl pkt w) pkt
    unfolding dl_recv
    running = ground arith

  -- In an unfinished download that satisfies the invariant, a packet of the chunk keeps the
  -- invariant, adds its own number to those received and no other, and is refused with -1 exactly
  -- if all the numbers up to its own have been acknowledged.
  pub dl_recv-Progress :
      {dl : Download} (w : World)
      → Inv chunk dl
      → dl.finished ≡ false
      → Progress chunk dl pkt (dl_recv plat dl pkt w)
  dl_recv-Progress {dl} w v run =
      let m = measure-Measured plat d w v in
      let p =
        accept-Progress (dl_measure plat dl pkt w).1 (Measured-Inv v m) (m.same ∙ run) m.len in
      rw (running w v run) (record {
        keeps = p.keeps;
        adds = λ t. p.adds t ∙ rw m.window refl;
        answers = p.answers ∙ rw m.window refl;
      })

-- ===== src/Download/Content.antt =====
-- `dl_recv` against the set of the packets received: what the buffer holds, and when the chunk is
-- complete. The packets may come in any order, and any number of times.
use peer_server.Base.{
  ℕ, ◌+◌, ◌-◌, ◌*◌, ◌/◌, ◌≤◌, ◌<◌, ◌≡◌, refl, ap, ◌∙◌, inl, inr, Bool, true, false, ◌||◌, List,
  arith, ltb, ◌==◌, Bool-cases, ==_iff,
}
use peer_server.RecvWin.{RecvWin, seq_fit_in, seq_exist_in, recvwin_mark}
use peer_server.RecvWin.SlideAck.{IsValid, holds, mark-holds, init-holds}
use peer_server.Packet.{Packet, get_data_len, get_data}
use peer_server.Platform.{Platform, World}
use peer_server.Download.{Download, dl_init, dl_offset, dl_store, blit}

-- A packet of a sender that cuts the chunk into 512 pieces of 1024 bytes.
pub record IsData (chunk : ℕ → ℕ) (pkt : Packet) : Type 0 where
  pub first : 1 ≤ pkt.seq
  pub last : pkt.seq ≤ 512
  pub len : get_data_len pkt ≡ 1024
  pub bytes : (i : ℕ) → i < 1024 → get_data pkt i ≡ chunk ((pkt.seq - 1) * 1024 + i)

-- The packet with this number has been received.
abbrev pub got : Download → ℕ → Bool
got dl s = ltb s dl.rwin.next_seq || holds dl.rwin s

pub record Inv (chunk : ℕ → ℕ) (dl : Download) : Type 0 where
  pub front_in : dl.rwin.front < 1024
  pub lower : 1 ≤ dl.rwin.next_seq
  pub upper : dl.rwin.next_seq ≤ 513
  pub top : (s : ℕ) → holds dl.rwin s ≡ true → s ≤ 512
  pub gap : holds dl.rwin dl.rwin.next_seq ≡ false
  pub len : dl.started ≡ true → dl.data_length ≡ 1024
  pub bytes : (i : ℕ) → i < 524288 → got dl (i / 1024 + 1) ≡ true → dl.buffer i ≡ chunk i
  pub complete : dl.finished ≡ (513 == dl.rwin.next_seq)

pub window-IsValid : {chunk : ℕ → ℕ} {dl : Download} → Inv chunk dl → IsValid dl.rwin
window-IsValid v = record { front_in = v.front_in; small = omega (arith, v.upper) }

-- A fresh download has received nothing.
pub init-Inv :
    (chunk : ℕ → ℕ) (plat : Platform) (p_index get_index : ℕ) (filename : List ℕ) (w : World)
    → Inv chunk (dl_init plat p_index get_index filename w).0
unfolding dl_init
init-Inv chunk plat p_index get_index filename w = record {
  front_in = omega arith;
  lower = omega arith;
  upper = omega arith;
  top = λ s h. ground (arith, init-holds s);
  gap = init-holds 1;
  len = λ h. cc;
  bytes = λ i h g. ground (arith, init-holds (i / 1024 + 1));
  complete = refl;
}

next-mark : (rwin : RecvWin) (seq : ℕ) → (recvwin_mark rwin seq).next_seq ≡ rwin.next_seq
unfolding recvwin_mark
next-mark rwin seq = refl

module _ {chunk : ℕ → ℕ} {pkt : Packet} (d : IsData chunk pkt) where
  -- Storing the packet adds its number and its bytes, and moves nothing.
  pub record Stored (dl out : Download) : Type 0 where
    pub front : out.rwin.front ≡ dl.rwin.front
    pub next : out.rwin.next_seq ≡ dl.rwin.next_seq
    pub marks : (s : ℕ) → holds out.rwin s ≡ (s == pkt.seq || holds dl.rwin s)
    pub bytes : (i : ℕ) → i < 524288 → got out (i / 1024 + 1) ≡ true → out.buffer i ≡ chunk i
    pub len : out.data_length ≡ 1024
    pub same : out.finished ≡ dl.finished

  piece : (i : ℕ) → i / 1024 + 1 ≡ pkt.seq → get_data pkt (i - (pkt.seq - 1) * 1024) ≡ chunk i
  piece i e = d.bytes (i - (pkt.seq - 1) * 1024) (omega arith) ∙ ap chunk (omega arith)

  module _ {dl : Download} (v : Inv chunk dl) (e : dl.data_length ≡ 1024) where
    store_old :
        seq_fit_in dl.rwin pkt.seq ≡ true → seq_exist_in dl.rwin pkt.seq ≡ true → Stored dl dl
    store_old fit old = record {
      front = refl;
      next = refl;
      marks = λ s. elim (Bool-cases (s == pkt.seq)) [
        | inl same ↦ rw ((==_iff s pkt.seq).0 same) (ground arith)
        | inr other ↦ ground arith
      ];
      bytes = v.bytes;
      len = e;
      same = refl;
    }

    -- The handler after the copy and the mark.
    abbrev written : Download
    written = record dl {
      buffer = blit dl.buffer (dl_offset dl pkt) (get_data pkt) (get_data_len pkt);
      rwin = recvwin_mark dl.rwin pkt.seq;
    }

    marks_new :
        seq_fit_in dl.rwin pkt.seq ≡ true
        → (s : ℕ) → holds written.rwin s ≡ (s == pkt.seq || holds dl.rwin s)
    marks_new fit s = mark-holds pkt.seq s (window-IsValid v) fit

    offset : dl_offset dl pkt ≡ (pkt.seq - 1) * 1024
    unfolding dl_offset
    offset = rw e (omega (arith, d.first, d.last))

    bytes_new :
        seq_fit_in dl.rwin pkt.seq ≡ true
        → (i : ℕ) → i < 524288
        → got written (i / 1024 + 1) ≡ true
        → written.buffer i ≡ chunk i
    unfolding blit
    bytes_new fit i h g =
        rw (offset, d.len)
          (ground (
            arith,
            d.first,
            marks_new fit (i / 1024 + 1),
            next-mark dl.rwin pkt.seq,
            piece i,
            v.bytes i h,
          ))

    store_new : seq_fit_in dl.rwin pkt.seq ≡ true → Stored dl written
    unfolding recvwin_mark
    store_new fit = record {
      front = refl;
      next = refl;
      marks = marks_new fit;
      bytes = bytes_new fit;
      len = e;
      same = refl;
    }

    pub dl_store-Stored : seq_fit_in dl.rwin pkt.seq ≡ true → Stored dl (dl_store dl pkt)
    dl_store-Stored fit = elim (Bool-cases (seq_exist_in dl.rwin pkt.seq)) [
      | inl old ↦ unfold dl_store in rw old (store_old fit old)
      | inr new ↦ unfold dl_store in rw new (store_new fit)
    ]

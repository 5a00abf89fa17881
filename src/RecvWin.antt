-- ===== src/RecvWin.antt =====
-- src/recv_win.c and include/recv_win.h: the receive window, a rotating bitmap of 1024 bits.
-- A word of `bm` is its bit pattern, below 2 ^ 32; `bm` itself is a function of the word's index.
pub mod Bits
pub mod Bitmap
pub mod SlideAck
use Prim.Native.Nat.{bit_and, bit_or, bit_xor}
use peer_server.Base.{
  ℕ, zero, suc, ◌+◌, ◌/◌, ◌%◌, ◌^◌, Bool, true, false, not, ◌&&◌, ltb, leb, ◌==◌, if◌then◌else◌,
  add32, sub32, update,
}

abbrev pub recv_window_size : ℕ
recv_window_size = 1024

abbrev pub int_size : ℕ
int_size = 32

abbrev pub Bm : Type 0
Bm = ℕ → ℕ

-- BM_CLR, BM_SET, BM_UNSET (which flips the bit) and BM_ISSET.
unfoldable pub bm_clr : Bm
bm_clr w = 0

unfoldable pub bm_set : Bm → ℕ → Bm
bm_set bm i = update bm (i / int_size) (bit_or (bm (i / int_size)) (2 ^ (i % int_size)))

unfoldable pub bm_unset : Bm → ℕ → Bm
bm_unset bm i = update bm (i / int_size) (bit_xor (bm (i / int_size)) (2 ^ (i % int_size)))

unfoldable pub bm_isset : Bm → ℕ → Bool
bm_isset bm i = not (bit_and (bm (i / int_size)) (2 ^ (i % int_size)) == 0)

pub record RecvWin : Type 0 where
  pub bm : Bm
  pub front : ℕ
  pub next_seq : ℕ

-- The macro SEQ_IN_WIN: the bit of a sequence number, in `uint32_t` arithmetic.
unfoldable pub seq_in_win : ℕ → RecvWin → ℕ
seq_in_win seq rwin = add32 (sub32 seq rwin.next_seq) rwin.front % recv_window_size

unfoldable pub init_recvwin : RecvWin
unfolding bm_clr
init_recvwin = record { bm = bm_clr; front = 0; next_seq = 1 }

unfoldable pub seq_fit_in : RecvWin → ℕ → Bool
seq_fit_in rwin seq = leb rwin.next_seq seq && ltb seq (add32 rwin.next_seq recv_window_size)

unfoldable pub seq_exist_in : RecvWin → ℕ → Bool
seq_exist_in rwin seq = bm_isset rwin.bm (seq_in_win seq rwin)

unfoldable pub recvwin_mark : RecvWin → ℕ → RecvWin
recvwin_mark rwin seq = record rwin { bm = bm_set rwin.bm (seq_in_win seq rwin) }

pub record Slide : Type 0 where
  pub bits : Bm
  pub size : ℕ

-- The loop of `recvwin_slideack`, with the rounds that are left: it unsets the bits from `seq` on
-- until one is not set.
unfoldable pub slide_loop : ℕ → RecvWin → Bm → ℕ → ℕ → Slide
slide_loop zero rwin bm seq size = record { bits = bm; size = size }
slide_loop (suc left) rwin bm seq size =
    let i = seq_in_win seq rwin in
    let rest = slide_loop left rwin (bm_unset bm i) (add32 seq 1) (size + 1) in
    if bm_isset bm i then rest else record { bits = bm; size = size }

-- `seq` has grown by `size` when the loop ends.
unfoldable pub recvwin_slideack : RecvWin → RecvWin
recvwin_slideack rwin =
    let s = slide_loop recv_window_size rwin rwin.bm rwin.next_seq 0 in
    record {
      bm = s.bits;
      front = seq_in_win (add32 rwin.next_seq s.size) rwin;
      next_seq = add32 rwin.next_seq s.size;
    }

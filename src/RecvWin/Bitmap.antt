-- ===== src/RecvWin/Bitmap.antt =====
-- The laws of the bitmap macros over all words.
use Prim.Native.Nat.{bit_and-bitwise}
use peer_server.Base.{ℕ, ◌/◌, ◌%◌, ◌^◌, ◌≡◌, Bool, false, not, ◌||◌, arith, ◌==◌, if◌then◌else◌, ap}
use peer_server.RecvWin.{Bm, bm_clr, bm_set, bm_unset, bm_isset}
use peer_server.RecvWin.Bits.{bit, bit_and-pow, bit-bit_or, bit-bit_xor}

abbrev at : Bm → ℕ → Bool
at bm i = bit (bm (i / 32)) (i % 32)

bm_isset-at : (bm : Bm) (i : ℕ) → bm_isset bm i ≡ at bm i
unfolding bm_isset
bm_isset-at bm i = bit_and-pow (i % 32) (bm (i / 32))

pub isset-clr : (i : ℕ) → bm_isset bm_clr i ≡ false
unfolding bm_isset bm_clr
isset-clr i = rw (bit_and-bitwise 0 (2 ^ (i % 32)))

pub isset-set : (bm : Bm) (i j : ℕ) → bm_isset (bm_set bm i) j ≡ (j == i || bm_isset bm j)
unfolding bm_set
isset-set bm i j =
    rw (bm_isset-at (bm_set bm i) j, bm_isset-at bm j)
      (ground (arith, bit-bit_or (i % 32) (j % 32) (bm (i / 32)), ap bm))

pub isset-unset :
    (bm : Bm) (i j : ℕ)
    → bm_isset (bm_unset bm i) j ≡ (if j == i then not (bm_isset bm j) else bm_isset bm j)
unfolding bm_unset
isset-unset bm i j =
    rw (bm_isset-at (bm_unset bm i) j, bm_isset-at bm j)
      (ground (arith, bit-bit_xor (i % 32) (j % 32) (bm (i / 32))))

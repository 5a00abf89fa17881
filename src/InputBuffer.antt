-- ===== src/InputBuffer.antt =====
-- src/input_buffer.c: the lines that the user types.
pub mod Lines
pub mod Bytes
pub mod Handles
use peer_server.Base.{
  ℕ, zero, suc, ◌+◌, ◌-◌, Option, none, some, List, [], ◌∷◌, ltb, leb, ◌==◌, get_or, length,
  if◌then◌else◌, add32, sub32, update,
}
use peer_server.Packet.Encode.{read_bytes}

abbrev pub userbuf_size : ℕ
userbuf_size = 8191

-- `buf` has `userbuf_size + 1` bytes.
pub record UserIobuf : Type 0 where
  pub buf : ℕ → ℕ
  pub cur : ℕ

unfoldable pub create_userbuf : UserIobuf
create_userbuf = record { buf = λ i. 0; cur = 0 }

-- `read` at `buf + cur`; a failure and the end of the input change nothing.
unfoldable pub fill : UserIobuf → List ℕ → UserIobuf
fill b bytes = record {
  buf = λ i.
      if leb b.cur i
      then (if ltb i (b.cur + length bytes) then get_or bytes (i - b.cur) 0 else b.buf i)
      else b.buf i;
  cur = add32 b.cur (length bytes);
}

-- `strchr(buf, '\\n')` from `i` on, over `left` bytes at most.
unfoldable pub find_newline : (ℕ → ℕ) → ℕ → ℕ → Option ℕ
find_newline buf zero i = none
find_newline buf (suc left) i =
    let rest = find_newline buf left (i + 1) in
    if buf i == 10 then some i else if buf i == 0 then none else rest

-- The buffer once the line that ends at `off` is cut off: its end becomes a NUL, then `memmove`.
unfoldable pub shift : UserIobuf → ℕ → UserIobuf
shift b off =
    let buf = update b.buf off 0 in
    record {
      buf = λ i. if ltb i (userbuf_size - off) then buf (off + 1 + i) else buf i;
      cur = sub32 b.cur (off + 1);
    }

-- The lines that `handle_line` was called with, in order.
pub record Handled : Type 0 where
  pub lines : List (List ℕ)
  pub userbuf : UserIobuf

-- One more line in front.
unfoldable pub after_line : List ℕ → Option Handled → Option Handled
after_line line none = none
after_line line (some h) = some (record h { lines = line ∷ h.lines })

-- The loop, for `fuel` rounds at most.
unfoldable pub handle_lines : ℕ → UserIobuf → Option Handled
handle_lines zero b = none
handle_lines (suc fuel) b = elim (find_newline b.buf (userbuf_size + 1) 0) [
  | none ↦ some (record { lines = []; userbuf = b })
  | some off ↦ after_line (read_bytes b.buf 0 off) (handle_lines fuel (shift b off))
]

-- `none` also stands for the exit on a full buffer. `bytes` are what `read` has put in the buffer.
unfoldable pub process_user_input : ℕ → UserIobuf → List ℕ → Option Handled
process_user_input fuel b bytes =
    if leb (userbuf_size - 1) b.cur then none else handle_lines fuel (fill b bytes)

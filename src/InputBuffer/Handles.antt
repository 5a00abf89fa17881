-- ===== src/InputBuffer/Handles.antt =====
-- The lines that the buffer hands over.
use native.Mathlib.Nat.{zero-add}
use peer_server.Base.{
  ℕ, zero, suc, ◌+◌, ◌≤◌, ◌<◌, ◌≡◌, refl, inl, inr, false, ◌||◌, Option, none, some, List, [], ◌∷◌,
  ◌++◌, arith, leb, length, length-append,
}
use peer_server.InputBuffer.{
  UserIobuf, fill, find_newline, shift, Handled, after_line, handle_lines, process_user_input,
}
use peer_server.InputBuffer.Bytes.{
  Holds, find_newline-none, find_newline-some, bytes-line, shift-Holds, fill-Holds,
}
use peer_server.InputBuffer.Lines.{has_byte, split_lines, split-line, split-none, first_line}
use peer_server.Packet.Encode.{read_bytes}

has-append : (c : ℕ) (xs ys : List ℕ) → has_byte c (xs ++ ys) ≡ (has_byte c xs || has_byte c ys)
has-append c [] ys = refl
has-append c (x ∷ xs) ys = ground (arith, has-append c xs ys)

-- What the rounds of the loop leave and hand over.
pub record Handles (xs : List ℕ) (o : Option Handled) : Type 0 where
  pub out : Handled
  pub ends : o ≡ some out
  pub lines : out.lines ≡ (split_lines xs).lines
  pub rest : Holds out.userbuf (split_lines xs).rest

handle_stop :
    (fuel : ℕ) (b : UserIobuf)
    → find_newline b.buf 8192 0 ≡ none
    → handle_lines (suc fuel) b ≡ some (record { lines = []; userbuf = b })
unfolding handle_lines
handle_stop fuel b e = rw (handle_lines, e) refl

handle_more :
    (fuel off : ℕ) (b : UserIobuf)
    → find_newline b.buf 8192 0 ≡ some off
    → handle_lines (suc fuel) b
      ≡ after_line (read_bytes b.buf 0 off) (handle_lines fuel (shift b off))
unfolding handle_lines
handle_more fuel off b e = rw (handle_lines, e) refl

module _ (b : UserIobuf) (line rest : List ℕ) where
  more-Handles :
      (o : Option Handled)
      → has_byte 10 line ≡ false
      → Handles rest o
      → Handles (line ++ 10 ∷ rest) (after_line line o)
  unfolding after_line
  more-Handles o clean h =
      let s = split-line line rest clean in
      record {
        out = record (h.out) { lines = line ∷ h.out.lines };
        ends = rw (h.ends) refl;
        lines = rw (s, h.lines) refl;
        rest = rw s h.rest;
      }

handle_lines-Handles :
    (fuel : ℕ) (b : UserIobuf) (xs : List ℕ)
    → Holds b xs
    → has_byte 0 xs ≡ false
    → length xs ≤ 4095
    → length xs < fuel
    → Handles xs (handle_lines fuel b)
handle_lines-Handles zero b xs v z l f = absurd (omega arith)
handle_lines-Handles (suc fuel) b xs v z l f = elim (first_line xs) [
  | inl none_left ↦
      let e = find_newline-none b.buf 8192 0 xs (λ k h. rw (zero-add k) (v.bytes k h)) none_left in
      let s = split-none xs none_left in
      rw (handle_stop fuel b e) (record {
        out = record { lines = []; userbuf = b };
        ends = refl;
        lines = rw s refl;
        rest = rw s v;
      })
  | inr p ↦
      let w = rw (p.parts) at v in
      let n = rw (p.parts) at l in
      let m = length-append p.line (10 ∷ p.rest) in
      let y = has-append 0 p.line (10 ∷ p.rest) in
      let q = rw (p.parts) at z in
      let e =
        find_newline-some b.buf 8192 0 p.line p.rest (λ k h. rw (zero-add k) (w.bytes k h)) p.clean
          (ground arith) (omega arith) in
      let same =
        bytes-line b.buf 0 p.line (10 ∷ p.rest)
          (λ k h. rw (zero-add k) (w.bytes k (omega arith))) in
      rw (p.parts, handle_more fuel _ b e, zero-add (length p.line), same)
        (more-Handles b p.line p.rest _ p.clean (
          handle_lines-Handles fuel _ p.rest (shift-Holds b p.line p.rest w (omega arith))
            (ground arith) (omega arith) (omega arith)))
]

-- The buffer holds a text; with what `read` adds it has no NUL and at most 4095 bytes, and the
-- rounds outnumber these. Then `process_user_input` ends: `handle_line` gets exactly the complete
-- lines of the whole text, in order, and the buffer holds the rest behind the last newline.
pub process_user_input-Handles :
    (fuel : ℕ) (b : UserIobuf) (text bytes : List ℕ)
    → Holds b text
    → has_byte 0 (text ++ bytes) ≡ false
    → length text + length bytes ≤ 4095
    → length text + length bytes < fuel
    → Handles (text ++ bytes) (process_user_input fuel b bytes)
unfolding process_user_input
process_user_input-Handles fuel b text bytes v z l f =
    let n = length-append text bytes in
    let room : leb 8190 b.cur ≡ false = ground (arith, v.cur) in
    rw room (
      handle_lines-Handles fuel (fill b bytes) (text ++ bytes)
        (fill-Holds b text bytes v (omega arith)) z (omega arith) (omega arith))

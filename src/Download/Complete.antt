-- ===== src/Download/Complete.antt =====
-- A whole download: packets of the chunk in any order, lost or repeated, from `dl_init` on.
use peer_server.Base.{
  ℕ, ◌≤◌, ◌<◌, ◌≡◌, refl, ◌∙◌, inl, inr, Bool, true, false, ◌||◌, List, [], ◌∷◌, arith, ◌==◌,
  Bool-cases,
}
use peer_server.RecvWin.SlideAck.{init-holds}
use peer_server.Packet.{Packet}
use peer_server.Platform.{Platform, World}
use peer_server.Download.{Download, dl_init, dl_recv, chunk_size}
use peer_server.Download.Content.{IsData, got, Inv, init-Inv}
use peer_server.Download.Recv.{dl_recv-Progress}

-- The packets that the handler is called with, one after the other.
pub recv_all : Platform → Download → List Packet → World → Download
recv_all plat dl [] w = dl
recv_all plat dl (pkt ∷ pkts) w = let r = dl_recv plat dl pkt w in recv_all plat r.dl pkts r.world

-- A packet with this number is among them.
abbrev pub has_seq : ℕ → List Packet → Bool
has_seq t [] = false
has_seq t (pkt ∷ pkts) = t == pkt.seq || has_seq t pkts

abbrev pub AllData : (ℕ → ℕ) → List Packet → Type 0
AllData chunk [] = Unit {0}
AllData chunk (pkt ∷ pkts) = IsData chunk pkt × AllData chunk pkts

-- What one call does, finished or not.
pub record Step (chunk : ℕ → ℕ) (dl : Download) (pkt : Packet) (out : Download) : Type 0 where
  pub keeps : Inv chunk out
  pub adds : (t : ℕ) → got out t ≡ (t == pkt.seq || got dl t)

finished_stays :
    (plat : Platform) (dl : Download) (pkt : Packet) (w : World)
    → dl.finished ≡ true
    → (dl_recv plat dl pkt w).dl ≡ dl
unfolding dl_recv
finished_stays plat dl pkt w e = ground arith

module _ (plat : Platform) {chunk : ℕ → ℕ} where
  -- Every call with a packet of the chunk, on a finished download too, adds its number to those
  -- received and no other.
  pub dl_recv-Step :
      {dl : Download} {pkt : Packet} (w : World)
      → IsData chunk pkt
      → Inv chunk dl
      → Step chunk dl pkt (dl_recv plat dl pkt w).dl
  dl_recv-Step {dl} {pkt} w d v = elim (Bool-cases dl.finished) [
    | inl done ↦
        rw (finished_stays plat dl pkt w done)
          (record { keeps = v; adds = λ t. ground (arith, v.complete, d.first, d.last) })
    | inr run ↦ let p = dl_recv-Progress plat d w v run in record { keeps = p.keeps; adds = p.adds }
  ]

  recv_all-Inv :
      (pkts : List Packet) {dl : Download} (w : World)
      → AllData chunk pkts
      → Inv chunk dl
      → Inv chunk (recv_all plat dl pkts w)
        × ((t : ℕ) → got (recv_all plat dl pkts w) t ≡ (has_seq t pkts || got dl t))
  unfolding recv_all
  recv_all-Inv [] w d v = (v, λ t. refl)
  recv_all-Inv (pkt ∷ pkts) {dl} w d v =
      let s = dl_recv-Step w d.0 v in
      let rest = recv_all-Inv pkts (dl_recv plat dl pkt w).world d.1 s.keeps in
      (rest.0, λ t. ground (arith, rest.1 t, s.adds t))

all_got :
    {chunk : ℕ → ℕ} {dl : Download}
    → Inv chunk dl
    → ((t : ℕ) → 1 ≤ t → t ≤ 512 → got dl t ≡ true)
    → dl.rwin.next_seq ≡ 513
all_got {chunk} {dl} v h = ground (arith, v.gap, v.lower, v.upper, h dl.rwin.next_seq)

-- A finished download of the chunk holds it, byte for byte.
pub finished-content :
    {chunk : ℕ → ℕ} {dl : Download}
    → Inv chunk dl
    → dl.finished ≡ true
    → (i : ℕ) → i < chunk_size
    → dl.buffer i ≡ chunk i
finished-content v e i h = v.bytes i h (ground (arith, v.complete))

module _ (plat : Platform) (chunk : ℕ → ℕ) (p_index get_index : ℕ) (filename : List ℕ) where
  fresh_got :
      (t : ℕ) → 1 ≤ t → (w : World) → got (dl_init plat p_index get_index filename w).0 t ≡ false
  unfolding dl_init
  fresh_got t h w = ground (arith, init-holds t)

  -- From `dl_init` on, whatever packets of the chunk come, in any order and any number of times:
  -- if every number from 1 to 512 is among them the download is finished, if one is not it isn't,
  -- and a finished download holds the chunk, byte for byte.
  pub download_lem :
      (pkts : List Packet) (w : World)
      → AllData chunk pkts
      → let (dl, w') = dl_init plat p_index get_index filename w in
        let out = recv_all plat dl pkts w' in
        (((t : ℕ) → 1 ≤ t → t ≤ 512 → has_seq t pkts ≡ true) → out.finished ≡ true)
        × ((t : ℕ) → 1 ≤ t → t ≤ 512 → has_seq t pkts ≡ false → out.finished ≡ false)
        × (out.finished ≡ true → (i : ℕ) → i < chunk_size → out.buffer i ≡ chunk i)
  download_lem pkts w d =
      let fresh = init-Inv chunk plat p_index get_index filename w in
      let r = recv_all-Inv plat pkts (dl_init plat p_index get_index filename w).1 d fresh in
      (
        λ all. ground (arith, r.0.complete, all_got r.0 (λ t a b. r.1 t ∙ rw (all t a b))),
        λ t a b lost. ground (arith, r.0.complete, r.1 t, fresh_got t a w),
        finished-content r.0,
      )

-- ===== src/Server/Genuine.antt =====
-- The output file of a download: what `dl_save_buffer` writes, and where.
use mathlib.Core.List.{Memᴰ}
use mathlib.Core.List.Memᴰ
use mathlib.Core.Path.{subst}
use peer_server.Base.{
  length, ltb, ◌≤◌, ◌%◌, ◌∷◌, ℕ, ◌*◌, ◌<◌, ◌≡◌, refl, sym, ap, ◌∙◌, true, false, not, arith, if_ind,
  inl, inr, Bool-cases, ◌==◌, take, if◌then◌else◌,
}
use peer_server.Base.Int.{pos, mul_int, pred}
use peer_server.Chunk.{binary2hex}
use peer_server.Chunklist.{ChunkList, str_eq, is_fetched}
use peer_server.Platform.{Platform, World, Saved, tick}
use peer_server.Download.{Download, chunk_size}
use peer_server.Server.{PeerServer, set_peer, set_state}
use peer_server.Server.Transfer.{saved_chunk, write_chunk, dl_save_buffer, check_hash_succeed}
use peer_server.Server.Handle.{end_download}
use peer_server.Server.Downloads.{state, index}
use peer_server.Server.Leaves.{Leaves, chunks-Leaves, put_back-Leaves}

-- A list of chunks whose ids and hashes are in range: the offsets of the chunks are `int`s, and the
-- hashes fit their array.
pub record Fits (list : ChunkList) : Type 0 where
  pub id : (c : ℕ) → c < list.count → (k : ℕ) × ((list.chunks c).id ≡ pos k) × (k < 4096)
  pub sha1 : (c : ℕ) → c < list.count → length (list.chunks c).sha1 ≤ 40

-- The bytes have the digest that line `c` of the list asks for, and their place in the file is that
-- of the line's id, in chunks.
pub record Holds (plat : Platform) (list : ChunkList) (c : ℕ) (x : Saved) : Type 0 where
  pub id : ℕ
  pub id_eq : (list.chunks c).id ≡ pos id
  pub place : x.offset ≡ pos (id * chunk_size)
  pub digest :
      str_eq (take 40 (binary2hex (plat.sha1 x.bytes chunk_size))) (take 40 (list.chunks c).sha1)
      ≡ true

-- The lines of `getchunks` are those of the list; each call of `write` was one for a chunk of the
-- list, at its place, and what is marked as fetched was written whole.
pub record IsGenuine (plat : Platform) (list : ChunkList) (s : PeerServer) : Type 0 where
  pub count_eq : s.getchunks.count ≡ list.count
  pub sha1_eq : (c : ℕ) → (s.getchunks.chunks c).sha1 ≡ (list.chunks c).sha1
  pub id_eq : (c : ℕ) → (s.getchunks.chunks c).id ≡ (list.chunks c).id
  pub written :
      (x : Saved) → Memᴰ x s.world.saved → (c : ℕ) × (c < list.count) × Holds plat list c x
  pub complete :
      (c : ℕ)
      → c < list.count
      → is_fetched (state s c) ≡ true
      → (x : Saved) × Memᴰ x s.world.saved × (x.size ≡ chunk_size) × Holds plat list c x

-- Seeking in the output file does not fail, to an offset that is not negative.
abbrev pub Seeks : Platform → Type 0
Seeks plat = (k offset : ℕ) → plat.lseek k (pos offset) ≡ true

module _ (plat : Platform) (list : ChunkList) where
  pub Leaves-IsGenuine :
      {s t : PeerServer} → Leaves s t → IsGenuine plat list s → IsGenuine plat list t
  Leaves-IsGenuine {s} {t} e v = record {
    count_eq = e.count_eq ∙ v.count_eq;
    sha1_eq = λ c. e.sha1_eq c ∙ v.sha1_eq c;
    id_eq = λ c. e.id_eq c ∙ v.id_eq c;
    written = λ x m. v.written x (subst (Memᴰ x) e.saved_eq m);
    complete = λ c h f.
        let fetched_before : is_fetched (state s c) ≡ true =
          elim (Bool-cases (is_fetched (state s c))) [
            | inl y ↦ y
            | inr n ↦ let m = e.unfetched_eq c n in cc
          ] in
        let (x, m, whole, a) = v.complete c h fetched_before in
        (x, subst (Memᴰ x) (sym e.saved_eq) m, whole, a);
  }

  -- One more call of `write`.
  wrote-IsGenuine :
      (s : PeerServer) (c : ℕ) (x : Saved) (w : World)
      → w.saved ≡ x ∷ s.world.saved
      → c < list.count
      → Holds plat list c x
      → IsGenuine plat list s
      → IsGenuine plat list (record s { world = w })
  wrote-IsGenuine s c x w e h a v = record {
    count_eq = v.count_eq;
    sha1_eq = v.sha1_eq;
    id_eq = v.id_eq;
    written = λ y m. elim (Memᴰ.cases_cons (subst (Memᴰ y) e m)) [
      | inl q ↦ (c, h, subst (Holds plat list c) (sym q) a)
      | inr n ↦ v.written y n
    ];
    complete = λ d g f.
        let (y, m, whole, b) = v.complete d g f in
        (y, subst (Memᴰ y) (sym e) (Memᴰ.tail m), whole, b);
  }

  -- A chunk that was written whole is marked.
  saved-IsGenuine :
      (s : PeerServer) (dl : Download) (x : Saved)
      → Memᴰ x s.world.saved
      → x.size ≡ chunk_size
      → Holds plat list dl.get_index x
      → IsGenuine plat list s
      → IsGenuine plat list (saved_chunk s dl s.world)
  unfolding saved_chunk set_state
  saved-IsGenuine s dl x mem whole a v = record {
    count_eq = v.count_eq;
    sha1_eq = λ c.
        ground
          (arith, v.sha1_eq c, ap (λ k. (s.getchunks.chunks k).sha1) {x = c} {y = dl.get_index});
    id_eq = λ c.
        ground (arith, v.id_eq c, ap (λ k. (s.getchunks.chunks k).id) {x = c} {y = dl.get_index});
    written = v.written;
    complete = λ c g f. elim (Bool-cases (c == dl.get_index)) [
      | inl y ↦
          let here : dl.get_index ≡ c = ground arith in
          (x, mem, whole, subst (λ k. Holds plat list k x) here a)
      | inr n ↦
          let before : is_fetched (state s c) ≡ true = ground (arith, f, n) in v.complete c g before
    ];
  }

  place_lem : (k : ℕ) → k < 4096 → mul_int (pos k) chunk_size ≡ pos (k * chunk_size)
  place_lem k h =
      let small : k * 524288 % 4294967296 ≡ k * 524288 = omega (arith, h) in
      let low : ltb (k * 524288) 2147483648 ≡ true = ground (arith, h) in rw (small, low) refl

  save-IsGenuine :
      Seeks plat
      → Fits list
      → (s : PeerServer) (dl : Download) → dl.get_index < list.count
      → check_hash_succeed plat s dl ≡ true
      → IsGenuine plat list s
      → IsGenuine plat list (dl_save_buffer plat s dl)
  unfolding dl_save_buffer write_chunk check_hash_succeed tick saved_chunk set_state
  save-IsGenuine seeks fits s dl h d v =
      let c = dl.get_index in
      let (k, e, low) = fits.id c h in
      let line : (s.getchunks.chunks c).id ≡ pos k = v.id_eq c ∙ e in
      let offset = mul_int (s.getchunks.chunks c).id chunk_size in
      let size = plat.write (tick (tick s.world)).calls in
      let where_to : offset ≡ pos (k * chunk_size) = rw line (place_lem k low) in
      let led = if plat.lseek (tick s.world).calls offset then offset else pos 0 in
      let x : Saved = record { offset = led; size = size; bytes = dl.buffer } in
      let holds : Holds plat list c x = record {
        id = k;
        id_eq = e;
        place = rw (where_to, seeks (tick s.world).calls (k * chunk_size)) refl;
        digest = rw (v.sha1_eq c) at d;
      } in
      let w = write_chunk plat offset dl.buffer s.world in
      let wrote = wrote-IsGenuine s c x w refl h holds v in
      if_ind (IsGenuine plat list) (not (plat.open_file s.world.calls)) _ _
        (λ e. Leaves-IsGenuine (chunks-Leaves refl refl) v)
        (λ e.
          if_ind (IsGenuine plat list) (size == chunk_size) (saved_chunk s dl w)
            (record s { world = w })
            (λ f.
              saved-IsGenuine (record s { world = w }) dl x (Memᴰ.head refl) (ground arith) holds
                wrote)
            (λ f. wrote))

  pub end_download-IsGenuine :
      Seeks plat
      → Fits list
      → (s : PeerServer) (i : ℕ) → index s i < list.count
      → IsGenuine plat list s
      → IsGenuine plat list (end_download plat s i)
  unfolding end_download set_peer
  end_download-IsGenuine seeks fits s i h v =
      let dl = (s.peers i).dl in
      let freed = record (set_peer s i (record (s.peers i) { is_downloading = false })) {
        dl_num = pred s.dl_num;
      } in
      let v' : IsGenuine plat list freed = Leaves-IsGenuine (chunks-Leaves refl refl) v in
      Leaves-IsGenuine (put_back-Leaves _ dl.get_index) (
        if_ind (IsGenuine plat list) (check_hash_succeed plat freed dl) _ freed
          (λ d. save-IsGenuine seeks fits freed dl h d v') (λ d. v'))

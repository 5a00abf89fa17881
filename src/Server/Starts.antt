-- ===== src/Server/Starts.antt =====
-- The start of the program: what a successful `peer_init` ends in, `main` brings to the loop.
use mathlib.Core.Path.{subst}
use peer_server.Base.{
  Bool, true, false, if◌then◌else◌, ap, ◌≡◌, refl, ◌&&◌, not, Option, none, some, ◌==◌, if_ind,
}
use peer_server.Base.Int.{pos}
use peer_server.Chunklist.{ChunkList, parse_chunk}
use peer_server.Platform.{Platform, World}
use peer_server.Util.{get_timestamp_now}
use peer_server.InputBuffer.{create_userbuf}
use peer_server.BtParse
use peer_server.BtParse.{
  Outcome, returns, exits, breaks, undefined, and_then, bt_init, bt_parse_command_line,
}
use peer_server.Server.{PeerServer}
use peer_server.Server.Init.{BtConfig, init_peerlist, set_counters, peer_init, is_defined}
use peer_server.Server.Main.{Program, Setup, psvr_config, main}

pub some_inj {ℓ} : {A : Type ℓ} {a b : A} → some a ≡ some b → a ≡ b
some_inj {a} e = ap (λ o. elim o [ none ↦ a | some x ↦ x ]) e

returned : {p q : Program} → returns p ≡ returns q → p ≡ q
returned {p} e = ap (λ o. elim o [ returns x ↦ x | exits c ↦ p | breaks ↦ p | undefined ↦ p ]) e

module _ (plat : Platform) (P : PeerServer → Type 0)
    (fresh : (config : BtConfig) (s : PeerServer) (w : World) (haschunks : ChunkList)
      → P (
          set_counters
            (record (init_peerlist s config.peers config.identity) { world = w })
            config
            haschunks)) where
  abbrev Fresh : Option PeerServer → Type 0
  Fresh o = (t : PeerServer) → o ≡ some t → P t

  none-Fresh : Fresh none
  none-Fresh t e = cc

  counters-Fresh :
      (config : BtConfig) (s : PeerServer) (w : World) (r : Option ChunkList)
      → Fresh (elim r [
        | none ↦ none
        | some haschunks ↦ some (
            set_counters
              (record (init_peerlist s config.peers config.identity) { world = w })
              config
              haschunks)
      ])
  counters-Fresh config s w none = none-Fresh
  counters-Fresh config s w (some haschunks) =
      λ t e. subst P (some_inj e) (fresh config s w haschunks)

  pub peer_init-Fresh : (config : BtConfig) (s : PeerServer) → Fresh (peer_init plat config s)
  unfolding peer_init
  peer_init-Fresh config s =
      if_ind Fresh ((get_timestamp_now plat s.world).0 == 0) _ _ (λ e. none-Fresh)
        (λ e.
          if_ind Fresh (not (plat.open_file _)) _ _ (λ e. none-Fresh)
            (λ e.
              if_ind Fresh (not (plat.open_file _)) _ _ (λ e. none-Fresh)
                (λ e.
                  if_ind Fresh (not s.world.no_output && not (plat.open_file _)) _ _
                    (λ e. none-Fresh)
                    (λ e. counters-Fresh config s _ (parse_chunk s.haschunks config.has_chunks)))))

  start-Fresh :
      (config : BtConfig) (s : PeerServer) (p : Program) (o : Option PeerServer)
      → peer_init plat config s ≡ o
      → elim o [
        | none ↦ exits (pos 0)
        | some started ↦ returns (record { psvr = started; userbuf = create_userbuf })
      ]
        ≡ returns p
      → P p.psvr
  start-Fresh config s p none e d = cc
  start-Fresh config s p (some t) e d =
      subst (λ r. P r.psvr) (returned d) (peer_init-Fresh config s t e)

  pub main-Fresh :
      (setup : Setup) (psvr : PeerServer) (p : Program)
      → main plat setup psvr ≡ returns p
      → P p.psvr
  unfolding main
  main-Fresh setup psvr p e =
      parsed
        (bt_parse_command_line setup.atoi setup.sscanf setup.gethostbyname setup.peer_files
          setup.fields setup.options bt_init)
        e
    where
      start : BtParse.BtConfig → Outcome Program
      start c =
          let config = psvr_config setup c in
          let s = record psvr { world = record (psvr.world) { no_output = c.no_output } } in
          if is_defined config setup.master_line s
          then elim (peer_init plat config s) [
            | none ↦ exits (pos 0)
            | some started ↦ returns (record { psvr = started; userbuf = create_userbuf })
          ]
          else undefined

      begun :
          (b : Bool) (config : BtConfig) (s : PeerServer)
          → (if b
              then (elim (peer_init plat config s) [
                | none ↦ exits (pos 0)
                | some started ↦ returns (record { psvr = started; userbuf = create_userbuf })
              ])
              else undefined)
            ≡ returns p
          → P p.psvr
      begun true config s d = start-Fresh config s p _ refl d
      begun false config s d = cc

      parsed : (o : Outcome BtParse.BtConfig) → and_then o start ≡ returns p → P p.psvr
      parsed (exits code) d = cc
      parsed breaks d = cc
      parsed undefined d = cc
      parsed (returns c) d = begun (is_defined (psvr_config setup c) setup.master_line _) _ _ d

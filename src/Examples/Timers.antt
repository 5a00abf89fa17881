-- ===== src/Examples/Timers.antt =====
-- The first peer of the server goes silent.
use peer_server.Base.{refl, some, arith}
use peer_server.Platform.{Platform}
use peer_server.Util.{milliseconds, get_timestamp_now}
use peer_server.Download.{dl_init}
use peer_server.Server.{PeerServer}
use peer_server.Server.Refresh.{time_peer}
use peer_server.Server.Silent.{Waits, GivenUp, Due, Rounds, done, check, silent_peer_ends}
use peer_server.Examples.Samples.{sample_platform, sample_server, sample_world}

-- A clock that goes on by one second from a call to the next, and a peer whose download has timed
-- out five times.
abbrev ticking : Platform
ticking = record sample_platform { gettimeofday = λ n. some (n, 0) }

abbrev server : PeerServer
server = record sample_server {
  peers = λ i. record (sample_server.peers i) {
    dl = record ((sample_server.peers i).dl) { timeout_cnt = 5 };
  };
  world = record sample_world { calls = 60 };
}

server-Waits : Waits ticking 5 server 0
unfolding dl_init get_timestamp_now
server-Waits = record {
  alive = refl;
  downloads = refl;
  uploads = refl;
  unfinished = refl;
  count = refl;
}

server-Due : Due ticking server 0
unfolding milliseconds dl_init get_timestamp_now
server-Due = record { late = omega arith }

-- One check, and then seven more calls of the clock.
abbrev later : PeerServer
later = record (time_peer ticking server 0) { world = record sample_world { calls = 70 } }

rounds : Rounds ticking 0 1 server later
rounds = check server-Due refl done

silent_peer_ends_example : GivenUp ticking later 0
silent_peer_ends_example =
    (silent_peer_ends ticking 0 5 rounds (omega arith) server-Waits).1 (omega arith)

-- ===== src/Examples/Uploads.antt =====
-- Uploads at concrete inputs.
use peer_server.Base.{ℕ, ◌+◌, ◌∷◌, ◌≡◌, refl, true, false, max, leb, arith}
use peer_server.Base.Int.{pos}
use peer_server.Platform.{tick}
use peer_server.Util.{milliseconds, get_timestamp_now}
use peer_server.Upload.{Upload, fresh_upload, data_param, ul_send}
use peer_server.Upload.Control.{ul_handle_ack, ul_check_timeout}
use peer_server.Upload.Valid.{IsValid, ul_handle_ack-IsValid, ul_check_timeout-IsValid}
use peer_server.Upload.Send.{ClockRuns, sent_from, allowed, ul_send_lem}
use peer_server.Upload.Resend.{ul_check_timeout-resends}
use peer_server.Upload.Congestion.{ack_moves, ul_handle_ack-moves}
use peer_server.Upload.Progress.{Uncounted, new_ack_taken}
use peer_server.Examples.Samples.{sample_platform, sample_world, sample_upload}

clock-runs : ClockRuns sample_platform
unfolding milliseconds
clock-runs n = omega arith

upload-IsValid : IsValid sample_upload
unfolding fresh_upload
upload-IsValid = ground arith

upload_runs : sample_upload.finished ≡ false
unfolding fresh_upload
upload_runs = refl

upload-Uncounted : Uncounted sample_upload
unfolding fresh_upload
upload-Uncounted a h = refl

-- The window allows packets 11 and 12.
ul_send_lem_example :
    let out = ul_send sample_platform sample_upload sample_world in
    (out.good ≡ true)
    × (out.world.sent
        ≡ sent_from (data_param sample_upload) (10 + 1) (allowed sample_upload) sample_world.sent)
    × (out.ul.last_pkt_sent ≡ 10 + allowed sample_upload)
    × (out.ul.max_pkt_sent ≡ max 10 (10 + allowed sample_upload))
ul_send_lem_example =
    ul_send_lem sample_platform clock-runs sample_upload sample_world upload-IsValid (omega arith)

ul_handle_ack-IsValid_example :
    IsValid (ul_handle_ack sample_platform sample_upload 10 sample_world).0
ul_handle_ack-IsValid_example =
    ul_handle_ack-IsValid sample_platform sample_upload 10 sample_world upload-IsValid

ul_check_timeout-IsValid_example :
    IsValid (ul_check_timeout sample_platform sample_upload sample_world).ul
ul_check_timeout-IsValid_example =
    ul_check_timeout-IsValid sample_platform sample_upload sample_world upload-IsValid

ul_handle_ack-moves_example :
    ack_moves sample_upload.status
      (ul_handle_ack sample_platform sample_upload 10 sample_world).0.status
    ≡ true
ul_handle_ack-moves_example = ul_handle_ack-moves sample_platform sample_upload 10 sample_world

new_ack_taken_example :
    let out = (ul_handle_ack sample_platform sample_upload 10 sample_world).0 in
    (out.last_pkt_acked ≡ 10) × (out.timeout_cnt ≡ 0) × (out.finished ≡ leb 512 10)
new_ack_taken_example =
    new_ack_taken sample_platform sample_upload 10 sample_world upload-IsValid upload_runs
      (omega arith) (omega arith) (omega arith) upload-Uncounted (omega arith)

-- The same upload after `n` copies of ack 8.
abbrev after_copies : ℕ → Upload
after_copies n = record sample_upload { ack_cnt = λ a. pos n }

-- The timer of packet 9 ran out long ago, so it is sent again.
abbrev late_upload : Upload
late_upload = record sample_upload { seq_timeout = λ i. 1 }

late-IsValid : IsValid late_upload
unfolding fresh_upload
late-IsValid = ground arith

ul_check_timeout-resends_example :
    let out = ul_check_timeout sample_platform late_upload sample_world in
    (out.world.sent ≡ data_param late_upload 9 ∷ sample_world.sent) × (out.ul.last_pkt_sent ≡ 9)
unfolding get_timestamp_now milliseconds tick fresh_upload
ul_check_timeout-resends_example =
    ul_check_timeout-resends sample_platform clock-runs late_upload sample_world late-IsValid

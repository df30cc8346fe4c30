-- ===== src/Rtsp/Sdp/Tests.antt =====
-- A session description at an input that exercises the code.
use stream_sight.Base.{◌≡◌, ◌≢◌, ◌<◌, arith, true, none, some, [], length, ◌==◌, if◌then◌else◌}
use stream_sight.Rtsp.Sdp.{Description, h264_source, get_sdp_message, aac_config, printed_config}
use stream_sight.Rtsp.Sdp.Laws.{get_sdp_message_lem, printed_config-right}
use stream_sight.Text.{codes}

abbrev one_video : Description
one_video = record {
  sdp = [];
  media_sources = λ chn. if chn == 0 then some h264_source else none;
  is_multicast = true;
  multicast_ip = codes "232.1.2.3";
  multicast_port = λ chn. 6000;
}

get_sdp_message_lem_example :
    let (d', text) = get_sdp_message 1700000000 (codes "10.0.0.2") (codes "v1") one_video in
    (length text < 2048)
    × (d'.sdp ≡ text)
    × (text ≢ [] → get_sdp_message 1800000000 (codes "10.0.0.9") [] d' ≡ (d', text))
get_sdp_message_lem_example =
    get_sdp_message_lem 1700000000 1800000000 (codes "10.0.0.2") (codes "10.0.0.9") (codes "v1") []
      one_video (omega arith)

printed_config-right_example : printed_config 3 2 ≡ aac_config 3 2
printed_config-right_example = printed_config-right 3 2 (omega arith) (omega arith)

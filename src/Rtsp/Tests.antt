-- ===== src/Rtsp/Tests.antt =====
-- Runs of the media sources, and the theorems at inputs that exercise the code.
use stream_sight.Base.{
  ℕ, ◌+◌, ◌≡◌, ◌<◌, ◌↔◌, refl, true, false, none, some, [], ◌∷◌, map, replicate, take, All, arith,
  leb,
}
use stream_sight.Rtsp.Packet.{AvFrame, SendFrameCallback, collect, send_all, stamp}
use stream_sight.Rtsp.Fragment.{fragment_loop}
use stream_sight.Rtsp.Fragment.Receive.{Delivered}
use stream_sight.Rtsp.H264
use stream_sight.Rtsp.H264.Laws.{handle_frame-Delivered_h264, handle_frame-send_all_h264}
use stream_sight.Rtsp.H264.Laws as H264Laws
use stream_sight.Rtsp.H265
use stream_sight.Rtsp.H265.Laws.{handle_frame-Delivered_h265}
use stream_sight.Rtsp.H265.Laws as H265Laws
use stream_sight.Rtsp.Vp8
use stream_sight.Rtsp.Vp8.Laws.{handle_frame-markers_vp8, markers, Vp8Fits}
use stream_sight.Rtsp.Vp8.Laws as Vp8Laws
use stream_sight.Rtsp.Audio.{adts_size, raw_size, handle_aac}
use stream_sight.Rtsp.Audio.Laws.{handle_aac-bounds}

-- A frame of 3000 bytes, each 101: an IDR slice of 3 units.
abbrev large : AvFrame
large = record { buffer = replicate 3000 101; size = 3000; kind = 1; timestamp = 0 }

abbrev small : AvFrame
small = record { buffer = replicate 20 101; size = 20; kind = 1; timestamp = 90 }

-- A callback that refuses everything after the first two packets.
abbrev two_only : SendFrameCallback ℕ
two_only n channel p = (n + 1, leb (n + 1) 2)

handle_frame-Delivered_h264_example :
    let (ps, done) = H264.handle_frame (some collect) [] 5 0 large in
    (done ≡ true) × Delivered H264Laws.depacketize (stamp 5 large) large ps
handle_frame-Delivered_h264_example =
    handle_frame-Delivered_h264 5 0 large (omega arith) (omega arith) (omega arith)
      (λ h. absurd (omega arith))

refused_in_the_middle : H264.handle_frame (some two_only) 0 5 0 large ≡ (3, false)
unfolding H264.handle_frame fragment_loop
refused_in_the_middle = refl

handle_frame-send_all_h264_example :
    H264.handle_frame (some two_only) 0 5 0 large
    ≡ send_all (some two_only) 0 0 (H264Laws.packets 5 large)
handle_frame-send_all_h264_example =
    handle_frame-send_all_h264 (some two_only) 0 5 0 large (omega arith)

handle_frame-Delivered_h265_example :
    let (ps, done) = H265.handle_frame (some collect) [] 5 0 large in
    (done ≡ true) × Delivered H265Laws.depacketize (stamp 5 large) large ps
handle_frame-Delivered_h265_example =
    handle_frame-Delivered_h265 5 0 large (omega arith) (omega arith) (omega arith)
      (λ h. absurd (omega arith))

-- Two full packets, and no marker.
abbrev two_full : AvFrame
two_full = record { buffer = replicate 2840 7; size = 2840; kind = 1; timestamp = 0 }

handle_frame-markers_vp8_example :
    let (ps, done) = Vp8.handle_frame (some collect) [] 5 0 two_full in
    (done ≡ true)
    × (Vp8Laws.depacketize 1 (map (λ p. p.body) ps) ≡ some (take 2840 two_full.buffer))
    × (map (λ p. p.last) ps ≡ 0 ∷ 0 ∷ [])
    × All (Vp8Fits 1 (stamp 5 two_full)) ps
handle_frame-markers_vp8_example = handle_frame-markers_vp8 5 0 two_full (omega arith) (omega arith)

abbrev adts_frame : AvFrame
adts_frame = record { buffer = replicate 300 33; size = 300; kind = 17; timestamp = 44100 }

-- Three bytes are less than an ADTS header.
abbrev short_frame : AvFrame
short_frame = record { buffer = 255 ∷ 241 ∷ 80 ∷ []; size = 3; kind = 17; timestamp = 0 }

handle_aac-bounds_example :
    (handle_aac (some collect) [] true 1 short_frame ≡ none) ↔ ((true ≡ true) × (3 < adts_size))
handle_aac-bounds_example = handle_aac-bounds (some collect) [] true 1 short_frame

copied_too_much : handle_aac (some collect) [] true 1 short_frame ≡ none
unfolding handle_aac raw_size
copied_too_much = refl

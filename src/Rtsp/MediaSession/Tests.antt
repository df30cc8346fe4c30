-- ===== src/Rtsp/MediaSession/Tests.antt =====
-- The theorems on the sessions at inputs that exercise the code.
use stream_sight.Base.{
  ℕ, ◌+◌, ◌≡◌, refl, Bool, true, false, Option, none, some, List, [], ◌∷◌, ◌++◌, if◌then◌else◌,
  ◌==◌, arith,
}
use stream_sight.Rtsp.Packet.{RtpPacket, AvFrame}
use stream_sight.Rtsp.H264 as H264
use stream_sight.Rtsp.H264.Laws as H264Laws
use stream_sight.Rtsp.MediaSession.{Source, MediaSession, find_client, receivers, handle_frame}
use stream_sight.Rtsp.MediaSession.Clients.{
  Call, adds, removes, packets, run, IsBalanced, run-IsBalanced,
}
use stream_sight.Rtsp.MediaSession.Frames.{received, count, IsReceiver, handle_frame-received}

-- Two clients; the connection 8 is gone.
abbrev pub two_clients : MediaSession
two_clients = record {
  clients = (5, 7) ∷ (6, 8) ∷ [];
  is_multicast = false;
  has_new_client = true;
  connected = 2;
  disconnected = 0;
  sent = [];
}

abbrev pub alive : ℕ → Bool
alive c = if c == 8 then false else true

abbrev ids : ℕ → Option ℕ
ids c = some (c + 100)

abbrev refuses : ℕ → Bool
refuses c = false

abbrev pkt : RtpPacket
pkt = record { body = 1 ∷ []; size = 17; timestamp = 0; kind = 1; last = 1 }

abbrev calls : List Call
calls = adds 4 9 ∷ packets alive ids refuses 0 pkt ∷ removes alive 4 ∷ []

run-IsBalanced_example : let (m', lost) = run two_clients calls in IsBalanced (0 + lost) m'
run-IsBalanced_example = run-IsBalanced calls 0 two_clients (omega arith)

no_fourth : find_client 4 two_clients.clients ≡ none
unfolding find_client
no_fourth = refl

abbrev sources : ℕ → Option (Source MediaSession)
sources channel = some (λ callback s ch f. H264.handle_frame callback s 0 ch f)

abbrev frame : AvFrame
frame = record { buffer = 0x65 ∷ 1 ∷ 2 ∷ []; size = 3; kind = 1; timestamp = 90 }

seventh-IsReceiver : IsReceiver alive ids refuses 7 two_clients
unfolding receivers count
seventh-IsReceiver = (refl, refl)

handle_frame-received_example :
    let (m', done) = handle_frame alive ids refuses sources 0 frame two_clients in
    (done ≡ true) × (received 7 m'.sent ≡ received 7 [] ++ H264Laws.packets 0 frame)
handle_frame-received_example =
    handle_frame-received alive ids refuses sources 0 7 0 frame two_clients refl (omega arith)
      seventh-IsReceiver

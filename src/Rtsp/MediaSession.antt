-- ===== src/Rtsp/MediaSession.antt =====
-- src/rtsp/MediaSession.h and MediaSession.cpp: the clients and sources of one stream. A connection is
-- a number; whether its weak pointer can be locked, its id and what its SendRtpPacket answers are
-- parameters. The texts of the session description are left out.
pub mod Tests
pub mod Clients
pub mod Frames
pub mod Multicast
use stream_sight.Base.{
  ℕ, zero, suc, ◌+◌, Bool, true, false, not, ◌&&◌, Option, none, some, List, [], ◌∷◌, ◌++◌,
  if◌then◌else◌, ltb, ◌==◌,
}
use stream_sight.Rtsp.Packet.{RtpPacket, AvFrame, SendFrameCallback}

-- A frame handler of MediaSource, with the state that its callback changes.
abbrev pub Source : Type 0 → Type 0
Source S = Option (SendFrameCallback S) → S → ℕ → AvFrame → S × Bool

-- `clients` is kept in the order of the sockets; `connected` and `disconnected` count the calls of
-- every callback of the two lists, and `sent` records the calls of SendRtpPacket: the connection, the
-- channel and the packet.
pub record MediaSession : Type 0 where
  pub clients : List (ℕ × ℕ)
  pub is_multicast : Bool
  pub has_new_client : Bool
  pub connected : ℕ
  pub disconnected : ℕ
  pub sent : List (ℕ × ℕ × RtpPacket)

-- `clients_.find(rtspfd)`
unfoldable pub find_client : ℕ → List (ℕ × ℕ) → Option ℕ
find_client fd [] = none
find_client fd ((k, c) ∷ cs) = if k == fd then some c else find_client fd cs

unfoldable pub emplace_client : ℕ → ℕ → List (ℕ × ℕ) → List (ℕ × ℕ)
emplace_client fd conn [] = (fd, conn) ∷ []
emplace_client fd conn ((k, c) ∷ cs) =
    let later = (k, c) ∷ emplace_client fd conn cs in
    if ltb fd k then (fd, conn) ∷ (k, c) ∷ cs else later

unfoldable pub erase_client : ℕ → List (ℕ × ℕ) → List (ℕ × ℕ)
erase_client fd [] = []
erase_client fd ((k, c) ∷ cs) = if k == fd then cs else (k, c) ∷ erase_client fd cs

unfoldable pub add_client : ℕ → ℕ → MediaSession → MediaSession × Bool
add_client fd conn m = elim (find_client fd m.clients) [
  | some c ↦ (m, false)
  | none ↦ (
    record m {
      clients = emplace_client fd conn m.clients;
      connected = m.connected + 1;
      has_new_client = true;
    },
    true,
  )
]

module _ (alive : ℕ → Bool) where
  unfoldable pub remove_client : ℕ → MediaSession → MediaSession
  remove_client fd m = elim (find_client fd m.clients) [
    | none ↦ m
    | some c ↦ record m {
      clients = erase_client fd m.clients;
      disconnected = if alive c then m.disconnected + 1 else m.disconnected;
    }
  ]

  -- The loop over the clients in the callback of AddSource: those whose connection is gone are erased.
  unfoldable pub live_clients : List (ℕ × ℕ) → List (ℕ × ℕ)
  live_clients [] = []
  live_clients ((k, c) ∷ cs) = if alive c then (k, c) ∷ live_clients cs else live_clients cs

  module _ (get_id : ℕ → Option ℕ) (accepts : ℕ → Bool) where
    -- The receivers, each put in front of those before it; a client without an id gets nothing.
    unfoldable pub receivers : List (ℕ × ℕ) → List ℕ → List ℕ
    receivers [] front = front
    receivers ((k, c) ∷ cs) front =
        receivers cs
          (if alive c then elim (get_id c) [ none ↦ front | some id ↦ c ∷ front ] else front)

    -- The second loop. Each id has its own copy of the packet.
    unfoldable pub send_each : ℕ → RtpPacket → List ℕ → MediaSession → MediaSession
    send_each channel pkt [] m = m
    send_each channel pkt (c ∷ cs) m =
        let m' = record m { sent = m.sent ++ ((c, channel, pkt) ∷ []) } in
        let rest = send_each channel pkt cs m' in if m.is_multicast && accepts c then m' else rest

    -- The callback that AddSource sets on the source.
    unfoldable pub on_packet : MediaSession → ℕ → RtpPacket → MediaSession × Bool
    on_packet m channel pkt =
        let rs = receivers m.clients [] in
        (send_each channel pkt rs (record m { clients = live_clients m.clients }), true)

    -- HandleFrame; the source's own answer is dropped.
    unfoldable pub handle_frame :
        (ℕ → Option (Source MediaSession)) → ℕ → AvFrame → MediaSession → MediaSession × Bool
    handle_frame media_sources channel frame m = elim (media_sources channel) [
      | none ↦ (m, false)
      | some source ↦ ((source (some on_packet) m channel frame).0, true)
    ]

-- ===== src/Rtsp/MediaSession/Frames.antt =====
-- What a client of a session of src/rtsp/MediaSession.cpp gets of the frames of its H.264 source.
use stream_sight.Base.{
  inl, inr, ℕ, suc, ◌-◌, ◌^◌, ◌<◌, ◌≡◌, refl, sym, ap, ◌∙◌, Bool, true, false, ◌&&◌, Bool-cases,
  Option, some, List, [], ◌∷◌, ◌++◌, append_assoc, append-nil, if◌then◌else◌, if-false, ◌==◌,
  replicate, arith,
}
use stream_sight.Rtsp.Packet.{RtpPacket, AvFrame, send_all}
use stream_sight.Rtsp.H264 as H264
use stream_sight.Rtsp.H264.Laws.{packets, handle_frame-send_all_h264}
use stream_sight.Rtsp.MediaSession.{
  Source, MediaSession, live_clients, receivers, send_each, on_packet, handle_frame,
}

-- The packets that a connection was handed.
unfoldable pub received : ℕ → List (ℕ × ℕ × RtpPacket) → List RtpPacket
received k [] = []
received k ((c, channel, p) ∷ rest) = if c == k then p ∷ received k rest else received k rest

-- How often a connection is in a list.
unfoldable pub count : ℕ → List ℕ → ℕ
count k [] = 0
count k (c ∷ cs) = if c == k then suc (count k cs) else count k cs

received-append :
    (k : ℕ) (xs ys : List (ℕ × ℕ × RtpPacket))
    → received k (xs ++ ys) ≡ received k xs ++ received k ys
unfolding received
received-append k [] ys = refl
received-append k ((c, channel, p) ∷ xs) ys = ground (arith, received-append k xs ys)

-- One more call, and those that follow.
received-one_more :
    (k c channel : ℕ) (p : RtpPacket) (sent : List (ℕ × ℕ × RtpPacket)) (cs : List ℕ)
    → received k (sent ++ ((c, channel, p) ∷ [])) ++ replicate (count k cs) p
      ≡ received k sent ++ replicate (count k (c ∷ cs)) p
unfolding received count
received-one_more k c channel p sent cs = elim (Bool-cases (c == k)) [
  | inl same ↦
      rw (received-append k sent ((c, channel, p) ∷ []), same)
        (append_assoc (received k sent) (p ∷ []) (replicate (count k cs) p))
  | inr other ↦
      rw (received-append k sent ((c, channel, p) ∷ []), other)
        (ap (λ l. l ++ replicate (count k cs) p) (append-nil (received k sent)))
]

module _ (alive : ℕ → Bool) (get_id : ℕ → Option ℕ) (accepts : ℕ → Bool) where
  live_clients-twice :
      (cs : List (ℕ × ℕ)) → live_clients alive (live_clients alive cs) ≡ live_clients alive cs
  unfolding live_clients
  live_clients-twice [] = refl
  live_clients-twice ((k, c) ∷ cs) = elim (Bool-cases (alive c)) [
    | inl here ↦ rw (here, live_clients, here) (ap (λ l. (k, c) ∷ l) (live_clients-twice cs))
    | inr away ↦ rw (away, live_clients) (live_clients-twice cs)
  ]

  -- Erasing the clients that are gone does not change who receives.
  receivers-live_clients :
      (cs : List (ℕ × ℕ)) (front : List ℕ)
      → receivers alive get_id accepts (live_clients alive cs) front
        ≡ receivers alive get_id accepts cs front
  unfolding live_clients receivers
  receivers-live_clients [] front = refl
  receivers-live_clients ((k, c) ∷ cs) front = elim (Bool-cases (alive c)) [
    | inl here ↦ rw (here, live_clients, receivers, here) (receivers-live_clients cs _)
    | inr away ↦ rw (away, live_clients, receivers) (receivers-live_clients cs front)
  ]

  -- The clients of a session that is not multicast all get the packet.
  send_each-received :
      (k channel : ℕ) (p : RtpPacket) (cs : List ℕ) (m : MediaSession)
      → m.is_multicast ≡ false
      → let m' = send_each alive get_id accepts channel p cs m in
        (received k m'.sent ≡ received k m.sent ++ replicate (count k cs) p)
        × (m'.is_multicast ≡ false)
        × (m'.clients ≡ m.clients)
  unfolding send_each count
  send_each-received k channel p [] m u = (sym (append-nil (received k m.sent)), u, refl)
  send_each-received k channel p (c ∷ cs) m u =
      let m' : MediaSession = record m { sent = m.sent ++ ((c, channel, p) ∷ []) } in
      let ih = send_each-received k channel p cs m' u in
      let test : (m.is_multicast && accepts c) ≡ false = rw u refl in
      let e =
        if-false (m.is_multicast && accepts c) m' (send_each alive get_id accepts channel p cs m')
          test in
      (
        ap (λ w. received k w.sent) e ∙ ih.0 ∙ received-one_more k c channel p m.sent cs,
        ap (λ w. w.is_multicast) e ∙ ih.1,
        ap (λ w. w.clients) e ∙ ih.2,
      )

  -- A session that is not multicast, with a connection that receives once.
  abbrev pub IsReceiver : ℕ → MediaSession → Type 0
  IsReceiver k m =
      (m.is_multicast ≡ false) × (count k (receivers alive get_id accepts m.clients []) ≡ 1)

  on_packet-received :
      (k channel : ℕ) (p : RtpPacket) (m : MediaSession)
      → IsReceiver k m
      → let m' = (on_packet alive get_id accepts m channel p).0 in
        (received k m'.sent ≡ received k m.sent ++ (p ∷ []))
        × IsReceiver k m'
        × (m'.clients ≡ live_clients alive m.clients)
  unfolding on_packet
  on_packet-received k channel p m (u, once) =
      let rs = receivers alive get_id accepts m.clients [] in
      let s =
        send_each-received k channel p rs (record m { clients = live_clients alive m.clients }) u in
      (
        s.0 ∙ ap (λ n. received k m.sent ++ replicate n p) once,
        (
          s.1,
          ap (λ l. count k (receivers alive get_id accepts l [])) s.2
              ∙ ap (count k) (receivers-live_clients m.clients [])
              ∙ once,
        ),
        s.2,
      )

  send_all-received :
      (k channel : ℕ) (ps : List RtpPacket) (m : MediaSession)
      → IsReceiver k m
      → received k (send_all (some (on_packet alive get_id accepts)) m channel ps).0.sent
        ≡ received k m.sent ++ ps
  unfolding send_all on_packet
  send_all-received k channel [] m h = sym (append-nil (received k m.sent))
  send_all-received k channel (p ∷ ps) m h =
      let o = on_packet-received k channel p m h in
      let m' = (on_packet alive get_id accepts m channel p).0 in
      send_all-received k channel ps m' o.1
      ∙ ap (λ l. l ++ ps) o.0
      ∙ append_assoc (received k m.sent) (p ∷ []) ps

  -- HandleFrame of a session that is not multicast and has an H.264 source on the channel hands every
  -- connection that is once among the receivers (the clients whose connection is alive and has an
  -- id) exactly the packets of the frame, of less than 2^32 - 1 bytes, in order and behind what it
  -- had before, and answers true. What the connections answer makes no difference.
  pub handle_frame-received :
      (sources : ℕ → Option (Source MediaSession)) (us k channel : ℕ) (frame : AvFrame)
      (m : MediaSession)
      → sources channel ≡ some (λ callback s ch f. H264.handle_frame callback s us ch f)
      → frame.size < 2 ^ 32 - 1
      → IsReceiver k m
      → let (m', done) = handle_frame alive get_id accepts sources channel frame m in
        (done ≡ true) × (received k m'.sent ≡ received k m.sent ++ packets us frame)
  unfolding handle_frame
  handle_frame-received sources us k channel frame m source small h =
      rw (source, handle_frame)
        (
          refl,
          ap (λ w. received k w.0.sent)
                (handle_frame-send_all_h264 (some (on_packet alive get_id accepts)) m us channel
                  frame small)
              ∙ send_all-received k channel (packets us frame) m h,
        )

-- ===== src/Rtsp/Vp8/Laws.antt =====
-- What a receiver makes of the packets of VP8Source, and which of them carry the marker.
use mathlib.Core.Option
use stream_sight.Base.{
  ℕ, zero, suc, ◌+◌, ◌-◌, ◌/◌, ◌%◌, ◌^◌, ◌≤◌, ◌<◌, ◌≡◌, refl, ap, inl, inr, true, Option, some,
  none, List, [], ◌∷◌, ◌++◌, if◌then◌else◌, ltb, ltb→lt, ltb-false→le, ◌==◌, ==_refl, ne→==_false,
  take, drop, length, map, All, replicate, arith, Bool-cases, length-take, length-drop, take-add,
  sub32,
}
use stream_sight.Rtsp.Packet.{
  RtpPacket, AvFrame, IsFilled, SendFrameCallback, send_all, collect, stamp, max_rtp_payload_size,
}
use stream_sight.Rtsp.Fragment.Laws.{collect-send_all}
use stream_sight.Rtsp.Vp8.{payload_size, packet, vp8_loop, handle_frame}

payload_size_bounds :
    (size : ℕ)
    → (payload_size size ≤ size)
      × (payload_size size ≤ max_rtp_payload_size)
      × (0 < size → 0 < payload_size size)
unfolding payload_size
payload_size_bounds size = ground arith

payload_size_full : (size : ℕ) → max_rtp_payload_size ≤ size → payload_size size ≡ 1420
unfolding payload_size
payload_size_full size h = ground arith

payload_size_rest : (size : ℕ) → size < max_rtp_payload_size → payload_size size ≡ size
unfolding payload_size
payload_size_rest size h = ground arith

module _ (kind timestamp : ℕ) where
  -- The packets for `size` bytes, as a list.
  unfoldable pub fragments : ℕ → ℕ → List ℕ → ℕ → List RtpPacket
  fragments zero descriptor buf size = []
  fragments (suc fuel) descriptor buf size =
      let rest = fragments fuel 0x00 (drop (payload_size size) buf) (size - payload_size size) in
      if size == 0 then [] else packet kind timestamp descriptor buf size ∷ rest

  vp8_loop_lem :
      {S : Type 0} (callback : Option (SendFrameCallback S)) (channel fuel : ℕ) (s : S)
      (descriptor : ℕ) (buf : List ℕ) (size : ℕ)
      → size < 2 ^ 32
      → vp8_loop kind timestamp callback channel fuel s descriptor buf size
        ≡ send_all callback s channel (fragments fuel descriptor buf size)
  unfolding vp8_loop fragments send_all
  vp8_loop_lem callback channel zero s descriptor buf size b = refl
  vp8_loop_lem callback channel (suc fuel) s descriptor buf size b =
      let e : sub32 size (payload_size size) ≡ size - payload_size size =
        omega (arith, payload_size_bounds size) in
      elim (Bool-cases (size == 0)) [
        | inl done ↦ rw done refl
        | inr more ↦ rw (
          more,
          e,
          vp8_loop_lem callback channel fuel _ 0x00 (drop (payload_size size) buf)
              (size - payload_size size) (omega arith),
        )
      ]

-- The payload descriptor of RFC 7741 §4.2: the S bit is set in the first packet of a frame alone.
unfoldable pub depacketize : ℕ → List (List ℕ) → Option (List ℕ)
depacketize start [] = some []
depacketize start ([] ∷ bs) = none
depacketize start ((d ∷ bytes) ∷ bs) =
    let rest = Option.map (λ more. bytes ++ more) (depacketize 0 bs) in
    if d / 16 % 2 == start then rest else none

-- Each packet carries 16 header bytes, the descriptor and at most 1420 bytes of the frame.
abbrev pub Vp8Fits : ℕ → ℕ → RtpPacket → Type 0
Vp8Fits kind timestamp p =
    (p.size ≡ 16 + length p.body)
    × (length p.body ≤ max_rtp_payload_size + 1)
    × (p.kind ≡ kind)
    × (p.timestamp ≡ timestamp)

-- The marker bits of a frame of `size` bytes.
abbrev pub markers : ℕ → List ℕ
markers size =
    replicate (size / max_rtp_payload_size) 0
    ++ (if size % max_rtp_payload_size == 0 then [] else 1 ∷ [])

markers_full : (n : ℕ) → max_rtp_payload_size ≤ n → markers n ≡ 0 ∷ markers (n - 1420)
markers_full n h =
    let q : n / 1420 ≡ suc ((n - 1420) / 1420) = omega arith in
    let r : n % 1420 ≡ (n - 1420) % 1420 = omega arith in rw (q, r)

markers_rest : (n : ℕ) → 0 < n → n < max_rtp_payload_size → markers n ≡ 1 ∷ []
markers_rest n p h =
    let q : n / 1420 ≡ 0 = omega arith in
    let r : n % 1420 ≡ n = omega arith in rw (q, r, ne→==_false n 0 (omega arith))

module _ (kind timestamp : ℕ) where
  fragments-depacketize :
      (fuel start d : ℕ) (buf : List ℕ) (size : ℕ)
      → size ≤ fuel
      → d / 16 % 2 ≡ start
      → depacketize start (map (λ p. p.body) (fragments kind timestamp fuel d buf size))
        ≡ some (take size buf)
  unfolding fragments depacketize packet
  fragments-depacketize zero start d buf zero f e = refl
  fragments-depacketize zero start d buf (suc size) f e = absurd (omega arith)
  fragments-depacketize (suc fuel) start d buf zero f e = refl
  fragments-depacketize (suc fuel) start d buf (suc size) f e =
      let n = suc size in
      let b = payload_size_bounds n in
      rw
        (
          ne→==_false n 0 (omega arith),
          fragments-depacketize fuel 0 0 (drop (payload_size n) buf) (n - payload_size n)
              (omega arith) refl,
          e,
          ==_refl start,
          Option.map,
        )
        (ap some (take-add (payload_size n) (n - payload_size n) n buf (omega arith)))

  packet-Fits :
      (d : ℕ) (buf : List ℕ) (size : ℕ)
      → size ≤ length buf
      → size < 2 ^ 32 - 17
      → Vp8Fits kind timestamp (packet kind timestamp d buf size)
  unfolding packet payload_size
  packet-Fits d buf size h b = elim (Bool-cases (ltb size max_rtp_payload_size)) [
    | inl small ↦
        let lt = ltb→lt size max_rtp_payload_size small in
        rw small (omega (arith, length-take size buf))
    | inr full ↦
        let le = ltb-false→le size max_rtp_payload_size full in
        rw full (omega (arith, length-take max_rtp_payload_size buf))
  ]

  fragments-Fits :
      (fuel d : ℕ) (buf : List ℕ) (size : ℕ)
      → size ≤ length buf
      → size < 2 ^ 32 - 17
      → All (Vp8Fits kind timestamp) (fragments kind timestamp fuel d buf size)
  unfolding fragments
  fragments-Fits zero d buf size h b = tt
  fragments-Fits (suc fuel) d buf size h b = elim (Bool-cases (size == 0)) [
    | inl done ↦ rw done tt
    | inr more ↦ rw more (
      packet-Fits d buf size h b,
      fragments-Fits fuel 0 _ _ (omega (arith, length-drop (payload_size size) buf)) (omega arith),
    )
  ]

  fragments-markers :
      (fuel d : ℕ) (buf : List ℕ) (size : ℕ)
      → size ≤ fuel
      → map (λ p. p.last) (fragments kind timestamp fuel d buf size) ≡ markers size
  unfolding fragments packet
  fragments-markers zero d buf zero f = refl
  fragments-markers zero d buf (suc size) f = absurd (omega arith)
  fragments-markers (suc fuel) d buf zero f = refl
  fragments-markers (suc fuel) d buf (suc size) f =
      let n = suc size in
      let b = payload_size_bounds n in
      let rest =
        fragments-markers fuel 0 (drop (payload_size n) buf) (n - payload_size n) (omega arith) in
      elim (Bool-cases (ltb n max_rtp_payload_size)) [
        | inl small ↦
            let lt = ltb→lt n max_rtp_payload_size small in
            let e : n - payload_size n ≡ 0 = omega (arith, payload_size_rest n lt) in
            rw (ne→==_false n 0 (omega arith), rest, small, e, markers_rest n (omega arith) lt)
        | inr full ↦
            let le = ltb-false→le n max_rtp_payload_size full in
            rw
              (ne→==_false n 0 (omega arith), rest, full, payload_size_full n le, markers_full n le)
      ]

-- The packets of a frame, as a list.
unfoldable pub packets : ℕ → AvFrame → List RtpPacket
packets us frame = fragments frame.kind (stamp us frame) frame.size 0x10 frame.buffer frame.size

-- Whatever the callback does, `HandleFrame` hands it the packets of the frame in order, stops at
-- the first one that it refuses, and returns whether all were taken. The frame is smaller than
-- 2^32 bytes.
pub handle_frame-send_all_vp8 :
    {S : Type 0} (callback : Option (SendFrameCallback S)) (s : S) (us channel : ℕ)
    (frame : AvFrame)
    → frame.size < 2 ^ 32
    → handle_frame callback s us channel frame ≡ send_all callback s channel (packets us frame)
unfolding handle_frame packets
handle_frame-send_all_vp8 callback s us channel frame b =
    vp8_loop_lem frame.kind (stamp us frame) callback channel frame.size s 0x10 frame.buffer
      frame.size b

-- A receiver that accepts every packet reads back exactly the frame, for every frame that holds its
-- bytes and is smaller than 2^32 - 17 bytes; each packet carries 16 header bytes, the descriptor
-- and at most 1420 bytes of payload. The marker bit is set on the last packet when the frame's size
-- is no multiple of 1420, and on none when it is one.
pub handle_frame-markers_vp8 :
    (us channel : ℕ) (frame : AvFrame)
    → IsFilled frame
    → frame.size < 2 ^ 32 - 17
    → let (ps, done) = handle_frame (some collect) [] us channel frame in
      (done ≡ true)
      × (depacketize 1 (map (λ p. p.body) ps) ≡ some (take frame.size frame.buffer))
      × (map (λ p. p.last) ps ≡ markers frame.size)
      × All (Vp8Fits frame.kind (stamp us frame)) ps
unfolding packets
handle_frame-markers_vp8 us channel frame filled b =
    rw
      (
        handle_frame-send_all_vp8 (some collect) [] us channel frame (omega arith),
        collect-send_all [] channel (packets us frame),
      )
      (
        refl,
        fragments-depacketize frame.kind (stamp us frame) frame.size 1 0x10 frame.buffer frame.size
            (omega arith) refl,
        fragments-markers frame.kind (stamp us frame) frame.size 0x10 frame.buffer frame.size
            (omega arith),
        fragments-Fits frame.kind (stamp us frame) frame.size 0x10 frame.buffer frame.size filled b,
      )

-- ===== src/Rtsp/Fragment/Laws.antt =====
-- The fragmentation loop hands over exactly the packets of `fragments`, and a receiver that joins
-- fragments gets the bytes back.
use stream_sight.Base.{
  ℕ, zero, suc, ◌+◌, ◌-◌, ◌≤◌, ◌<◌, ◌^◌, ◌≡◌, sym, ltb→lt, lt→ltb, ◌≤◌, true, Option, some, List,
  [], ◌∷◌, ◌++◌, if◌then◌else◌, ltb, drop, add32, sub32, arith, append-nil, append_assoc,
  Bool-cases, inl, inr,
}
use stream_sight.Rtsp.Packet.{
  RtpPacket, SendFrameCallback, send, send_all, collect, max_rtp_payload_size,
}
use stream_sight.Rtsp.Fragment.{Scheme, mid_packet, last_packet, fragment_loop}

pub send_all-single :
    {S : Type 0} (callback : Option (SendFrameCallback S)) (s : S) (channel : ℕ) (p : RtpPacket)
    → send_all callback s channel (p ∷ []) ≡ send callback s channel p
unfolding send_all
send_all-single callback s channel p = ground arith

module _ (scheme : Scheme) (kind timestamp : ℕ) where
  open scheme use {head, clear_start, set_end}

  -- The packets for `size` bytes, as a list.
  unfoldable pub fragments : ℕ → List ℕ → List ℕ → ℕ → List RtpPacket
  fragments zero fu buf size = last_packet scheme kind timestamp fu buf size ∷ []
  fragments (suc fuel) fu buf size =
      let rest =
        fragments fuel (clear_start fu) (drop (max_rtp_payload_size - head) buf)
          (size - (max_rtp_payload_size - head)) in
      if ltb max_rtp_payload_size (size + head)
      then mid_packet scheme kind timestamp fu buf ∷ rest
      else last_packet scheme kind timestamp fu buf size ∷ []

  -- A frame that does not fit starts with a full packet.
  pub fragments_first :
      (fuel : ℕ) (fu buf : List ℕ) (size : ℕ)
      → max_rtp_payload_size < size + head
      → head < max_rtp_payload_size
      → size ≤ fuel
      → (rest : List RtpPacket) × (fragments fuel fu buf size
          ≡ mid_packet scheme kind timestamp fu buf ∷ rest)
  unfolding fragments
  fragments_first zero fu buf size over h f = absurd (omega arith)
  fragments_first (suc fuel) fu buf size over h f = (
    fragments fuel (clear_start fu) (drop (max_rtp_payload_size - head) buf)
        (size - (max_rtp_payload_size - head)),
    rw (lt→ltb max_rtp_payload_size (size + head) over),
  )

  pub fragment_loop_lem :
      {S : Type 0} (callback : Option (SendFrameCallback S)) (channel fuel : ℕ) (s : S)
      (fu buf : List ℕ) (size : ℕ)
      → head < max_rtp_payload_size
      → size + head < 2 ^ 32
      → fragment_loop scheme kind timestamp callback channel fuel s fu buf size
        ≡ send_all callback s channel (fragments fuel fu buf size)
  unfolding fragment_loop fragments send_all
  fragment_loop_lem callback channel zero s fu buf size h b =
      sym (send_all-single callback s channel _)
  fragment_loop_lem callback channel (suc fuel) s fu buf size h b =
      let e : add32 size head ≡ size + head = omega arith in
      elim (Bool-cases (ltb max_rtp_payload_size (size + head))) [
        | inl more ↦
            let over = ltb→lt max_rtp_payload_size (size + head) more in
            let e' : sub32 size (max_rtp_payload_size - head)
                ≡ size - (max_rtp_payload_size - head) =
              omega arith in
            rw (
              e,
              more,
              e',
              fragment_loop_lem callback channel fuel _ (clear_start fu)
                  (drop (max_rtp_payload_size - head) buf) (size - (max_rtp_payload_size - head)) h
                  (omega arith),
            )
        | inr done ↦ rw (e, done) (sym (send_all-single callback s channel _))
      ]

pub collect-send_all :
    (acc : List RtpPacket) (channel : ℕ) (ps : List RtpPacket)
    → send_all (some collect) acc channel ps ≡ (acc ++ ps, true)
unfolding send_all
collect-send_all acc channel [] = rw (append-nil acc)
collect-send_all acc channel (p ∷ ps) =
    rw (collect-send_all (acc ++ (p ∷ [])) channel ps, append_assoc acc (p ∷ []) ps)

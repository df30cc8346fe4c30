-- ===== src/Rtsp/RtpConnection/Packets.antt =====
-- What the trigger event of one packet of src/rtsp/RtpConnection.cpp puts on an interleaved connection.
use stream_sight.Base.{
  ℕ, ◌+◌, ◌/◌, ◌%◌, ◌^◌, ◌<◌, ◌≡◌, refl, ap, ◌∙◌, Bool, true, ◌||◌, if-true, ◌==◌, ==_refl, List,
  [], ◌∷◌, ◌++◌, length, take, sub32,
}
use stream_sight.Rtsp.Packet.{RtpPacket}
use stream_sight.Rtsp.RtpConnection.{
  RtpConnection, MediaChannelInfo, RtpHeader, tcp, TransportMode, over_tcp, put,
}
use stream_sight.Rtsp.RtpConnection.Sending.{
  header_bytes, may_send, set_frame_type, send_over, count_sent, set_rtp_header, send_rtp_over_tcp,
  deliver,
}

-- The header that the next packet of a channel carries.
abbrev pub next_header : MediaChannelInfo → RtpPacket → RtpHeader
next_header m pkt = record m.rtp_header {
  marker = pkt.last % 2;
  ts = pkt.timestamp;
  seq = m.packet_seq;
}

-- The state that SetFrameType tests.
abbrev pub opens_stream : ℕ → Bool
opens_stream kind = kind == 0 || (kind == 0x01 || kind == 0x11)

-- The packet has the size that its sources give it.
abbrev pub IsSized : RtpPacket → Type 0
IsSized pkt = (pkt.size ≡ 16 + length pkt.body) × (pkt.size < 2 ^ 16)

put_self {ℓ} : {A : Type ℓ} (i : ℕ) (a : A) (f : ℕ → A) → put i a f i ≡ a
put_self i a f = if-true (i == i) a (f i) (==_refl i)

abbrev count_more : RtpPacket → MediaChannelInfo → MediaChannelInfo
count_more pkt m = record m {
  octet_count = (m.octet_count + sub32 pkt.size 4) % 2 ^ 64;
  packet_count = (m.packet_count + 1) % 2 ^ 64;
}

-- The channel after a packet.
abbrev pub count_packet : RtpPacket → MediaChannelInfo → MediaChannelInfo
count_packet pkt m = record m {
  rtp_header = next_header m pkt;
  packet_seq = (m.packet_seq + 1) % 2 ^ 16;
  octet_count = (m.octet_count + sub32 pkt.size 4) % 2 ^ 64;
  packet_count = (m.packet_count + 1) % 2 ^ 64;
}

abbrev pub interleaved_bytes : RtpPacket → MediaChannelInfo → List ℕ
interleaved_bytes pkt m =
    let n = sub32 pkt.size 4 in
    take pkt.size (
      36
      ∷ m.rtp_channel % 2 ^ 8
      ∷ n / 2 ^ 8 % 2 ^ 8
      ∷ n % 2 ^ 8
      ∷ (header_bytes (next_header m pkt) ++ pkt.body))

module _ {E : Type 0} where
  -- The channel plays or records over a live TCP connection.
  abbrev pub IsStreaming : ℕ → RtpConnection E → Type 0
  IsStreaming id c =
      (c.transport_mode ≡ over_tcp)
      × (c.connected ≡ true)
      × (((c.media_channel_info id).is_play || (c.media_channel_info id).is_record) ≡ true)

  on_tcp :
      (mode : TransportMode) (a b : RtpConnection E)
      → mode ≡ over_tcp
      → (elim mode [ over_tcp ↦ a | _ ↦ b ]) ≡ a
  on_tcp mode a b h = rw h refl

  pub set_frame_type-keeps :
      (kind : ℕ) (c : RtpConnection E)
      → let c' = set_frame_type kind c in
        (c'.has_key_frame ≡ (c.has_key_frame || opens_stream kind))
        × (c'.media_channel_info ≡ c.media_channel_info)
        × (c'.sent ≡ c.sent)
        × (c'.transport_mode ≡ c.transport_mode)
        × (c'.connected ≡ c.connected)
  unfolding set_frame_type
  set_frame_type-keeps kind c = (refl, refl, refl, refl, refl)

  set_rtp_header-sending :
      (id : ℕ) (pkt : RtpPacket) (old : List ℕ) (c : RtpConnection E)
      → may_send id c ≡ true
      → let m = c.media_channel_info id in
        let h = next_header m pkt in
        set_rtp_header id pkt old c ≡ (
          record c {
            media_channel_info =
                put id
                  (record m { rtp_header = h; packet_seq = (m.packet_seq + 1) % 2 ^ 16 })
                  c.media_channel_info;
          },
          header_bytes h,
        )
  unfolding set_rtp_header
  set_rtp_header-sending id pkt old c h = rw (h, set_rtp_header) refl

  send_over-tcp :
      (delivered : Bool) (id : ℕ) (pkt : RtpPacket) (header : List ℕ) (c : RtpConnection E)
      → c.transport_mode ≡ over_tcp
      → c.connected ≡ true
      → let n = sub32 pkt.size 4 in
        let channel = (c.media_channel_info id).rtp_channel % 2 ^ 8 in
        let bytes = 36 ∷ channel ∷ n / 2 ^ 8 % 2 ^ 8 ∷ n % 2 ^ 8 ∷ (header ++ pkt.body) in
        send_over delivered id pkt header c
        ≡ record c { sent = c.sent ++ (tcp (take pkt.size bytes) ∷ []) }
  unfolding send_over send_rtp_over_tcp
  send_over-tcp delivered id pkt header c mode up =
      on_tcp c.transport_mode _ _ mode ∙ if-true c.connected _ c up

  count_sent-counts :
      (id : ℕ) (pkt : RtpPacket) (c : RtpConnection E)
      → let c' = count_sent id pkt c in
        (c'.media_channel_info id ≡ count_more pkt (c.media_channel_info id))
        × (c'.sent ≡ c.sent)
        × (c'.has_key_frame ≡ c.has_key_frame)
        × (c'.transport_mode ≡ c.transport_mode)
        × (c'.connected ≡ c.connected)
  unfolding count_sent
  count_sent-counts id pkt c = (put_self id _ c.media_channel_info, refl, refl, refl, refl)

  pub deliver-streaming :
      (delivered : Bool) (id : ℕ) (pkt : RtpPacket) (old : List ℕ) (c : RtpConnection E)
      → IsStreaming id c
      → (c.has_key_frame || opens_stream pkt.kind) ≡ true
      → let m = c.media_channel_info id in
        let c' = deliver delivered id pkt old c in
        (c'.sent ≡ c.sent ++ (tcp (interleaved_bytes pkt m) ∷ []))
        × (c'.media_channel_info id ≡ count_packet pkt m)
        × (c'.has_key_frame ≡ true)
        × (c'.transport_mode ≡ over_tcp)
        × (c'.connected ≡ true)
  unfolding deliver
  deliver-streaming delivered id pkt old c (mode, up, on) key =
      let m = c.media_channel_info id in
      let c1 = set_frame_type pkt.kind c in
      let k = set_frame_type-keeps pkt.kind c in
      let can : may_send id c1 ≡ true = rw (k.0, k.1, on, key) refl in
      let pair = set_rtp_header id pkt old c1 in
      let c2 = pair.0 in
      let h = set_rtp_header-sending id pkt old c1 can in
      let e = ap (λ w. w.0) h in
      let bytes : pair.1 ≡ header_bytes (next_header m pkt) =
        ap (λ w. w.1) h ∙ ap (λ f. header_bytes (next_header (f id) pkt)) k.1 in
      let m2 : c2.media_channel_info id
          ≡ record m { rtp_header = next_header m pkt; packet_seq = (m.packet_seq + 1) % 2 ^ 16 } =
        ap (λ w. w.media_channel_info id) e
        ∙ put_self id _ c1.media_channel_info
        ∙ ap
            (λ f. record (f id) {
              rtp_header = next_header (f id) pkt;
              packet_seq = ((f id).packet_seq + 1) % 2 ^ 16;
            })
            k.1 in
      let mode2 = ap (λ w. w.transport_mode) e ∙ k.3 ∙ mode in
      let up2 = ap (λ w. w.connected) e ∙ k.4 ∙ up in
      let key2 = ap (λ w. w.has_key_frame) e ∙ k.0 ∙ key in
      let sent2 = ap (λ w. w.sent) e ∙ k.2 in
      let can2 : may_send id c2 ≡ true = rw (m2, key2, on) refl in
      let o = send_over-tcp delivered id pkt pair.1 c2 mode2 up2 in
      let out = count_sent-counts id pkt (send_over delivered id pkt pair.1 c2) in
      let d : deliver delivered id pkt old c
          ≡ count_sent id pkt (send_over delivered id pkt pair.1 c2) =
        if-true (may_send id c2) _ c2 can2 in
      (
        ap (λ w. w.sent) d ∙ out.1 ∙ ap (λ w. w.sent) o ∙ rw (sent2, m2, bytes) refl,
        ap (λ w. w.media_channel_info id) d
            ∙ out.0
            ∙ ap (λ w. count_more pkt (w.media_channel_info id)) o
            ∙ ap (count_more pkt) m2,
        ap (λ w. w.has_key_frame) d ∙ out.2 ∙ ap (λ w. w.has_key_frame) o ∙ key2,
        ap (λ w. w.transport_mode) d ∙ out.3 ∙ ap (λ w. w.transport_mode) o ∙ mode2,
        ap (λ w. w.connected) d ∙ out.4 ∙ ap (λ w. w.connected) o ∙ up2,
      )

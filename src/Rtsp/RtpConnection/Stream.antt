-- ===== src/Rtsp/RtpConnection/Stream.antt =====
-- The stream of packets that the trigger events of SendRtpPacket, src/rtsp/RtpConnection.cpp, make.
use stream_sight.Base.{
  ℕ, ◌+◌, ◌/◌, ◌%◌, ◌^◌, ◌≤◌, ◌<◌, ◌≡◌, refl, sym, ap, ◌∙◌, Bool, true, false, ◌&&◌, if-false,
  Option, none, some, List, [], ◌∷◌, ◌++◌, append_assoc, append-nil, length, All, sub32,
  length-append, take-all, arith,
}
use stream_sight.Rtsp.Packet.{RtpPacket}
use stream_sight.Rtsp.RtpConnection.{
  RtpConnection, MediaChannelInfo, RtpHeader, Sent, tcp, datagram,
}
use stream_sight.Rtsp.RtpConnection.Sending.{
  header_bytes, may_send, set_frame_type, set_rtp_header, deliver,
}
use stream_sight.Rtsp.RtpConnection.Reading.{
  Interleaved, read_interleaved, read_interleaved-frame, Fits, length-header_bytes,
}
use stream_sight.Rtsp.RtpConnection.Packets.{
  IsSized, IsStreaming, set_frame_type-keeps, opens_stream, next_header, interleaved_bytes,
  deliver-streaming,
}

abbrev join_frame : Option Interleaved → Option (List Interleaved) → Option (List Interleaved)
join_frame (some f) (some fs) = some (f ∷ fs)
join_frame (some f) none = none
join_frame none fs = none

-- The frames of a list of sent messages, when each is one.
unfoldable pub read_frames : List Sent → Option (List Interleaved)
read_frames [] = some []
read_frames (tcp bytes ∷ rest) = join_frame (read_interleaved bytes) (read_frames rest)
read_frames (datagram fd port bytes ∷ rest) = none

-- What a client has to find: the packets in order, numbered one after the other modulo 2^16.
unfoldable pub numbered : RtpHeader → ℕ → ℕ → List RtpPacket → List Interleaved
numbered h channel seq [] = []
numbered h channel seq (p ∷ ps) =
    record {
      channel = channel;
      header = record h { marker = p.last % 2; ts = p.timestamp; seq = seq };
      payload = p.body;
    }
    ∷ numbered h channel ((seq + 1) % 2 ^ 16) ps

-- A header whose fixed fields fit in their bits.
abbrev pub IsPlain : RtpHeader → Type 0
IsPlain h =
    (h.csrc < 16)
    × (h.extension < 2)
    × (h.padding < 2)
    × (h.version < 4)
    × (h.payload < 128)
    × (h.ssrc < 2 ^ 32)

abbrev pub IsSendable : RtpPacket → Type 0
IsSendable p = IsSized p × (p.timestamp < 2 ^ 32)

read-interleaved_bytes :
    (p : RtpPacket) (m : MediaChannelInfo)
    → IsSendable p
    → IsPlain m.rtp_header
    → m.packet_seq < 2 ^ 16
    → m.rtp_channel < 2 ^ 8
    → read_interleaved (interleaved_bytes p m)
      ≡ some (record { channel = m.rtp_channel; header = next_header m p; payload = p.body })
read-interleaved_bytes p m s plain seq chan =
    let n = 12 + length p.body in
    let h = next_header m p in
    let body = header_bytes h ++ p.body in
    let e1 : sub32 p.size 4 ≡ n = omega arith in
    let e2 : m.rtp_channel % 2 ^ 8 ≡ m.rtp_channel = omega arith in
    let l : length body ≡ n =
      length-append (header_bytes h) p.body ∙ ap (λ k. k + length p.body) (length-header_bytes h) in
    let frame : List ℕ = 36 ∷ m.rtp_channel ∷ n / 2 ^ 8 % 2 ^ 8 ∷ n % 2 ^ 8 ∷ body in
    let whole : length frame ≤ p.size = omega arith in
    let e : interleaved_bytes p m ≡ frame = rw (e1, e2) (take-all p.size frame whole) in
    let fits : Fits h =
      (plain.0, plain.1, plain.2, plain.3, plain.4, omega arith, seq, s.1, plain.5) in
    rw e (read_interleaved-frame m.rtp_channel h p.body fits (omega arith))

and-false : (b k : Bool) → k ≡ false → (b && k) ≡ false
and-false true k h = h
and-false false k h = refl

-- The fields that each packet sets do not matter beforehand.
numbered-header :
    (marker ts seq : ℕ) (h : RtpHeader) (channel next : ℕ) (ps : List RtpPacket)
    → numbered (record h { marker = marker; ts = ts; seq = seq }) channel next ps
      ≡ numbered h channel next ps
unfolding numbered
numbered-header marker ts seq h channel next [] = refl
numbered-header marker ts seq h channel next (p ∷ ps) =
    let first : Interleaved = record {
      channel = channel;
      header = record h { marker = p.last % 2; ts = p.timestamp; seq = next };
      payload = p.body;
    } in
    ap (λ l. first ∷ l) (numbered-header marker ts seq h channel ((next + 1) % 2 ^ 16) ps)

module _ {E : Type 0} (delivered : Bool) (id : ℕ) (old : List ℕ) where
  -- The trigger events run in the order in which SendRtpPacket made them.
  unfoldable pub deliver_all : List RtpPacket → RtpConnection E → RtpConnection E
  deliver_all [] c = c
  deliver_all (p ∷ ps) c = deliver_all ps (deliver delivered id p old c)

  -- Trigger events for one channel of an RTSP connection that streams over TCP and has had its key
  -- frame put on the connection one interleaved frame for each packet, in order: a client reads
  -- the packets' bodies, timestamps and markers back under consecutive sequence numbers, beginning
  -- with the channel's next one and modulo 2^16, and the packet count goes up by their number. The
  -- packets have 16 bytes beside their body, less than 2^16 in all, and timestamps below 2^32; the
  -- channel's header fields fit in their bits, its interleaved channel in a byte, and the count
  -- stays below 2^64.
  pub deliver_all-numbered :
      (ps : List RtpPacket) (c : RtpConnection E)
      → IsStreaming id c
      → c.has_key_frame ≡ true
      → All IsSendable ps
      → let m = c.media_channel_info id in
        IsPlain m.rtp_header
        → m.packet_seq < 2 ^ 16
        → m.rtp_channel < 2 ^ 8
        → m.packet_count + length ps < 2 ^ 64
        → (frames : List Sent) × ((deliver_all ps c).sent ≡ c.sent ++ frames)
          × (read_frames frames ≡ some (numbered m.rtp_header m.rtp_channel m.packet_seq ps))
          × (((deliver_all ps c).media_channel_info id).packet_count ≡ m.packet_count + length ps)
  unfolding deliver_all read_frames numbered
  deliver_all-numbered [] c h key s plain seq chan few =
      ([], sym (append-nil c.sent), refl, omega arith)
  deliver_all-numbered (p ∷ ps) c h key s plain seq chan few =
      let m = c.media_channel_info id in
      let d = deliver-streaming delivered id p old c h (rw key refl) in
      let c' = deliver delivered id p old c in
      let small : m.packet_count % 2 ^ 64 ≡ m.packet_count = omega arith in
      let counted : (m.packet_count + 1) % 2 ^ 64 ≡ m.packet_count + 1 = omega arith in
      let rest =
        deliver_all-numbered ps c' (d.3, d.4, rw d.1 h.2) d.2 s.1 (rw d.1 plain)
          (rw d.1 (omega arith)) (rw d.1 chan) (rw (d.1, counted) (omega arith)) in
      let frame = tcp (interleaved_bytes p m) in
      let first : Interleaved = record {
        channel = m.rtp_channel;
        header = next_header m p;
        payload = p.body;
      } in
      let r = read-interleaved_bytes p m s.0 plain seq chan in
      (
        frame ∷ rest.0,
        rest.1 ∙ ap (λ l. l ++ rest.0) d.0 ∙ append_assoc c.sent (frame ∷ []) rest.0,
        rw (r, rest.2)
            (ap (λ w. some (first ∷ numbered w.rtp_header w.rtp_channel w.packet_seq ps)) d.1
              ∙ ap (λ l. some (first ∷ l))
                  (numbered-header (p.last % 2) p.timestamp m.packet_seq m.rtp_header m.rtp_channel
                    ((m.packet_seq + 1) % 2 ^ 16) ps)),
        rest.3 ∙ ap (λ w. w.packet_count + length ps) d.1 ∙ rw counted (omega arith),
      )

  deliver-gated :
      (p : RtpPacket) (c : RtpConnection E)
      → (set_frame_type p.kind c).has_key_frame ≡ false
      → deliver delivered id p old c ≡ set_frame_type p.kind c
  unfolding deliver set_rtp_header
  deliver-gated p c key =
      let c1 = set_frame_type p.kind c in
      let cannot : may_send id c1 ≡ false = and-false _ c1.has_key_frame key in
      let pair = set_rtp_header id p old c1 in
      let same : pair ≡ (c1, old) = if-false (may_send id c1) _ (c1, old) cannot in
      let e = ap (λ w. w.0) same in
      let still = ap (may_send id) e ∙ cannot in if-false (may_send id pair.0) _ pair.0 still ∙ e

  -- Before the first key frame nothing goes out: while no packet has one of the types that
  -- SetFrameType takes for a beginning (0, a video key frame, audio), nothing is sent and the sequence
  -- number and the counts of the channel stay.
  pub deliver_all-gated :
      (ps : List RtpPacket) (c : RtpConnection E)
      → c.has_key_frame ≡ false
      → All (λ p. opens_stream p.kind ≡ false) ps
      → let c' = deliver_all ps c in
        (c'.sent ≡ c.sent)
        × (c'.media_channel_info ≡ c.media_channel_info)
        × (c'.has_key_frame ≡ false)
  unfolding deliver_all
  deliver_all-gated [] c key s = (refl, refl, key)
  deliver_all-gated (p ∷ ps) c key s =
      let k = set_frame_type-keeps p.kind c in
      let c1 = set_frame_type p.kind c in
      let key1 : c1.has_key_frame ≡ false = k.0 ∙ rw (key, s.0) refl in
      let d = deliver-gated p c key1 in
      let rest =
        deliver_all-gated ps (deliver delivered id p old c) (ap (λ w. w.has_key_frame) d ∙ key1)
          s.1 in
      (rest.0 ∙ ap (λ w. w.sent) d ∙ k.2, rest.1 ∙ ap (λ w. w.media_channel_info) d ∙ k.1, rest.2)

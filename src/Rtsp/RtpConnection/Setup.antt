-- ===== src/Rtsp/RtpConnection/Setup.antt =====
-- SetupRtpOverUdp and SetupRtpOverMulticast of src/rtsp/RtpConnection.cpp: ports are drawn at random
-- until their sockets can be bound, ten times at most. What the operating system answers at
-- each draw is a parameter.
use stream_sight.Base.{
  inl, inr, ℕ, zero, suc, ◌+◌, ◌%◌, ◌^◌, ◌<◌, ◌≡◌, refl, ap, ◌∙◌, Bool, true, false, not,
  false≢true, ◌&&◌, Bool-cases, bit_and, bit_and_even, bit_and_le, ◌-◌, if◌then◌else◌, ==_refl,
  arith,
}
use stream_sight.Rtsp.RtpConnection.{RtpConnection, over_udp, over_multicast, put}

-- One draw: `rd()`, the two sockets, and whether each could be bound.
pub record Draw : Type 0 where
  pub random : ℕ
  pub rtp_socket : ℕ
  pub rtcp_socket : ℕ
  pub rtp_bound : Bool
  pub rtcp_bound : Bool

abbrev pub max_draws : ℕ
max_draws = 10

-- `rd() & 0xfffe`
unfoldable pub draw_port : ℕ → ℕ
draw_port random = bit_and random 0xfffe

draw_port-even : (random : ℕ) → (draw_port random % 2 ≡ 0) × (draw_port random < 2 ^ 16 - 1)
unfolding draw_port
draw_port-even random = (bit_and_even random 0xfffe refl, omega (arith, bit_and_le random 0xfffe))

module _ {E : Type 0} where
  -- RFC 3550: RTP on an even port below 2^16 and RTCP on the next one.
  abbrev pub IsPaired : ℕ → RtpConnection E → Type 0
  IsPaired id c =
      (c.local_rtp_port id % 2 ≡ 0)
      × (c.local_rtcp_port id ≡ c.local_rtp_port id + 1)
      × (c.local_rtcp_port id < 2 ^ 16)

module _ {E : Type 0} (draws : ℕ → Draw) where
  -- The ports and sockets of a draw are stored, bound or not.
  unfoldable pub use_draw : ℕ → Draw → RtpConnection E → RtpConnection E
  use_draw id d c = record c {
    local_rtp_port = put id (draw_port d.random) c.local_rtp_port;
    local_rtcp_port = put id (draw_port d.random + 1) c.local_rtcp_port;
    rtpfd = put id d.rtp_socket c.rtpfd;
    rtcpfd = if d.rtp_bound then put id d.rtcp_socket c.rtcpfd else c.rtcpfd;
  }

  -- The loop of SetupRtpOverUdp, at draw `n` with `left` draws to go.
  unfoldable pub bind_pair : ℕ → ℕ → ℕ → RtpConnection E → RtpConnection E × Bool
  bind_pair id zero n c = (c, false)
  bind_pair id (suc left) n c =
      let c' = use_draw id (draws n) c in
      let next = bind_pair id left (suc n) c' in
      if (draws n).rtp_bound && (draws n).rtcp_bound then (c', true) else next

  unfoldable pub name_ports : ℕ → ℕ → ℕ → RtpConnection E → RtpConnection E
  name_ports id rtp_port rtcp_port c =
      let m = c.media_channel_info id in
      record c {
        media_channel_info =
            put id (record m { rtp_port = rtp_port; rtcp_port = rtcp_port }) c.media_channel_info;
      }

  -- Behind the loop: the addresses of the peer, once both sockets are bound.
  unfoldable pub address_peer : ℕ → RtpConnection E × Bool → RtpConnection E × Bool
  address_peer id (c, false) = (c, false)
  address_peer id (c, true) =
      let m = c.media_channel_info id in
      (
        record c {
          peer_rtp_port = put id m.rtp_port c.peer_rtp_port;
          peer_rtcp_port = put id m.rtcp_port c.peer_rtcp_port;
          media_channel_info = put id (record m { is_setup = true }) c.media_channel_info;
          transport_mode = over_udp;
        },
        true,
      )

  -- `peer` is whether the peer's address is known.
  unfoldable pub setup_rtp_over_udp : Bool → ℕ → ℕ → ℕ → RtpConnection E → RtpConnection E × Bool
  setup_rtp_over_udp peer id rtp_port rtcp_port c =
      let done = address_peer id (bind_pair id max_draws 0 (name_ports id rtp_port rtcp_port c)) in
      if not c.connected then (c, false) else if not peer then (c, false) else done

  -- The loop of SetupRtpOverMulticast, that binds one socket.
  unfoldable pub bind_one : ℕ → ℕ → ℕ → RtpConnection E → RtpConnection E × Bool
  bind_one id zero n c = (c, false)
  bind_one id (suc left) n c =
      let c' = record c {
        local_rtp_port = put id (draw_port (draws n).random) c.local_rtp_port;
        rtpfd = put id (draws n).rtp_socket c.rtpfd;
      } in
      let next = bind_one id left (suc n) c' in if (draws n).rtp_bound then (c', true) else next

  unfoldable pub setup_rtp_over_multicast : ℕ → ℕ → RtpConnection E → RtpConnection E × Bool
  setup_rtp_over_multicast id port c =
      let (c', bound) = bind_one id max_draws 0 c in
      let m = c'.media_channel_info id in
      if not bound then (c', false) else (
        record c' {
          media_channel_info =
              put id (record m { rtp_port = port; is_setup = true }) c'.media_channel_info;
          peer_rtp_port = put id port c'.peer_rtp_port;
          transport_mode = over_multicast;
          is_multicast = true;
        },
        true,
      )

  bind_pair-IsPaired :
      (id left n : ℕ) (c : RtpConnection E)
      → (bind_pair id left n c).1 ≡ true
      → IsPaired id (bind_pair id left n c).0
  unfolding bind_pair use_draw
  bind_pair-IsPaired id zero n c h = ground arith
  bind_pair-IsPaired id (suc left) n c h =
      elim (Bool-cases ((draws n).rtp_bound && (draws n).rtcp_bound)) [
        | inl both ↦
            let p = draw_port-even (draws n).random in
            rw (both, ==_refl id) (p.0, refl, omega (arith, p.1))
        | inr again ↦
            rw again (bind_pair-IsPaired id left (suc n) (use_draw id (draws n) c) (rw again at h))
      ]

  -- The loop leaves the channels alone.
  bind_pair-channels :
      (id left n : ℕ) (c : RtpConnection E)
      → (bind_pair id left n c).0.media_channel_info ≡ c.media_channel_info
  unfolding bind_pair use_draw
  bind_pair-channels id zero n c = refl
  bind_pair-channels id (suc left) n c =
      elim (Bool-cases ((draws n).rtp_bound && (draws n).rtcp_bound)) [
        | inl both ↦ rw both refl
        | inr again ↦ rw again (bind_pair-channels id left (suc n) (use_draw id (draws n) c))
      ]

  passed :
      (up known : Bool) (c : RtpConnection E) (done : RtpConnection E × Bool)
      → (if not up then (c, false) else if not known then (c, false) else done).1 ≡ true
      → (if not up then (c, false) else if not known then (c, false) else done) ≡ done
  passed true true c done h = refl
  passed true false c done h = absurd (false≢true h)
  passed false known c done h = absurd (false≢true h)

  name_ports-named :
      (id rtp_port rtcp_port : ℕ) (c : RtpConnection E)
      → let m = (name_ports id rtp_port rtcp_port c).media_channel_info id in
        (m.rtp_port ≡ rtp_port) × (m.rtcp_port ≡ rtcp_port)
  unfolding name_ports
  name_ports-named id rtp_port rtcp_port c = rw (==_refl id) (refl, refl)

  address_peer-addressed :
      (id : ℕ) (r : RtpConnection E × Bool)
      → (address_peer id r).1 ≡ true
      → let c' = (address_peer id r).0 in
        (r.1 ≡ true)
        × (c'.local_rtp_port ≡ r.0.local_rtp_port)
        × (c'.local_rtcp_port ≡ r.0.local_rtcp_port)
        × (c'.transport_mode ≡ over_udp)
        × (c'.peer_rtp_port id ≡ (r.0.media_channel_info id).rtp_port)
        × (c'.peer_rtcp_port id ≡ (r.0.media_channel_info id).rtcp_port)
        × ((c'.media_channel_info id).is_setup ≡ true)
  unfolding address_peer
  address_peer-addressed id (c, false) h = absurd (false≢true h)
  address_peer-addressed id (c, true) h = rw (==_refl id) (refl, refl, refl, refl, refl, refl, refl)

  -- When SetupRtpOverUdp answers true, whatever was drawn, the channel has an even RTP port and the
  -- next port for RTCP, both below 2^16, packets go by UDP to the ports that the client named, and
  -- the channel is set up.
  pub setup_rtp_over_udp-IsPaired :
      (peer : Bool) (id rtp_port rtcp_port : ℕ) (c : RtpConnection E)
      → (setup_rtp_over_udp peer id rtp_port rtcp_port c).1 ≡ true
      → let c' = (setup_rtp_over_udp peer id rtp_port rtcp_port c).0 in
        IsPaired id c'
        × (c'.transport_mode ≡ over_udp)
        × (c'.peer_rtp_port id ≡ rtp_port)
        × (c'.peer_rtcp_port id ≡ rtcp_port)
        × ((c'.media_channel_info id).is_setup ≡ true)
  unfolding setup_rtp_over_udp
  setup_rtp_over_udp-IsPaired peer id rtp_port rtcp_port c h =
      let base = name_ports id rtp_port rtcp_port c in
      let r = bind_pair id max_draws 0 base in
      let e = passed c.connected peer c (address_peer id r) h in
      let a = address_peer-addressed id r (rw e at h) in
      let paired = bind_pair-IsPaired id max_draws 0 base a.0 in
      let same = bind_pair-channels id max_draws 0 base in
      let named = name_ports-named id rtp_port rtcp_port c in
      rw (e, a.1, a.2)
        (
          paired,
          a.3,
          a.4 ∙ ap (λ f. (f id).rtp_port) same ∙ named.0,
          a.5 ∙ ap (λ f. (f id).rtcp_port) same ∙ named.1,
          a.6,
        )

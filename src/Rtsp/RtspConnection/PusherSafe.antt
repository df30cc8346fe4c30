-- ===== src/Rtsp/RtspConnection/PusherSafe.antt =====
-- No call through a null `rtp_conn_` on the pusher's side of src/rtsp/RtspConnection.cpp.
use stream_sight.Base.{ℕ, ◌≡◌, refl, Bool, true, false, false≢true, Option, none, some, [], if-elim}
use stream_sight.Rtsp.RtpConnection.{RtpConnection}
use stream_sight.Rtsp.RtspConnection.Pusher.{
  requests, needs_setup, setup_track, setup_chosen, unless, setup_next, record_with, announce_to,
  announce_with, announce_found, send_announce, setup_session, send_setup,
}
use stream_sight.Rtsp.RtspConnection.Read.{answer_of}
use stream_sight.Rtsp.RtspConnection.Safe.{
  IsSafe, Safe, same-IsSafe, handle_close-IsSafe, sends-IsSafe, some-IsSafe, with_rtp-IsSafe,
}
use stream_sight.Rtsp.RtspConnection.Server.{Environment, join}
use stream_sight.Rtsp.RtspConnection.{State, ConnectionMode, rtsp_server, rtsp_pusher}
use stream_sight.Rtsp.RtspMessage.Faults.{Ends, Ends-bind, Any}
use stream_sight.Rtsp.RtspMessage.Request.{is_some}
use stream_sight.Rtsp.RtspMessage.Response.{
  RtspResponse, Sought, options, describe, announce, setup, record_stream, rtcp, none_sought,
}
use stream_sight.Rtsp.RtspMessage.{Result}
use stream_sight.Rtsp.Sdp.{Described}
use stream_sight.Text.{Text, text_eq}

unless-Ends : (first : Bool) (r : Result Bool) → Ends Any r → Ends Any (unless first r)
unless-Ends true r h = tt
unless-Ends false r h = h

module _ {E : Type 0} where
  -- The RTP side stays through a message.
  pub requests-IsSafe : (m : RtspResponse × Text) (s : State E) → IsSafe s → IsSafe (requests m s)
  requests-IsSafe (r, text) s h = sends-IsSafe text _ (same-IsSafe s _ refl refl refl refl h)

  setup_track-Safe :
      (chn a b : ℕ) (rtp : Option (RtpConnection E)) (s : State E)
      → IsSafe s
      → is_some rtp ≡ true
      → Safe (setup_track chn a b rtp s)
  unfolding setup_track
  setup_track-Safe chn a b none s h there = absurd (false≢true there)
  setup_track-Safe chn a b (some rtp) s h there = requests-IsSafe _ _ (with_rtp-IsSafe _ s h)

  setup_chosen-Safe :
      (first second : Bool) (s : State E)
      → IsSafe s
      → is_some s.conn.rtp_conn ≡ true
      → Safe (setup_chosen first second s)
  unfolding setup_chosen
  setup_chosen-Safe true second s h there = setup_track-Safe 0 0 1 s.conn.rtp_conn s h there
  setup_chosen-Safe false true s h there = setup_track-Safe 1 2 3 s.conn.rtp_conn s h there
  setup_chosen-Safe false false s h there = requests-IsSafe _ s h

  needs_setup-Ends :
      (chn : ℕ) (source : Option Described) (rtp : Option (RtpConnection E))
      → is_some rtp ≡ true
      → Ends Any (needs_setup chn source rtp)
  unfolding needs_setup
  needs_setup-Ends chn none rtp there = tt
  needs_setup-Ends chn (some source) none there = absurd (false≢true there)
  needs_setup-Ends chn (some source) (some rtp) there = tt

  setup_next-Safe :
      (sources : ℕ → Option Described) (s : State E)
      → IsSafe s
      → is_some s.conn.rtp_conn ≡ true
      → Safe (setup_next sources s)
  unfolding setup_next
  setup_next-Safe sources s h there =
      Ends-bind Any IsSafe (needs_setup 0 (sources 0) s.conn.rtp_conn) _
        (needs_setup-Ends 0 (sources 0) s.conn.rtp_conn there)
        (λ first _.
          Ends-bind Any IsSafe (unless first (needs_setup 1 (sources 1) s.conn.rtp_conn)) _
            (unless-Ends first _ (needs_setup-Ends 1 (sources 1) s.conn.rtp_conn there))
            (λ second _. setup_chosen-Safe first second s h there))

  module _ (env : Environment E) (alive : ℕ → Bool) where
    record_with-Safe :
        (rtp : Option (RtpConnection E)) (s : State E)
        → IsSafe s
        → is_some rtp ≡ true
        → Safe (record_with env rtp s)
    unfolding record_with
    record_with-Safe none s h there = absurd (false≢true there)
    record_with-Safe (some rtp) s h there = some-IsSafe _ refl

    announce_to-IsSafe : (w : State E × Text) → IsSafe w.0 → IsSafe (announce_to env alive w)
    unfolding announce_to
    announce_to-IsSafe (s, sdp) h =
        if-elim IsSafe (text_eq sdp []) _ _ (λ _. handle_close-IsSafe alive s h)
          (λ _. requests-IsSafe _ s h)

    announce_with-Safe :
        (rtp : Option (RtpConnection E)) (id : ℕ) (s : State E)
        → IsSafe s
        → is_some rtp ≡ true
        → Safe (announce_with env alive rtp id s)
    unfolding announce_with join
    announce_with-Safe none id s h there = absurd (false≢true there)
    announce_with-Safe (some rtp) id s h there = announce_to-IsSafe _ (some-IsSafe _ refl)

    announce_found-Safe :
        (o : Option ℕ) (s : State E)
        → IsSafe s
        → is_some s.conn.rtp_conn ≡ true
        → Safe (announce_found env alive o s)
    unfolding announce_found
    announce_found-Safe none s h there = handle_close-IsSafe alive s h
    announce_found-Safe (some id) s h there = announce_with-Safe s.conn.rtp_conn id s h there

    setup_session-Safe :
        (o : Option ℕ) (s : State E)
        → IsSafe s
        → is_some s.conn.rtp_conn ≡ true
        → Safe (setup_session env alive o s)
    unfolding setup_session
    setup_session-Safe none s h there = handle_close-IsSafe alive s h
    setup_session-Safe (some id) s h there = setup_next-Safe _ s h there

    pub answer_of-Safe :
        (mode : ConnectionMode) (asked : Sought) (s : State E)
        → IsSafe s
        → is_some s.conn.rtp_conn ≡ true
        → Safe (answer_of env alive mode asked s)
    unfolding answer_of send_announce send_setup
    answer_of-Safe rtsp_pusher options s h there = announce_found-Safe _ s h there
    answer_of-Safe rtsp_server options s h there = h
    answer_of-Safe mode announce s h there = setup_session-Safe _ s h there
    answer_of-Safe mode describe s h there = setup_session-Safe _ s h there
    answer_of-Safe mode setup s h there = setup_session-Safe _ s h there
    answer_of-Safe mode record_stream s h there = record_with-Safe s.conn.rtp_conn s h there
    answer_of-Safe mode rtcp s h there = h
    answer_of-Safe mode none_sought s h there = h

-- ===== src/Rtsp/RtspConnection/Safe.antt =====
-- No call through a null `rtp_conn_` in src/rtsp/RtspConnection.cpp: what the handlers keep.
use stream_sight.Base.{
  ℕ, ◌≡◌, ◌≢◌, refl, ◌⊎◌, inl, inr, Bool, true, false, false≢true, Option, none, some,
  if◌then◌else◌, if-elim, length, ◌==◌,
}
use stream_sight.Rtsp.RtpConnection.{
  RtpConnection, TransportMode, over_tcp, over_udp, over_multicast,
}
use stream_sight.Rtsp.RtspConnection.Server.{
  Environment, sends, with_rtp, challenge, authenticate, is_answered, handle_cmd_option, join,
  answer_describe, describe_found, describe_authorized, handle_cmd_describe, setup_multicast,
  setup_tcp, watch, setup_udp, setup_by_mode, setup_with, setup_found, setup_authorized,
  handle_cmd_setup, play_with, play_authorized, handle_cmd_play, teardown_with, get_parameter_with,
  handle_cmd,
}
use stream_sight.Rtsp.RtspConnection.{
  RtspConnection, DigestAuthentication, State, rtsp_server, look_session, send_rtsp_message,
  append_message, Rtsp, on_close, handle_close, leave_session,
}
use stream_sight.Rtsp.RtspMessage.Request.{is_some}
use stream_sight.Rtsp.RtspMessage.{Method, Result, ok, fault, null_pointer}
use stream_sight.Rtsp.Sdp.{Description}
use stream_sight.Text.{Text}

module _ {E : Type 0} where
  -- No session is found by the id 0 as long as there is no RTP side, and a connection that knows a session
  -- or pushes has its RTP side. RtspServer finds none by 0; RtspPusher ignores the id.
  pub record IsSafe (s : State E) : Type 0 where
    pub rooted : (s.rtsp.look_id 0 ≡ none) ⊎ (is_some s.conn.rtp_conn ≡ true)
    pub joined : (s.conn.session_id ≡ 0) ⊎ (is_some s.conn.rtp_conn ≡ true)
    pub pushing : (s.conn.conn_mode ≡ rtsp_server) ⊎ (is_some s.conn.rtp_conn ≡ true)

  -- A result that is safe, or a fault of another kind.
  abbrev pub Safe : Result (State E) → Type 0
  Safe (ok s) = IsSafe s
  Safe (fault why) = why ≢ null_pointer

  -- What only the named fields are read of may change in the others.
  pub same-IsSafe :
      (s t : State E)
      → t.rtsp.look_id ≡ s.rtsp.look_id
      → t.conn.session_id ≡ s.conn.session_id
      → t.conn.conn_mode ≡ s.conn.conn_mode
      → is_some t.conn.rtp_conn ≡ is_some s.conn.rtp_conn
      → IsSafe s
      → IsSafe t
  same-IsSafe s t l i m r h = record {
    rooted = rw (l, r) h.rooted;
    joined = rw (i, r) h.joined;
    pushing = rw (m, r) h.pushing;
  }

  module _ (alive : ℕ → Bool) where
    leave_session-look :
        (fd : ℕ) (o : Option ℕ) (s : State E)
        → (leave_session alive fd o s.rtsp).look_id ≡ s.rtsp.look_id
    unfolding leave_session
    leave_session-look fd none s = refl
    leave_session-look fd (some id) s = refl

    pub handle_close-IsSafe : (s : State E) → IsSafe s → IsSafe (handle_close alive s)
    unfolding handle_close on_close
    handle_close-IsSafe s h =
        if-elim IsSafe s.conn.is_closed _ _ (λ _. h)
          (λ _.
            same-IsSafe s _
              (if-elim (λ (r : Rtsp). r.look_id ≡ s.rtsp.look_id) (s.conn.session_id == 0) _ _
                (λ _. refl) (λ _. leave_session-look s.conn.socket _ s))
              refl refl refl h)

  append_message-IsSafe :
      (text : Text) (s : State E)
      → IsSafe s
      → IsSafe (record s { conn = append_message text s.conn })
  unfolding append_message
  append_message-IsSafe text s h =
      if-elim (λ (c : RtspConnection E). IsSafe (record s { conn = c })) s.conn.is_closed _ _
        (λ _. same-IsSafe s _ refl refl refl refl h) (λ _. same-IsSafe s _ refl refl refl refl h)

  pub sends-IsSafe : (text : Text) (s : State E) → IsSafe s → IsSafe (sends text s)
  unfolding send_rtsp_message
  sends-IsSafe text s h =
      let k = append_message-IsSafe text s h in
      if-elim IsSafe (s.conn.send_fails (length s.conn.sent)) _ _
        (λ _. handle_close-IsSafe s.conn.others_alive _ k) (λ _. k)

  -- Once there is an RTP side, the rest may be as it will.
  pub some-IsSafe : (s : State E) → is_some s.conn.rtp_conn ≡ true → IsSafe s
  some-IsSafe s r = record { rooted = inr r; joined = inr r; pushing = inr r }

  pub with_rtp-IsSafe : (rtp : RtpConnection E) (s : State E) → IsSafe s → IsSafe (with_rtp rtp s)
  with_rtp-IsSafe rtp s h = some-IsSafe (with_rtp rtp s) refl

  -- A session that is found tells of the RTP side.
  pub found-some :
      (s : State E) (id : ℕ)
      → IsSafe s
      → look_session (s.rtsp.look_id s.conn.session_id) s.rtsp ≡ some id
      → is_some s.conn.rtp_conn ≡ true
  unfolding look_session
  found-some s id h e = elim h.joined [
    | inl zero ↦ elim h.rooted [
      | inl nobody ↦ absurd (missing s.rtsp.known (rw (zero, nobody) at e))
      | inr there ↦ there
    ]
    | inr there ↦ there
  ]
    where
      missing : (known : Bool) → (if known then none else none) ≢ some id
      missing true e = cc
      missing false e = cc

  module _ (env : Environment E) where
    pub authenticate-IsSafe :
        (info : Option DigestAuthentication) (s : State E)
        → IsSafe s
        → IsSafe (authenticate env info s).0
    unfolding authenticate challenge
    authenticate-IsSafe none s h = h
    authenticate-IsSafe (some info) s h =
        if-elim (λ (w : State E × Bool). IsSafe w.0) s.conn.has_auth _ _ (λ _. h)
          (λ _.
            if-elim (λ (w : State E × Bool). IsSafe w.0) (is_answered env info s.conn) _ _
              (λ _. same-IsSafe s _ refl refl refl refl h)
              (λ _. sends-IsSafe _ _ (same-IsSafe s _ refl refl refl refl h)))

    describe_found-IsSafe :
        (found : Option ℕ) (rtp : RtpConnection E) (s : State E)
        → IsSafe s
        → IsSafe (describe_found env found rtp s)
    unfolding describe_found answer_describe join
    describe_found-IsSafe none rtp s h = sends-IsSafe _ _ (with_rtp-IsSafe rtp s h)
    describe_found-IsSafe (some id) rtp s h = sends-IsSafe _ _ (some-IsSafe _ refl)

    describe_authorized-IsSafe :
        (w : State E × Bool) → IsSafe w.0 → IsSafe (describe_authorized env w)
    unfolding describe_authorized
    describe_authorized-IsSafe (s, false) h = h
    describe_authorized-IsSafe (s, true) h = describe_found-IsSafe _ _ s h

    setup_multicast-IsSafe :
        (chn : ℕ) (d : Description) (w : RtpConnection E × Bool) (s : State E)
        → IsSafe s
        → IsSafe (setup_multicast env chn d w s)
    unfolding setup_multicast
    setup_multicast-IsSafe chn d (rtp, false) s h = sends-IsSafe _ _ (with_rtp-IsSafe rtp s h)
    setup_multicast-IsSafe chn d (rtp, true) s h = sends-IsSafe _ _ (with_rtp-IsSafe rtp s h)

    setup_udp-IsSafe :
        (chn : ℕ) (w : RtpConnection E × Bool) (s : State E)
        → IsSafe s
        → IsSafe (setup_udp env chn w s)
    unfolding setup_udp watch
    setup_udp-IsSafe chn (rtp, false) s h = sends-IsSafe _ _ (with_rtp-IsSafe rtp s h)
    setup_udp-IsSafe chn (rtp, true) s h = sends-IsSafe _ _ (some-IsSafe _ refl)

    setup_by_mode-IsSafe :
        (group : Bool) (mode : TransportMode) (d : Description) (rtp : RtpConnection E)
        (s : State E)
        → IsSafe s
        → IsSafe (setup_by_mode env group mode d rtp s)
    unfolding setup_by_mode setup_tcp
    setup_by_mode-IsSafe true over_multicast d rtp s h = setup_multicast-IsSafe _ d _ s h
    setup_by_mode-IsSafe true over_tcp d rtp s h = sends-IsSafe _ s h
    setup_by_mode-IsSafe true over_udp d rtp s h = sends-IsSafe _ s h
    setup_by_mode-IsSafe false over_tcp d rtp s h = sends-IsSafe _ _ (with_rtp-IsSafe _ s h)
    setup_by_mode-IsSafe false over_udp d rtp s h = setup_udp-IsSafe _ _ s h
    setup_by_mode-IsSafe false over_multicast d rtp s h = sends-IsSafe _ s h

    setup_with-Safe :
        (rtp : Option (RtpConnection E)) (id : ℕ) (s : State E)
        → IsSafe s
        → is_some rtp ≡ true
        → Safe (setup_with env rtp id s)
    unfolding setup_with
    setup_with-Safe none id s h there = absurd (false≢true there)
    setup_with-Safe (some rtp) id s h there = setup_by_mode-IsSafe _ _ _ rtp s h

    setup_found-Safe :
        (found : Option ℕ) (s : State E)
        → IsSafe s
        → look_session (s.rtsp.look_id s.conn.session_id) s.rtsp ≡ found
        → Safe (setup_found env found s)
    unfolding setup_found
    setup_found-Safe none s h e = sends-IsSafe _ s h
    setup_found-Safe (some id) s h e = setup_with-Safe s.conn.rtp_conn id s h (found-some s id h e)

    setup_authorized-Safe : (w : State E × Bool) → IsSafe w.0 → Safe (setup_authorized env w)
    unfolding setup_authorized
    setup_authorized-Safe (s, false) h = h
    setup_authorized-Safe (s, true) h = setup_found-Safe _ s h refl

    play_with-IsSafe :
        (rtp : Option (RtpConnection E)) (s : State E) → IsSafe s → IsSafe (play_with env rtp s)
    unfolding play_with
    play_with-IsSafe none s h = h
    play_with-IsSafe (some rtp) s h = sends-IsSafe _ _ (some-IsSafe _ refl)

    play_authorized-IsSafe : (w : State E × Bool) → IsSafe w.0 → IsSafe (play_authorized env w)
    unfolding play_authorized
    play_authorized-IsSafe (s, false) h = h
    play_authorized-IsSafe (s, true) h = play_with-IsSafe s.conn.rtp_conn s h

    teardown_with-IsSafe :
        (rtp : Option (RtpConnection E)) (s : State E) → IsSafe s → IsSafe (teardown_with env rtp s)
    unfolding teardown_with
    teardown_with-IsSafe none s h = h
    teardown_with-IsSafe (some rtp) s h = sends-IsSafe _ _ (with_rtp-IsSafe _ s h)

    get_parameter_with-IsSafe :
        (rtp : Option (RtpConnection E)) (s : State E)
        → IsSafe s
        → IsSafe (get_parameter_with env rtp s)
    unfolding get_parameter_with
    get_parameter_with-IsSafe none s h = h
    get_parameter_with-IsSafe (some rtp) s h = sends-IsSafe _ s h

    -- Every command keeps the connection safe and calls through no null pointer.
    pub handle_cmd-Safe : (m : Method) (s : State E) → IsSafe s → Safe (handle_cmd env m s)
    unfolding handle_cmd handle_cmd_option handle_cmd_describe handle_cmd_setup handle_cmd_play
    handle_cmd-Safe Method.options s h = sends-IsSafe _ s h
    handle_cmd-Safe Method.describe s h =
        describe_authorized-IsSafe _ (authenticate-IsSafe s.conn.auth_info s h)
    handle_cmd-Safe Method.setup s h =
        setup_authorized-Safe _ (authenticate-IsSafe s.conn.auth_info s h)
    handle_cmd-Safe Method.play s h =
        play_authorized-IsSafe _ (authenticate-IsSafe s.conn.auth_info s h)
    handle_cmd-Safe Method.teardown s h = teardown_with-IsSafe s.conn.rtp_conn s h
    handle_cmd-Safe Method.get_parameter s h = get_parameter_with-IsSafe s.conn.rtp_conn s h
    handle_cmd-Safe Method.rtcp s h = h
    handle_cmd-Safe Method.no_method s h = h

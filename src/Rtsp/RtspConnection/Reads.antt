-- ===== src/Rtsp/RtspConnection/Reads.antt =====
-- Whatever src/rtsp/RtspConnection.cpp reads, in whatever order: no call through a null `rtp_conn_`.
use stream_sight.Base.{
  ℕ, ◌≡◌, refl, ◌⊎◌, inl, inr, Bool, true, false, not, ◌&&◌, Option, none, some, List, [], ◌∷◌,
  if-elim, ltb, leb, ◌==◌, add32,
}
use stream_sight.Net.BufferReader.{BufferReader, readable_bytes}
use stream_sight.Rtsp.RtspConnection.Pusher.{send_options}
use stream_sight.Rtsp.RtspConnection.Read.{
  packet_size, handle_rtcp, handle_rtcp_socket, with_request, finish_request, dispatch,
  request_parsed, handle_rtsp_request, answer_of, response_parsed, handle_rtsp_response, cap,
  handle_by_mode, on_read, Reading, is_rtcp,
}
use stream_sight.Rtsp.RtspConnection.Safe.{
  IsSafe, Safe, same-IsSafe, handle_close-IsSafe, sends-IsSafe, some-IsSafe, handle_cmd-Safe,
}
use stream_sight.Rtsp.RtspConnection.Server.{Environment, handle_cmd}
use stream_sight.Rtsp.RtspConnection.{
  State, ConnectionMode, rtsp_server, rtsp_pusher, keep_alive, handle_close,
}
use stream_sight.Rtsp.RtspMessage.Faults.{
  Ends, Ends-bind, Any, parse_request-Ends, parse_response-Ends,
}
use stream_sight.Rtsp.RtspMessage.Request.{is_some, first_byte, parse_request}
use stream_sight.Rtsp.RtspMessage.Response.{RtspResponse, parse_response}
use stream_sight.Rtsp.RtspMessage.{RtspRequest, Result, ok, ◌>>=◌, has_got_all}
use stream_sight.Rtsp.RtspConnection.PusherSafe.{answer_of-Safe}

module _ {E : Type 0} where
  abbrev SafeReading : Result (Reading E) → Type 0
  SafeReading = Ends (λ (x : Reading E). IsSafe x.1)

  handle_rtcp-IsSafe : (b : BufferReader) (s : State E) → IsSafe s → IsSafe (handle_rtcp b s).1
  unfolding handle_rtcp keep_alive
  handle_rtcp-IsSafe b s h =
      if-elim (λ (x : BufferReader × State E). IsSafe x.1)
        (not (first_byte b == b'$' && ltb 4 (readable_bytes b))) _ _ (λ _. h)
        (λ _.
          if-elim (λ (x : BufferReader × State E). IsSafe x.1)
            (leb (add32 (packet_size b) 4) (readable_bytes b)) _ _
            (λ _. same-IsSafe s _ refl refl refl refl h) (λ _. h))

  finish_request-IsSafe : (s : State E) → IsSafe s → IsSafe (finish_request s)
  unfolding finish_request
  finish_request-IsSafe s h =
      if-elim IsSafe (has_got_all s.conn.rtsp_request) _ _
        (λ _. same-IsSafe s _ refl refl refl refl h) (λ _. h)

  module _ (env : Environment E) (alive : ℕ → Bool) where
    dispatch-Safe :
        (b : BufferReader) (s : State E) → IsSafe s → SafeReading (dispatch env alive b s)
    unfolding dispatch
    dispatch-Safe b s h =
        if-elim SafeReading (is_rtcp s.conn.rtsp_request.method) _ _ (λ _. handle_rtcp-IsSafe b s h)
          (λ _.
            if-elim SafeReading (not (has_got_all s.conn.rtsp_request)) _ _ (λ _. h)
              (λ _.
                Ends-bind IsSafe (λ (x : Reading E). IsSafe x.1)
                  (handle_cmd env s.conn.rtsp_request.method s) _
                  (handle_cmd-Safe env s.conn.rtsp_request.method s h)
                  (λ t k. finish_request-IsSafe t k)))

    request_parsed-Safe :
        (p : BufferReader × RtspRequest × Bool) (s : State E)
        → IsSafe s
        → SafeReading (request_parsed env alive p s)
    unfolding request_parsed
    request_parsed-Safe (b, r, true) s h =
        dispatch-Safe b (with_request r s) (same-IsSafe s _ refl refl refl refl h)
    request_parsed-Safe (b, r, false) s h = same-IsSafe s _ refl refl refl refl h

    response_parsed-Safe :
        (p : BufferReader × RtspResponse × Bool) (s : State E)
        → IsSafe s
        → is_some s.conn.rtp_conn ≡ true
        → SafeReading (response_parsed env alive p s)
    unfolding response_parsed
    response_parsed-Safe (b, r, false) s h there = same-IsSafe s _ refl refl refl refl h
    response_parsed-Safe (b, r, true) s h there =
        let t = record s { conn = record s.conn { rtsp_response = r } } in
        Ends-bind IsSafe (λ (x : Reading E). IsSafe x.1)
          (answer_of env alive s.conn.conn_mode r.method t) _
          (answer_of-Safe env alive s.conn.conn_mode r.method t
            (same-IsSafe s t refl refl refl refl h) there)
          (λ u k. k)

    handle_by_mode-Safe :
        (mode : ConnectionMode) (b : BufferReader) (s : State E)
        → s.conn.conn_mode ≡ mode
        → IsSafe s
        → SafeReading (handle_by_mode env alive mode b s)
    unfolding handle_by_mode handle_rtsp_request handle_rtsp_response
    handle_by_mode-Safe rtsp_server b s m h =
        Ends-bind Any (λ (x : Reading E). IsSafe x.1) (parse_request b s.conn.rtsp_request) _
          (parse_request-Ends b s.conn.rtsp_request) (λ p _. request_parsed-Safe p s h)
    handle_by_mode-Safe rtsp_pusher b s m h =
        Ends-bind Any (λ (x : Reading E). IsSafe x.1)
          (parse_response env.literal_gap b s.conn.rtsp_response) _
          (parse_response-Ends env.literal_gap b s.conn.rtsp_response)
          (λ p _. response_parsed-Safe p s h (pushing_some h.pushing m))
      where
        pushing_some :
            {mode : ConnectionMode} {there : Bool}
            → (mode ≡ rtsp_server) ⊎ (there ≡ true)
            → mode ≡ rtsp_pusher
            → there ≡ true
        pushing_some (inl server) m = absurd (cc)
        pushing_some (inr there) m = there

    cap-IsSafe : (x : Reading E) → IsSafe x.1 → IsSafe (cap env alive x).1
    unfolding cap
    cap-IsSafe (b, s, false) h = h
    cap-IsSafe (b, s, true) h = h

    pub on_read-Safe :
        (b : BufferReader) (s : State E) → IsSafe s → SafeReading (on_read env alive b s)
    unfolding on_read keep_alive
    on_read-Safe b s h =
        let t = record s { conn = keep_alive s.conn } in
        let k = same-IsSafe s t refl refl refl refl h in
        if-elim SafeReading (readable_bytes b == 0) _ _ (λ _. k)
          (λ _.
            Ends-bind (λ (x : Reading E). IsSafe x.1) (λ (x : Reading E). IsSafe x.1)
              (handle_by_mode env alive t.conn.conn_mode b t) _
              (handle_by_mode-Safe t.conn.conn_mode b t refl k) (λ x j. cap-IsSafe x j))

    -- SendOptions makes the RTP side of any connection.
    starts-IsSafe : (s : State E) → IsSafe (send_options env alive rtsp_pusher s)
    unfolding send_options
    starts-IsSafe s =
        if-elim IsSafe s.rtsp.known _ _ (λ _. sends-IsSafe _ _ (some-IsSafe _ refl))
          (λ _. handle_close-IsSafe alive _ (some-IsSafe _ refl))

    -- What happens to a connection: bytes come, a pusher is started, RTCP comes by UDP, or it is closed.
    pub data Event : Type 0 where
      reads : BufferReader → Event
      starts closes : Event
      reports : Option ℕ → Event

    unfoldable pub step : State E → Event → Result (State E)
    step s (reads b) = do x ← on_read env alive b s; ok x.1
    step s starts = ok (send_options env alive rtsp_pusher s)
    step s closes = ok (handle_close alive s)
    step s (reports n) = ok (handle_rtcp_socket n s)

    unfoldable pub run : State E → List Event → Result (State E)
    run s [] = ok s
    run s (e ∷ es) = step s e >>= λ t. run t es

    step-Safe : (s : State E) (e : Event) → IsSafe s → Safe (step s e)
    unfolding step handle_rtcp_socket keep_alive
    step-Safe s (reads b) h =
        Ends-bind (λ (x : Reading E). IsSafe x.1) IsSafe (on_read env alive b s) _
          (on_read-Safe b s h) (λ x k. k)
    step-Safe s starts h = starts-IsSafe s
    step-Safe s closes h = handle_close-IsSafe alive s h
    step-Safe s (reports none) h = h
    step-Safe s (reports (some n)) h =
        if-elim IsSafe (ltb 0 n) _ _ (λ _. same-IsSafe s _ refl refl refl refl h) (λ _. h)

    -- Whatever comes to a connection, in whatever order: requests, answers, RTCP, the start of a pusher, the
    -- close. It never calls through a null `rtp_conn_`, although SETUP and the pusher's steps do not
    -- test it; and what is asked of the state at first holds again: without an RTP side no session is
    -- found by the id 0, and a connection that knows a session, or that pushes, has an RTP side. So it is
    -- for a new connection of RtspServer, whose ids are positive, but not for one of RtspPusher.
    pub run-Safe : (es : List Event) (s : State E) → IsSafe s → Safe (run s es)
    unfolding run
    run-Safe [] s h = h
    run-Safe (e ∷ es) s h =
        Ends-bind IsSafe IsSafe (step s e) _ (step-Safe s e h) (λ t k. run-Safe es t k)

    -- Once SendOptions has started a pusher, nothing that comes to its connection, in whatever order, makes it
    -- call through a null `rtp_conn_`: whatever state it was in, and whatever session is found by any id,
    -- as RtspPusher finds its own by every id.
    pub run-starts-Safe : (es : List Event) (s : State E) → Safe (run s (starts ∷ es))
    unfolding run step
    run-starts-Safe es s = run-Safe es (send_options env alive rtsp_pusher s) (starts-IsSafe s)

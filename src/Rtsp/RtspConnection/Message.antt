-- ===== src/Rtsp/RtspConnection/Message.antt =====
-- What one message of src/rtsp/RtspConnection.cpp does to its connection.
use stream_sight.Base.{
  ℕ, ◌≡◌, refl, sym, ap, ◌∙◌, subst, Bool, true, false, false≢true, List, [], ◌∷◌, ◌++◌, if-elim,
  if-false, length,
}
use stream_sight.Rtsp.RtspConnection.Server.{sends}
use stream_sight.Rtsp.RtspConnection.{
  State, append_message, send_rtsp_message, on_close, handle_close,
}
use stream_sight.Rtsp.RtspMessage.{Result, ok, fault, RtspRequest}
use stream_sight.Text.{Text}

module _ {E : Type 0} where
  -- The connection is up, with these messages sent, this request, and an error of the socket to come
  -- or not.
  abbrev pub Holds : List Text → RtspRequest → Bool → State E → Type 0
  Holds sent r bad s =
      (s.conn.is_closed ≡ false)
      × (s.conn.sent ≡ sent)
      × (s.conn.rtsp_request ≡ r)
      × (s.conn.send_fails (length s.conn.sent) ≡ bad)

  -- One message more, on which the connection is closed if the socket fails.
  pub record One (sent : List Text) (r : RtspRequest) (bad : Bool) (s : State E) : Type 0 where
    pub text : Text
    pub closed : s.conn.is_closed ≡ bad
    pub sent_one : s.conn.sent ≡ sent ++ text ∷ []
    pub request : s.conn.rtsp_request ≡ r

  abbrev pub OneOf : List Text → RtspRequest → Bool → Result (State E) → Type 0
  OneOf sent r bad (ok s) = One sent r bad s
  OneOf sent r bad (fault why) = ⊥

  append-open :
      (text : Text) (s : State E)
      → s.conn.is_closed ≡ false
      → append_message text s.conn ≡ record s.conn { sent = s.conn.sent ++ text ∷ [] }
  unfolding append_message
  append-open text s h =
      if-false s.conn.is_closed s.conn (record s.conn { sent = s.conn.sent ++ text ∷ [] }) h

  close-One :
      (sent : List Text) (r : RtspRequest) (alive : ℕ → Bool) (s : State E)
      → One sent r false s
      → One sent r true (handle_close alive s)
  unfolding handle_close on_close
  close-One sent r alive s one =
      if-elim (One sent r true) s.conn.is_closed _ _
        (λ closed. absurd (false≢true (sym one.closed ∙ closed)))
        (λ up. record {
          text = one.text;
          closed = refl;
          sent_one = one.sent_one;
          request = one.request;
        })

  pub sends-One :
      (sent : List Text) (r : RtspRequest) (bad : Bool) (text : Text) (s : State E)
      → Holds sent r bad s
      → One sent r bad (sends text s)
  unfolding send_rtsp_message
  sends-One sent r bad text s (up, e, q, b) =
      let m = append-open text s up in
      let s' = record s { conn = append_message text s.conn } in
      let one : One sent r false s' = record {
        text = text;
        closed = ap (λ c. c.is_closed) m ∙ up;
        sent_one = ap (λ c. c.sent) m ∙ ap (λ l. l ++ text ∷ []) e;
        request = ap (λ c. c.rtsp_request) m ∙ q;
      } in
      if-elim (One sent r bad) (s.conn.send_fails (length s.conn.sent)) _ _
        (λ fails.
          subst (λ x. One sent r x (handle_close s.conn.others_alive s')) (sym fails ∙ b)
            (close-One sent r s.conn.others_alive s' one))
        (λ works. subst (λ x. One sent r x s') (sym works ∙ b) one)

-- ===== src/Rtsp/RtspMessage/Laws.antt =====
-- Where the parsers of src/rtsp/RtspMessage.cpp go beyond a text or an array, and where they do not.
use stream_sight.Base.{
  ℕ, ◌+◌, ◌≤◌, ◌<◌, ◌≡◌, refl, ap, inl, inr, Bool, true, false, not, ◌&&◌, Bool-cases, Option-cases,
  none, some, [], ◌∷◌, ◌++◌, if-true, if-false, ltb, ltb-false, lt→ltb, length, length-append,
  arith,
}
use stream_sight.Net.BufferReader.Search.{search}
use stream_sight.Rtsp.RtspMessage.Request.{
  parse_cseq, is_some, keep_response, parse_authorization, finish_headers, parse_authorized,
  parse_headers, wants_authorization,
}
use stream_sight.Rtsp.RtspMessage.{RtspRequest, substr_out_of_range, Result, ok, fault}
use stream_sight.Text.Search.{search-some}
use stream_sight.Text.{Text, codes, contains}

abbrev pub crlf : Text
crlf = codes "\r\n"

-- "response=" does not stand right at the end of a text that ends in CR LF.
last_byte : Text → ℕ
last_byte [] = 0
last_byte (c ∷ []) = c
last_byte (c ∷ d ∷ s) = last_byte (d ∷ s)

last_byte-append : (s : Text) (c : ℕ) (t : Text) → last_byte (s ++ c ∷ t) ≡ last_byte (c ∷ t)
unfolding last_byte
last_byte-append [] c t = refl
last_byte-append (x ∷ []) c t = refl
last_byte-append (x ∷ y ∷ s) c t = last_byte-append (y ∷ s) c t

room_behind :
    (m front rest : Text)
    → m ++ crlf ≡ front ++ (codes "response=" ++ rest)
    → length front + 10 ≤ length (m ++ crlf)
unfolding last_byte
room_behind m front [] e =
    let l : last_byte (front ++ (codes "response=" ++ [])) ≡ 61 =
      last_byte-append front 114 (codes "esponse=" ++ []) in
    let r : last_byte (m ++ crlf) ≡ 10 = last_byte-append m 13 (10 ∷ []) in
    let same = ap last_byte e in absurd (omega arith)
room_behind m front (c ∷ rest) e =
    rw e (omega (arith, length-append front (codes "response=" ++ c ∷ rest)))

abbrev IsOk : Result RtspRequest → Type 0
IsOk x = (r' : RtspRequest) × (x ≡ ok r')

keep_response-IsOk :
    (message : Text) (pos : ℕ) (r : RtspRequest)
    → pos + 10 ≤ length message
    → IsOk (keep_response message pos r)
unfolding keep_response
keep_response-IsOk message pos r h =
    (_, if-false (ltb (length message) (pos + 10)) _ _ (ltb-false (length message) (pos + 10) h))

keep_response-cut :
    (message : Text) (pos : ℕ) (r : RtspRequest)
    → length message < pos + 10
    → keep_response message pos r ≡ fault substr_out_of_range
unfolding keep_response
keep_response-cut message pos r h =
    if-true (ltb (length message) (pos + 10)) _ _ (lt→ltb (length message) (pos + 10) h)

abbrev cleared : RtspRequest → RtspRequest
cleared r = record r { auth_response = [] }

authorization-none :
    (message : Text) (r : RtspRequest)
    → search (codes "response=") message ≡ none
    → IsOk (parse_authorization message r)
unfolding parse_authorization
authorization-none message r h = elim (Bool-cases (contains (codes "Authorization") message)) [
  | inl there ↦ (cleared r, rw (there, h) refl)
  | inr missing ↦ (cleared r, rw missing refl)
]

authorization-some :
    (message : Text) (pos : ℕ) (r : RtspRequest)
    → search (codes "response=") message ≡ some pos
    → pos + 10 ≤ length message
    → IsOk (parse_authorization message r)
unfolding parse_authorization
authorization-some message pos r h room =
    elim (Bool-cases (contains (codes "Authorization") message)) [
      | inl there ↦ let (r', e) = keep_response-IsOk message pos r room in (r', rw (there, h) e)
      | inr missing ↦ (cleared r, rw missing refl)
    ]

parse_authorization-crlf : (m : Text) (r : RtspRequest) → IsOk (parse_authorization (m ++ crlf) r)
parse_authorization-crlf m r = elim (Option-cases (search (codes "response=") (m ++ crlf))) [
  | inl missing ↦ authorization-none (m ++ crlf) r missing
  | inr (pos, found) ↦
      let (front, rest, e, at) = search-some (codes "response=") (m ++ crlf) pos found in
      authorization-some (m ++ crlf) pos r found (rw (← at) (room_behind m front rest e))
]

parse_authorized-crlf : (m : Text) (r : RtspRequest) → IsOk (parse_authorized (m ++ crlf) r)
unfolding parse_authorized
parse_authorized-crlf m r = elim (Bool-cases (wants_authorization r.method)) [
  | inl wants ↦ rw wants (parse_authorization-crlf m r)
  | inr never ↦ rw never (r, refl)
]

-- ParseHeadersLine does not throw on headers that end in an empty line, whatever they hold: the part that it
-- reads then ends in CR LF.
pub parse_headers-ok :
    (m : Text) (r : RtspRequest)
    → (r' : RtspRequest) × (answer : Bool) × (parse_headers (m ++ crlf) r ≡ ok (r', answer))
unfolding parse_headers
parse_headers-ok m r =
    let (r1, found) = parse_cseq (m ++ crlf) r in
    elim (Bool-cases (not found && not (is_some r1.header_line_param.cseq))) [
      | inl missing ↦ (r1, false, rw missing refl)
      | inr there ↦
          let (r2, e) = parse_authorized-crlf m r1 in
          (finish_headers r2.method (m ++ crlf) r2, true, rw (there, e) refl)
    ]

-- A part whose first "response=" stands less than ten bytes before its end makes it throw, for a method that
-- reads it, with a CSeq and an Authorization.
pub parse_headers-cut :
    (message : Text) (pos : ℕ) (r : RtspRequest)
    → wants_authorization (parse_cseq message r).0.method ≡ true
    → (parse_cseq message r).1 ≡ true
    → contains (codes "Authorization") message ≡ true
    → search (codes "response=") message ≡ some pos
    → length message < pos + 10
    → parse_headers message r ≡ fault substr_out_of_range
unfolding parse_headers parse_authorized parse_authorization
parse_headers-cut message pos r wants found there at short =
    rw (found, wants, there, at, keep_response-cut message pos (parse_cseq message r).0 short) refl

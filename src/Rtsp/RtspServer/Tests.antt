-- ===== src/Rtsp/RtspServer/Tests.antt =====
-- The theorems on the table of sessions at inputs that exercise the code.
use stream_sight.Base.{◌≡◌, refl, none, [], ◌∷◌, arith}
use stream_sight.Rtsp.RtspServer.{RtspServer, find, add_session}
use stream_sight.Rtsp.RtspServer.Laws.{Added, IsConsistent, add_session-IsConsistent}

-- One session, of suffix 10 and id 2.
abbrev one_session : RtspServer
one_session = record { rtsp_suffix_map = (10, 2) ∷ []; media_sessions = (2, 10) ∷ [] }

one_session-IsConsistent : IsConsistent one_session
unfolding find
one_session-IsConsistent = (λ s i h. ground (arith, h), λ s i h. ground (arith, h))

no_third : find 3 one_session.media_sessions ≡ none
unfolding find
no_third = refl

add_session-IsConsistent_example :
    let w = add_session 11 3 one_session in
    IsConsistent w.0 × Added 11 3 one_session (find 11 one_session.rtsp_suffix_map) w
add_session-IsConsistent_example =
    add_session-IsConsistent 11 3 one_session one_session-IsConsistent no_third

-- The suffix of the session that is there.
known_suffix :
    let w = add_session 10 3 one_session in
    IsConsistent w.0 × Added 10 3 one_session (find 10 one_session.rtsp_suffix_map) w
known_suffix = add_session-IsConsistent 10 3 one_session one_session-IsConsistent no_third

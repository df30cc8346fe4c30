-- ===== src/Rtsp/RtspServer.antt =====
-- src/rtsp/RtspServer.h and RtspServer.cpp: the table of the sessions by suffix and by id. A suffix enters
-- only by equality and is a number; of a session the suffix is kept. Listening, and the connections
-- that OnConnect makes, are left out.
mod Tests
pub mod Laws
use stream_sight.Base.{
  ℕ, ◌≡◌, Bool, true, false, Option, none, some, List, [], ◌∷◌, if◌then◌else◌, ◌==◌,
}

-- `rtsp_suffix_map_` leads from a suffix to an id, and `media_sessions_` from an id to a session.
pub record RtspServer : Type 0 where
  pub rtsp_suffix_map : List (ℕ × ℕ)
  pub media_sessions : List (ℕ × ℕ)

unfoldable pub find : ℕ → List (ℕ × ℕ) → Option ℕ
find k [] = none
find k ((j, v) ∷ m) = if j == k then some v else find k m

unfoldable pub erase : ℕ → List (ℕ × ℕ) → List (ℕ × ℕ)
erase k [] = []
erase k ((j, v) ∷ m) = if j == k then erase k m else (j, v) ∷ erase k m

-- `session_id` is the id that the session has from its constructor. 0 is the answer for a known suffix.
unfoldable pub add_session : ℕ → ℕ → RtspServer → RtspServer × ℕ
add_session suffix session_id s = elim (find suffix s.rtsp_suffix_map) [
  | some known ↦ (s, 0)
  | none ↦ (
    record {
      rtsp_suffix_map = (suffix, session_id) ∷ s.rtsp_suffix_map;
      media_sessions = (session_id, suffix) ∷ s.media_sessions;
    },
    session_id,
  )
]

unfoldable pub remove_session : ℕ → RtspServer → RtspServer
remove_session session_id s = elim (find session_id s.media_sessions) [
  | none ↦ s
  | some suffix ↦ record {
    rtsp_suffix_map = erase suffix s.rtsp_suffix_map;
    media_sessions = erase session_id s.media_sessions;
  }
]

-- `media_sessions_[id]`: the id, where a session has it.
unfoldable pub look_known : ℕ → RtspServer → Option ℕ
look_known id s = elim (find id s.media_sessions) [ none ↦ none | some session ↦ some id ]

-- LookMediaSession by a suffix: the id of the session that is found.
unfoldable pub look_suffix : ℕ → RtspServer → Option ℕ
look_suffix suffix s = elim (find suffix s.rtsp_suffix_map) [
  | none ↦ none
  | some id ↦ look_known id s
]

-- LookMediaSession by an id.
unfoldable pub look_id : ℕ → RtspServer → Option ℕ
look_id session_id s = find session_id s.media_sessions

-- PushFrame: whether the frame goes to the session, and HandleFrame's answer then.
unfoldable pub push_frame : (ℕ → ℕ) → (ℕ → Bool) → ℕ → RtspServer → Bool
push_frame num_client handle_frame session_id s = elim (find session_id s.media_sessions) [
  | none ↦ false
  | some session ↦ if num_client session_id == 0 then false else handle_frame session_id
]

-- ===== src/Rtsp/RtspMessage/HeaderLines.antt =====
-- The conversions on the header lines in src/rtsp/RtspMessage.cpp.
use stream_sight.Base.{ℕ, Option, none, some, drop}
use stream_sight.Net.BufferReader.Search.{search}
use stream_sight.Text.Scan.{Scanned, matched, ◌>>=◌, set_not, literal, unsigned, skip_space}
use stream_sight.Text.{Text, c_str}

-- "%*[^:]: %u"
unfoldable pub scan_value : Text → Scanned ℕ
scan_value s = do
  name ← set_not b':' (c_str s)
  s ← literal b':' name.1
  value ← unsigned 32 (skip_space s)
  matched value.0

-- "%*[^;];%*[^;];%*[^=]=%hu-%hu"
unfoldable pub scan_pair : Text → Scanned (ℕ × ℕ)
scan_pair s = do
  profile ← set_not b';' (c_str s)
  s ← literal b';' profile.1
  cast ← set_not b';' s
  s ← literal b';' cast.1
  name ← set_not b'=' s
  s ← literal b'=' name.1
  rtp ← unsigned 16 s
  s ← literal b'-' rtp.1
  rtcp ← unsigned 16 s
  matched (rtp.0, rtcp.0)

-- The text from where the pattern is found.
unfoldable pub from_found : Text → Text → Option Text
from_found p s = elim (search p s) [ none ↦ none | some pos ↦ some (drop pos s) ]

-- ===== src/Rtsp/RtspMessage/RequestLine.antt =====
-- The conversions in RtspRequest::ParseRequestLine of src/rtsp/RtspMessage.cpp, with the sizes of the
-- arrays that they write to.
use stream_sight.Base.{ℕ}
use stream_sight.Text.Scan.{
  Scanned, matched, mismatch, overrun, ◌>>=◌, set_not, word, literal, store, unsigned,
}
use stream_sight.Text.{Text, c_str}

-- "%s %s %s" into `method[64]`, `url[512]` and `version[64]`.
unfoldable pub scan_line : Text → Scanned (Text × Text × Text)
scan_line line = do
  name ← word (c_str line)
  name ← store 64 name
  url ← word name.1
  url ← store 512 url
  version ← word url.1
  version ← store 64 version
  matched (name.0, url.0, version.0)

-- "%[^:]:%hu/%s" into `ip[64]`, `port` and `suffix[64]`.
unfoldable pub scan_with_port : Text → Scanned (Text × ℕ × Text)
scan_with_port url = do
  ip ← set_not b':' url
  ip ← store 64 ip
  s ← literal b':' ip.1
  port ← unsigned 16 s
  s ← literal b'/' port.1
  suffix ← word s
  suffix ← store 64 suffix
  matched (ip.0, port.0, suffix.0)

-- "%[^/]/%s", and the default port.
unfoldable pub scan_without_port : Text → Scanned (Text × ℕ × Text)
scan_without_port url = do
  ip ← set_not b'/' url
  ip ← store 64 ip
  s ← literal b'/' ip.1
  suffix ← word s
  suffix ← store 64 suffix
  matched (ip.0, 554, suffix.0)

-- The second format is tried where the first does not match.
unfoldable pub scan_url : Text → Scanned (Text × ℕ × Text)
scan_url url = elim (scan_with_port url) [
  | matched parts ↦ matched parts
  | mismatch ↦ scan_without_port url
  | overrun ↦ overrun
]

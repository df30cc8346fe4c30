-- ===== src/Rtsp/RtspMessage/Url.antt =====
-- The URLs that src/rtsp/RtspMessage.cpp takes apart, and the array that one without a port goes beyond.
use stream_sight.Base.{
  ℕ, ◌%◌, ◌^◌, ◌≤◌, ◌<◌, ◌≡◌, refl, ◌∙◌, Bool, not, [], ◌∷◌, ◌++◌, ◌==◌, length, length-append,
  arith,
}
use stream_sight.Rtsp.RtspMessage.RequestLine.{scan_with_port, scan_without_port, scan_url}
use stream_sight.Text.Laws.{Passes, unsigned-decimal}
use stream_sight.Text.Print.{decimal}
use stream_sight.Text.Scan.{matched, mismatch, overrun, literal}
use stream_sight.Text.Words.{
  no_space, word-all, set_not-all, set_not-append, literal-front, store-fits, store-overrun,
}
use stream_sight.Text.{Text}

abbrev pub no_colon : ℕ → Bool
no_colon c = not (c == b':')

abbrev pub no_slash : ℕ → Bool
no_slash c = not (c == b'/')

scan_url-matched :
    (u : Text) (parts : Text × ℕ × Text)
    → scan_with_port u ≡ matched parts
    → scan_url u ≡ matched parts
unfolding scan_url
scan_url-matched u parts h = rw (h, scan_url) refl

scan_url-mismatch : (u : Text) → scan_with_port u ≡ mismatch → scan_url u ≡ scan_without_port u
unfolding scan_url
scan_url-mismatch u h = rw (h, scan_url) refl

scan_url-overrun : (u : Text) → scan_with_port u ≡ overrun → scan_url u ≡ overrun
unfolding scan_url
scan_url-overrun u h = rw (h, scan_url) refl

module _ (h p : ℕ) (hs ps : Text) where
  abbrev host : Text
  host = h ∷ hs

  abbrev path : Text
  path = p ∷ ps

  with_port-fits :
      Passes no_colon (host ++ b'/' ∷ path)
      → length (host ++ b'/' ∷ path) < 64
      → scan_with_port (host ++ b'/' ∷ path) ≡ mismatch
  unfolding scan_with_port literal
  with_port-fits c lt =
      rw (set_not-all b':' h (hs ++ b'/' ∷ path) c, store-fits 64 (host ++ b'/' ∷ path) [] lt) refl

  with_port-overrun :
      Passes no_colon (host ++ b'/' ∷ path)
      → 64 ≤ length (host ++ b'/' ∷ path)
      → scan_with_port (host ++ b'/' ∷ path) ≡ overrun
  unfolding scan_with_port
  with_port-overrun c le =
      rw (set_not-all b':' h (hs ++ b'/' ∷ path) c, store-overrun 64 (host ++ b'/' ∷ path) [] le)
        refl

  without_port :
      Passes no_slash host
      → Passes no_space path
      → length host < 64
      → length path < 64
      → scan_without_port (host ++ b'/' ∷ path) ≡ matched (host, 554, path)
  unfolding scan_without_port
  without_port s w a b =
      rw
        (
          set_not-append b'/' h hs path s,
          store-fits 64 host (b'/' ∷ path) a,
          literal-front b'/' path,
          word-all p ps w,
          store-fits 64 path [] b,
        )
        refl

  -- A URL without a port: host and path are read with the port 554, if together, with the `/`, they have
  -- less than 64 bytes. If they have more, the first format, that looks for a port, writes past the 64 bytes
  -- of `ip`, also where host and path would each fit their array.
  pub scan_url-no_port :
      Passes no_colon (host ++ b'/' ∷ path)
      → Passes no_slash host
      → Passes no_space path
      → (length (host ++ b'/' ∷ path) < 64
          → scan_url (host ++ b'/' ∷ path) ≡ matched (host, 554, path))
        × (64 ≤ length (host ++ b'/' ∷ path) → scan_url (host ++ b'/' ∷ path) ≡ overrun)
  scan_url-no_port c s w = (
    λ lt.
        let l = length-append host (b'/' ∷ path) in
        scan_url-mismatch (host ++ b'/' ∷ path) (with_port-fits c lt)
        ∙ without_port s w (omega arith) (omega arith),
    λ le. scan_url-overrun (host ++ b'/' ∷ path) (with_port-overrun c le),
  )

  with_port :
      (port : ℕ)
      → Passes no_colon host
      → Passes no_space path
      → port < 2 ^ 16
      → length host < 64
      → length path < 64
      → scan_with_port (host ++ b':' ∷ (decimal port ++ b'/' ∷ path)) ≡ matched (host, port, path)
  unfolding scan_with_port
  with_port port c w lt a b =
      let exact : port % 2 ^ 16 ≡ port = omega arith in
      rw
        (
          set_not-append b':' h hs (decimal port ++ b'/' ∷ path) c,
          store-fits 64 host (b':' ∷ (decimal port ++ b'/' ∷ path)) a,
          literal-front b':' (decimal port ++ b'/' ∷ path),
          unsigned-decimal 16 port b'/' path (omega arith) refl,
          literal-front b'/' path,
          word-all p ps w,
          store-fits 64 path [] b,
          exact,
        )
        refl

  -- A URL with a port, whose parts fit, is read back.
  pub scan_url-port :
      (port : ℕ)
      → Passes no_colon host
      → Passes no_space path
      → port < 2 ^ 16
      → length host < 64
      → length path < 64
      → scan_url (host ++ b':' ∷ (decimal port ++ b'/' ∷ path)) ≡ matched (host, port, path)
  scan_url-port port c w lt a b =
      scan_url-matched (host ++ b':' ∷ (decimal port ++ b'/' ∷ path)) (host, port, path)
        (with_port port c w lt a b)

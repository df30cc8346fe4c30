-- ===== src/Rtsp/Audio/Laws.antt =====
-- What a receiver makes of the audio packets, and when the copy of an AAC frame stays in bounds.
use stream_sight.Base.{
  ℕ, ◌+◌, ◌-◌, ◌*◌, ◌/◌, ◌^◌, ◌≤◌, ◌<◌, ◌≡◌, ◌↔◌, refl, ap, Bool, true, false, Option, some, none,
  List, [], ◌∷◌, ◌++◌, if◌then◌else◌, ltb, sub32, if-elim, ltb→lt, ltb-false→le, false≢true, ◌≢◌,
  ltb-false, ◌==◌, ==→eq, take, drop, length, table, table_sound, arith, length-take, length-drop,
  bit_and,
}
use stream_sight.Rtsp.Packet.{
  RtpPacket, AvFrame, IsFilled, collect, SendFrameCallback, rtp_packet_capacity,
}
use stream_sight.Rtsp.Audio.{adts_size, raw_size, au_header, aac_packet, handle_aac}

-- RFC 3640 §3.2: 16 bits of AU-headers-length, and one header of 13 bits of size and 3 of index.
unfoldable pub read_au : List ℕ → Option (ℕ × List ℕ)
read_au (a ∷ b ∷ c ∷ d ∷ bytes) =
    if a * 256 + b == 16 then some ((c * 256 + d) / 8, bytes) else none
read_au bytes = none

au_test : ℕ → Bool
au_test n = (bit_and n 0x1fe0 / 2 ^ 5 * 256 + bit_and n 0x1f * 2 ^ 3) / 8 == n

au_table : table au_test 1421 ≡ true
unfolding table au_test
au_table = refl

read_au-au_header :
    (n : ℕ) (bytes : List ℕ) → n ≤ 1420 → read_au (au_header n ++ bytes) ≡ some (n, bytes)
unfolding read_au au_header au_test
read_au-au_header n bytes h =
    let e : au_test n ≡ true = table_sound au_test 1421 n au_table (omega arith) in
    ap (λ k. some (k, bytes)) (==→eq _ n e)

-- The bytes before the raw AAC frame.
abbrev pub adts : Bool → ℕ
adts has_adts = if has_adts then adts_size else 0

raw_size-eq :
    (has_adts : Bool) (frame : AvFrame)
    → adts has_adts ≤ frame.size
    → frame.size < 2 ^ 32
    → raw_size has_adts frame ≡ frame.size - adts has_adts
unfolding raw_size
raw_size-eq true frame h b = omega arith
raw_size-eq false frame h b = omega arith

-- An AAC frame that holds its bytes, with at least its ADTS header and at most 1416 bytes, is sent
-- as one packet with the marker, whose AU header gives the size of the raw frame, whose payload is
-- the raw frame, and which fits in the 1600 bytes of its buffer.
pub handle_aac-read_au :
    (has_adts : Bool) (channel : ℕ) (frame : AvFrame)
    → IsFilled frame
    → adts has_adts ≤ frame.size
    → frame.size ≤ 1416
    → let n = frame.size - adts has_adts in
      (p : RtpPacket) × (handle_aac (some collect) [] has_adts channel frame ≡ some (p ∷ [], true))
      × (read_au p.body ≡ some (n, take n (drop (adts has_adts) frame.buffer)))
      × (p.last ≡ 1)
      × (p.size ≡ 16 + length p.body)
      × (p.size ≤ rtp_packet_capacity)
unfolding handle_aac aac_packet
handle_aac-read_au has_adts channel frame filled header small =
    let n : ℕ = frame.size - adts has_adts in
    let raw : List ℕ = drop (adts has_adts) frame.buffer in
    let e = raw_size-eq has_adts frame header (omega arith) in
    (
      aac_packet has_adts frame,
      rw (ltb-false 1416 frame.size small) (rw e (rw (ltb-false 1600 (20 + n) (omega arith)) refl)),
      rw e (read_au-au_header n (take n raw) (omega arith)),
      refl,
      rw e (
          unfold au_header in
          omega (arith, length-take n raw, length-drop (adts has_adts) frame.buffer)),
      rw e (omega arith),
    )

too_long :
    (has_adts : Bool) (size : ℕ)
    → size ≤ 1416
    → 1600 < 20 + sub32 size (adts has_adts)
    → (has_adts ≡ true) × (size < adts_size)
too_long true size h k = (refl, omega (arith, h, k))
too_long false size h k = absurd (omega (arith, h, k))

short_enough :
    (has_adts : Bool) (size : ℕ)
    → 20 + sub32 size (adts has_adts) ≤ 1600
    → has_adts ≡ true
    → size < adts_size
    → ⊥
short_enough true size k e h = omega (arith, h, k)
short_enough false size k e h = absurd (false≢true e)

some_not_none : {A : Type 0} {x : A} → some x ≢ none
some_not_none h = cc

-- AACSource::HandleFrame copies past the end of the 1600 bytes of its packet exactly when the frame is said to
-- have an ADTS header and is shorter than one: `frame.size - adts_size` wraps then. The frame and the
-- callback are any.
pub handle_aac-bounds :
    {S : Type 0} (callback : Option (SendFrameCallback S)) (s : S) (has_adts : Bool) (channel : ℕ)
    (frame : AvFrame)
    → (handle_aac callback s has_adts channel frame ≡ none)
      ↔ ((has_adts ≡ true) × (frame.size < adts_size))
unfolding handle_aac raw_size
handle_aac-bounds {S} callback s has_adts channel frame =
    let P : Option (S × Bool) → Type 0 =
      λ o. (o ≡ none) ↔ ((has_adts ≡ true) × (frame.size < adts_size)) in
    if-elim P (ltb 1416 frame.size) _ _
      (λ large. (
        λ e. absurd (some_not_none e),
        λ h. absurd (omega (arith, h.1, ltb→lt 1416 frame.size large)),
      ))
      (λ small.
        let le = ltb-false→le 1416 frame.size small in
        let end = 20 + sub32 frame.size (adts has_adts) in
        if-elim P (ltb 1600 end) _ _
          (λ over. (λ e. too_long has_adts frame.size le (ltb→lt 1600 end over), λ h. refl))
          (λ fits. (
            λ e. absurd (some_not_none e),
            λ h. absurd (short_enough has_adts frame.size (ltb-false→le 1600 end fits) h.0 h.1),
          )))

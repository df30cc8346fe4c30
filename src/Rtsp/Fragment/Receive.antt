-- ===== src/Rtsp/Fragment/Receive.antt =====
-- A receiver of fragmentation units, written from the RTP payload formats (RFC 6184 §5.8 and RFC
-- 7798 §4.4.3) and not from the sender, and what it makes of the packets of `fragments`.
use mathlib.Core.Option
use stream_sight.Base.{
  ℕ, zero, suc, ◌+◌, ◌-◌, ◌≤◌, ◌<◌, ◌≡◌, refl, ◌∙◌, ap, ◌⊎◌, inl, inr, Bool, true, false, Option,
  some, none, List, [], ◌∷◌, ◌++◌, if◌then◌else◌, ltb, ltb→lt, lt→ltb, ltb-false→le, take, drop,
  length, map, All, arith, Bool-cases, length-append, length-take, length-drop, take-append,
  drop-append, take-add,
}
use stream_sight.Rtsp.Packet.{RtpPacket, AvFrame, IsFilled, single_packet, max_rtp_payload_size}
use stream_sight.Rtsp.Fragment.{Scheme, mid_packet, last_packet}
use stream_sight.Rtsp.Fragment.Laws.{fragments}

-- How a receiver reads the head of a unit.
pub record Reader : Type 0 where
  pub head : ℕ
  pub is_start : List ℕ → Bool
  pub is_end : List ℕ → Bool

-- The units after the first: none of them starts a frame, and the last one, and no other, ends it.
unfoldable pub join : Reader → List (List ℕ) → Option (List ℕ)
join r [] = none
join r (b ∷ bs) =
    let fu = take r.head b in
    let rest = Option.map (λ bytes. drop r.head b ++ bytes) (join r bs) in
    let ended = elim bs as (λ x. Option (List ℕ)) [ [] ↦ some (drop r.head b) | _ ∷ _ ↦ none ] in
    if r.is_start fu then none else if r.is_end fu then ended else rest

-- A whole series of units: the first one starts the frame and does not end it.
unfoldable pub join_from_start : Reader → List (List ℕ) → Option (List ℕ)
join_from_start r [] = none
join_from_start r (b ∷ bs) =
    let fu = take r.head b in
    if r.is_end fu
    then none
    else if r.is_start fu
    then Option.map (λ bytes. drop r.head b ++ bytes) (join r bs)
    else none

-- What a sender's heads must be for such a receiver: the first, those after it, and the last.
pub record Reads (r : Reader) (scheme : Scheme) (fu : List ℕ) : Type 0 where
  pub same : scheme.head ≡ r.head
  pub short : scheme.head < max_rtp_payload_size
  pub first_length : length fu ≡ scheme.head
  pub mid_length : length (scheme.clear_start fu) ≡ scheme.head
  pub last_length : length (scheme.set_end (scheme.clear_start fu)) ≡ scheme.head
  pub steady : scheme.clear_start (scheme.clear_start fu) ≡ scheme.clear_start fu
  pub first_start : r.is_start fu ≡ true
  pub first_end : r.is_end fu ≡ false
  pub mid_start : r.is_start (scheme.clear_start fu) ≡ false
  pub mid_end : r.is_end (scheme.clear_start fu) ≡ false
  pub last_start : r.is_start (scheme.set_end (scheme.clear_start fu)) ≡ false
  pub last_end : r.is_end (scheme.set_end (scheme.clear_start fu)) ≡ true

-- The marker bit is set on the last packet and on no other.
abbrev pub OnlyLastMarked : List RtpPacket → Type 0
OnlyLastMarked [] = ⊥
OnlyLastMarked (p ∷ ps) = ((p.last ≡ 1) × (ps ≡ [])) ⊎ ((p.last ≡ 0) × OnlyLastMarked ps)

-- Within the 1600 bytes of a packet's buffer, with the size that is sent.
abbrev pub Fits : ℕ → ℕ → RtpPacket → Type 0
Fits kind timestamp p =
    (p.size ≡ 16 + length p.body)
    × (length p.body ≤ max_rtp_payload_size)
    × (p.kind ≡ kind)
    × (p.timestamp ≡ timestamp)

-- What a receiver gets of a frame: its bytes, the end marked, packets within their buffers.
pub record Delivered (read : List (List ℕ) → Option (List ℕ)) (timestamp : ℕ) (frame : AvFrame)
    (ps : List RtpPacket) : Type 0 where
  pub joined : read (map (λ p. p.body) ps) ≡ some (take frame.size frame.buffer)
  pub marked : OnlyLastMarked ps
  pub fitting : All (Fits frame.kind timestamp) ps

pub single_packet-Delivered :
    (read : List (List ℕ) → Option (List ℕ)) (timestamp : ℕ) (frame : AvFrame)
    → frame.size ≤ max_rtp_payload_size
    → IsFilled frame
    → read (take frame.size frame.buffer ∷ []) ≡ some (take frame.size frame.buffer)
    → Delivered read timestamp frame (single_packet timestamp frame ∷ [])
unfolding single_packet
single_packet-Delivered read timestamp frame small filled e = record {
  joined = e;
  marked = inl (refl, refl);
  fitting = (omega (arith, length-take frame.size frame.buffer), tt);
}

module _ (r : Reader) (scheme : Scheme) (fu : List ℕ) (reads : Reads r scheme fu)
    (kind timestamp : ℕ) where
  open scheme use {head, clear_start, set_end}

  join-last : (bytes : List ℕ) → join r ((set_end (clear_start fu) ++ bytes) ∷ []) ≡ some bytes
  unfolding join
  join-last bytes =
      let e = reads.last_length ∙ reads.same in
      rw (
        take-append r.head (set_end (clear_start fu)) bytes e,
        drop-append r.head (set_end (clear_start fu)) bytes e,
        reads.last_start,
        reads.last_end,
      )

  join-mid :
      (bytes : List ℕ) (bs : List (List ℕ))
      → join r ((clear_start fu ++ bytes) ∷ bs) ≡ Option.map (λ rest. bytes ++ rest) (join r bs)
  unfolding join
  join-mid bytes bs =
      let e = reads.mid_length ∙ reads.same in
      rw (
        take-append r.head (clear_start fu) bytes e,
        drop-append r.head (clear_start fu) bytes e,
        reads.mid_start,
        reads.mid_end,
      )

  -- The units after the first give back the bytes that they were cut from.
  join-fragments :
      (fuel : ℕ) (buf : List ℕ) (size : ℕ)
      → join r (map (λ p. p.body) (fragments scheme kind timestamp fuel (clear_start fu) buf size))
        ≡ some (take size buf)
  unfolding fragments mid_packet last_packet
  join-fragments zero buf size = join-last (take size buf)
  join-fragments (suc fuel) buf size = elim (Bool-cases (ltb max_rtp_payload_size (size + head))) [
    | inl more ↦
        let over = ltb→lt max_rtp_payload_size (size + head) more in
        rw
          (
            more,
            join-mid (take (max_rtp_payload_size - head) buf) _,
            reads.steady,
            join-fragments fuel (drop (max_rtp_payload_size - head) buf)
                (size - (max_rtp_payload_size - head)),
            Option.map,
          )
          (ap some (
            take-add (max_rtp_payload_size - head) (size - (max_rtp_payload_size - head)) size buf
              (omega (arith, reads.short))))
    | inr done ↦ rw done (join-last (take size buf))
  ]

  -- So the whole series gives back the bytes of a frame that does not fit in one packet.
  pub join_from_start-fragments :
      (fuel : ℕ) (buf : List ℕ) (size : ℕ)
      → max_rtp_payload_size < size + head
      → join_from_start r
          (map (λ p. p.body) (fragments scheme kind timestamp (suc fuel) fu buf size))
        ≡ some (take size buf)
  unfolding join_from_start fragments mid_packet
  join_from_start-fragments fuel buf size over =
      let e = reads.first_length ∙ reads.same in
      rw
        (
          lt→ltb max_rtp_payload_size (size + head) over,
          take-append r.head fu (take (max_rtp_payload_size - head) buf) e,
          reads.first_start,
          reads.first_end,
          join-fragments fuel (drop (max_rtp_payload_size - head) buf)
              (size - (max_rtp_payload_size - head)),
          Option.map,
          drop-append r.head fu (take (max_rtp_payload_size - head) buf) e,
        )
        (ap some (
          take-add (max_rtp_payload_size - head) (size - (max_rtp_payload_size - head)) size buf
            (omega (arith, reads.short))))

  fragments-OnlyLastMarked :
      (fuel : ℕ) (fu' buf : List ℕ) (size : ℕ)
      → OnlyLastMarked (fragments scheme kind timestamp fuel fu' buf size)
  unfolding fragments mid_packet last_packet
  fragments-OnlyLastMarked zero fu' buf size = inl (refl, refl)
  fragments-OnlyLastMarked (suc fuel) fu' buf size =
      elim (Bool-cases (ltb max_rtp_payload_size (size + head))) [
        | inl more ↦ rw more (inr (refl, fragments-OnlyLastMarked fuel _ _ _))
        | inr done ↦ rw done (inl (refl, refl))
      ]

  mid_packet-Fits :
      (fu' buf : List ℕ)
      → length fu' ≡ head
      → max_rtp_payload_size - head ≤ length buf
      → Fits kind timestamp (mid_packet scheme kind timestamp fu' buf)
  unfolding mid_packet
  mid_packet-Fits fu' buf e enough = omega (
    arith,
    reads.short,
    length-append fu' (take (max_rtp_payload_size - head) buf),
    length-take (max_rtp_payload_size - head) buf,
  )

  last_packet-Fits :
      (buf : List ℕ) (size : ℕ)
      → size + head ≤ max_rtp_payload_size
      → size ≤ length buf
      → Fits kind timestamp (last_packet scheme kind timestamp (clear_start fu) buf size)
  unfolding last_packet
  last_packet-Fits buf size small enough = omega (
    arith,
    reads.short,
    reads.last_length,
    length-append (set_end (clear_start fu)) (take size buf),
    length-take size buf,
  )

  -- With fuel enough the loop ends by its test, so that the last packet fits too.
  fragments-Fits :
      (fuel : ℕ) (buf : List ℕ) (size : ℕ)
      → size ≤ fuel
      → size ≤ length buf
      → All (Fits kind timestamp) (fragments scheme kind timestamp fuel (clear_start fu) buf size)
  unfolding fragments
  fragments-Fits zero buf size f enough =
      (last_packet-Fits buf size (omega (arith, reads.short)) enough, tt)
  fragments-Fits (suc fuel) buf size f enough =
      elim (Bool-cases (ltb max_rtp_payload_size (size + head))) [
        | inl more ↦
            let over = ltb→lt max_rtp_payload_size (size + head) more in
            rw (more, reads.steady)
              (
                mid_packet-Fits (clear_start fu) buf reads.mid_length (omega arith),
                fragments-Fits fuel (drop (max_rtp_payload_size - head) buf)
                    (size - (max_rtp_payload_size - head)) (omega (arith, reads.short))
                    (omega (arith, length-drop (max_rtp_payload_size - head) buf)),
              )
        | inr done ↦ rw done (
          last_packet-Fits buf size (ltb-false→le max_rtp_payload_size (size + head) done) enough,
          tt,
        )
      ]

  -- The packets of a frame that does not fit in one.
  pub record Delivers (size : ℕ) (buf : List ℕ) (ps : List RtpPacket) : Type 0 where
    pub joined : join_from_start r (map (λ p. p.body) ps) ≡ some (take size buf)
    pub marked : OnlyLastMarked ps
    pub fitting : All (Fits kind timestamp) ps

  pub fragments-Delivers :
      (fuel : ℕ) (buf : List ℕ) (size : ℕ)
      → max_rtp_payload_size < size + head
      → size ≤ fuel
      → size ≤ length buf
      → Delivers size buf (fragments scheme kind timestamp fuel fu buf size)
  unfolding fragments
  fragments-Delivers zero buf size over f enough = absurd (omega (arith, reads.short))
  fragments-Delivers (suc fuel) buf size over f enough = record {
    joined = join_from_start-fragments fuel buf size over;
    marked = fragments-OnlyLastMarked (suc fuel) fu buf size;
    fitting = rw (lt→ltb max_rtp_payload_size (size + head) over) (
      mid_packet-Fits fu buf reads.first_length (omega (arith, reads.short)),
      fragments-Fits fuel (drop (max_rtp_payload_size - head) buf)
          (size - (max_rtp_payload_size - head)) (omega (arith, reads.short))
          (omega (arith, length-drop (max_rtp_payload_size - head) buf)),
    );
  }

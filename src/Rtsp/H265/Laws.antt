-- ===== src/Rtsp/H265/Laws.antt =====
-- What a receiver makes of the packets of H265Source.
use mathlib.Core.Option
use stream_sight.Base.{
  ℕ, zero, suc, ◌+◌, ◌-◌, ◌*◌, ◌/◌, ◌%◌, ◌^◌, ◌≤◌, ◌<◌, ◌≡◌, ◌≢◌, refl, sym, ap, inl, inr, Bool,
  true, Option, some, none, List, [], ◌∷◌, ◌++◌, ◌&&◌, not, if◌then◌else◌, leb, ◌==◌, take, drop,
  get_or, length, map, table, table_sound, arith, Bool-cases, length-drop, ne→==_false, sub32,
  bit_and, bit_or,
}
use stream_sight.Rtsp.Packet.{
  RtpPacket, AvFrame, IsFilled, SendFrameCallback, send_all, collect, stamp, single_packet,
  max_rtp_payload_size,
}
use stream_sight.Rtsp.Fragment.{mid_packet}
use stream_sight.Rtsp.Fragment.Laws.{
  fragments, fragments_first, fragment_loop_lem, send_all-single, collect-send_all,
}
use stream_sight.Rtsp.Fragment.Receive.{
  Reader, Reads, join_from_start, Delivers, fragments-Delivers, Delivered, single_packet-Delivered,
}
use stream_sight.Rtsp.H265.{fu, clear_start, set_end, fu_scheme, handle_frame}

-- The S and E bits of the FU header (RFC 7798 §4.4.3).
abbrev pub fu_reader : Reader
fu_reader = record {
  head = 3;
  is_start = λ fu. get_or fu 2 0 / 128 % 2 == 1;
  is_end = λ fu. get_or fu 2 0 / 64 % 2 == 1;
}

-- Type 49 is a series of fragmentation units, whose NAL header is the two bytes in front with the
-- type of the FU header; any other type is a packet with one NAL unit.
unfoldable pub depacketize : List (List ℕ) → Option (List ℕ)
depacketize [] = none
depacketize (b ∷ bs) =
    let header = get_or b 0 0 / 128 * 128 + get_or b 2 0 % 64 * 2 + get_or b 0 0 % 2 in
    let fragmented =
      Option.map (λ bytes. header ∷ get_or b 1 0 ∷ bytes) (join_from_start fu_reader (b ∷ bs)) in
    let whole = elim bs as (λ x. Option (List ℕ)) [ [] ↦ some b | _ ∷ _ ↦ none ] in
    if get_or b 0 0 / 2 % 64 == 49 then fragmented else whole

head_test : ℕ → Bool
head_test b =
    let x = bit_or (bit_and b 0x81) 98 in
    let y = bit_or 0x80 (bit_and b 0x7e / 2) in
    let z = bit_and y 0x7f in
    let w = bit_or z 0x40 in
    (x / 2 % 64 == 49)
    && (x / 128 * 128 + y % 64 * 2 + x % 2 == b)
    && (y / 128 % 2 == 1)
    && not (y / 64 % 2 == 1)
    && (bit_and z 0x7f == z)
    && not (z / 128 % 2 == 1)
    && not (z / 64 % 2 == 1)
    && not (w / 128 % 2 == 1)
    && (w / 64 % 2 == 1)

head_table : table head_test 256 ≡ true
unfolding table head_test
head_table = refl

record HeadFacts (b c : ℕ) : Type 0 where
  kind_of : get_or (fu b c) 0 0 / 2 % 64 ≡ 49
  header_of :
      get_or (fu b c) 0 0 / 128 * 128 + get_or (fu b c) 2 0 % 64 * 2 + get_or (fu b c) 0 0 % 2 ≡ b
  reads : Reads fu_reader fu_scheme (fu b c)

head_facts : (b c : ℕ) → b < 256 → HeadFacts b c
unfolding fu clear_start set_end head_test
head_facts b c h = let t = table_sound head_test 256 b head_table h in ground arith

-- The packets of a frame, as a list.
unfoldable pub packets : ℕ → AvFrame → List RtpPacket
packets us frame =
    if leb frame.size max_rtp_payload_size
    then single_packet (stamp us frame) frame ∷ []
    else fragments fu_scheme frame.kind (stamp us frame) frame.size
        (fu (get_or frame.buffer 0 0) (get_or frame.buffer 1 0)) (drop 2 frame.buffer)
        (frame.size - 2)

-- Whatever the callback does, `HandleFrame` hands it the packets of the frame in order, stops at
-- the first one that it refuses, and returns whether all were taken. The size of the frame is
-- below 2^32 - 1, so that no addition to it wraps.
pub handle_frame-send_all_h265 :
    {S : Type 0} (callback : Option (SendFrameCallback S)) (s : S) (us channel : ℕ)
    (frame : AvFrame)
    → frame.size < 2 ^ 32 - 1
    → handle_frame callback s us channel frame ≡ send_all callback s channel (packets us frame)
unfolding handle_frame packets
handle_frame-send_all_h265 callback s us channel frame b =
    elim (Bool-cases (leb frame.size max_rtp_payload_size)) [
      | inl small ↦ rw small (sym (send_all-single callback s channel _))
      | inr large ↦
          let over : max_rtp_payload_size < frame.size = ground arith in
          let e : sub32 frame.size 2 ≡ frame.size - 2 = omega arith in
          rw (large, e)
            (fragment_loop_lem fu_scheme frame.kind (stamp us frame) callback channel frame.size s
              (fu (get_or frame.buffer 0 0) (get_or frame.buffer 1 0)) (drop 2 frame.buffer)
              (frame.size - 2) (omega arith) (omega arith))
    ]

cons-take-drop :
    (n : ℕ) (xs : List ℕ)
    → 1 < n
    → n ≤ length xs
    → get_or xs 0 0 ∷ get_or xs 1 0 ∷ take (n - 2) (drop 2 xs) ≡ take n xs
cons-take-drop zero xs p h = absurd (omega arith)
cons-take-drop (suc zero) xs p h = absurd (omega arith)
cons-take-drop (suc (suc n)) [] p h = absurd (omega arith)
cons-take-drop (suc (suc n)) (x ∷ []) p h = absurd (omega arith)
cons-take-drop (suc (suc n)) (x ∷ y ∷ xs) p h = ap (λ k. x ∷ y ∷ take k xs) (omega arith)

-- A series of units is told from its first one, and its NAL header is put back in front.
depacketize-units :
    (b c : ℕ) (bytes : List ℕ) (bs : List (List ℕ))
    → b < 256
    → depacketize ((fu b c ++ bytes) ∷ bs)
      ≡ Option.map (λ rest. b ∷ c ∷ rest) (join_from_start fu_reader ((fu b c ++ bytes) ∷ bs))
unfolding depacketize fu
depacketize-units b c bytes bs h = let f = head_facts b c h in rw (f.kind_of, f.header_of)

module _ (timestamp : ℕ) (frame : AvFrame) (filled : IsFilled frame)
    (byte : get_or frame.buffer 0 0 < 256) (over : max_rtp_payload_size < frame.size) where
  units : List RtpPacket
  units =
      fragments fu_scheme frame.kind timestamp frame.size
        (fu (get_or frame.buffer 0 0) (get_or frame.buffer 1 0)) (drop 2 frame.buffer)
        (frame.size - 2)

  units-Delivers :
      Delivers fu_reader fu_scheme
        (fu (get_or frame.buffer 0 0) (get_or frame.buffer 1 0))
        (head_facts (get_or frame.buffer 0 0) (get_or frame.buffer 1 0) byte).reads
        frame.kind
        timestamp
        (frame.size - 2)
        (drop 2 frame.buffer)
        units
  unfolding units
  units-Delivers =
      fragments-Delivers fu_reader fu_scheme
        (fu (get_or frame.buffer 0 0) (get_or frame.buffer 1 0))
        (head_facts (get_or frame.buffer 0 0) (get_or frame.buffer 1 0) byte).reads frame.kind
        timestamp frame.size (drop 2 frame.buffer) (frame.size - 2) (omega arith) (omega arith)
        (omega (arith, length-drop 2 frame.buffer))

  units-depacketize : depacketize (map (λ p. p.body) units) ≡ some (take frame.size frame.buffer)
  unfolding units mid_packet
  units-depacketize =
      let (rest, e) =
        fragments_first fu_scheme frame.kind timestamp frame.size
          (fu (get_or frame.buffer 0 0) (get_or frame.buffer 1 0)) (drop 2 frame.buffer)
          (frame.size - 2) (omega arith) (omega arith) (omega arith) in
      let j : join_from_start fu_reader (map (λ p. p.body) units)
          ≡ some (take (frame.size - 2) (drop 2 frame.buffer)) =
        units-Delivers.joined in
      rw (e, depacketize-units (get_or frame.buffer 0 0) (get_or frame.buffer 1 0) _ _ byte)
        (rw (rw e at j, Option.map)
          (ap some (cons-take-drop frame.size frame.buffer (omega arith) filled)))

depacketize-single : (b : List ℕ) → get_or b 0 0 / 2 % 64 ≢ 49 → depacketize (b ∷ []) ≡ some b
unfolding depacketize
depacketize-single b h = rw (ne→==_false _ 49 h)

-- In one packet the NAL type of a frame is not that of a fragmentation unit.
abbrev pub IsPlain : AvFrame → Type 0
IsPlain f = f.size ≤ max_rtp_payload_size → get_or (take f.size f.buffer) 0 0 / 2 % 64 ≢ 49

packets-Delivered :
    (us : ℕ) (frame : AvFrame)
    → IsFilled frame
    → get_or frame.buffer 0 0 < 256
    → IsPlain frame
    → Delivered depacketize (stamp us frame) frame (packets us frame)
unfolding packets units
packets-Delivered us frame filled byte plain =
    elim (Bool-cases (leb frame.size max_rtp_payload_size)) [
      | inl small ↦
          let le : frame.size ≤ max_rtp_payload_size = ground arith in
          rw small (
            single_packet-Delivered depacketize (stamp us frame) frame le filled
              (depacketize-single (take frame.size frame.buffer) (plain le)))
      | inr large ↦
          let over : max_rtp_payload_size < frame.size = ground arith in
          let d = units-Delivers (stamp us frame) frame filled byte over in
          rw large (record {
            joined = units-depacketize (stamp us frame) frame filled byte over;
            marked = d.marked;
            fitting = d.fitting;
          })
    ]

-- For every frame that holds its bytes and is smaller than 2^32 - 1 bytes, whose first byte is a
-- byte and whose NAL type is not that of a fragmentation unit where it fits in one packet, an
-- accepting receiver is handed packets from which it reads back exactly the frame. The marker bit
-- is set on the last of them only. Each carries 16 header bytes and at most 1420 of payload, with
-- the frame's type and timestamp.
pub handle_frame-Delivered_h265 :
    (us channel : ℕ) (frame : AvFrame)
    → IsFilled frame
    → frame.size < 2 ^ 32 - 1
    → get_or frame.buffer 0 0 < 256
    → IsPlain frame
    → let (ps, done) = handle_frame (some collect) [] us channel frame in
      (done ≡ true) × Delivered depacketize (stamp us frame) frame ps
handle_frame-Delivered_h265 us channel frame filled b byte plain =
    rw
      (
        handle_frame-send_all_h265 (some collect) [] us channel frame b,
        collect-send_all [] channel (packets us frame),
      )
      (refl, packets-Delivered us frame filled byte plain)

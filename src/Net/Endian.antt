-- ===== src/Net/Endian.antt =====
-- ReadUint… and WriteUint… of src/net/BufferReader.cpp and BufferWriter.cpp, on the bytes at the
-- pointer. `>>` and `<<` are `/` and `*` by a power of two; storing into a `char` keeps eight bits.
use stream_sight.Base.{
  ℕ, ◌+◌, ◌*◌, ◌/◌, ◌%◌, ◌^◌, ◌<◌, ◌≡◌, List, [], ◌∷◌, get_or, bit_or, bit_or-shifted, arith,
}

unfoldable pub read_uint32_be : List ℕ → ℕ
read_uint32_be p =
    bit_or (bit_or (bit_or (get_or p 0 0 * 2 ^ 24) (get_or p 1 0 * 2 ^ 16)) (get_or p 2 0 * 2 ^ 8))
      (get_or p 3 0)

unfoldable pub read_uint32_le : List ℕ → ℕ
read_uint32_le p =
    bit_or (bit_or (bit_or (get_or p 3 0 * 2 ^ 24) (get_or p 2 0 * 2 ^ 16)) (get_or p 1 0 * 2 ^ 8))
      (get_or p 0 0)

unfoldable pub read_uint24_be : List ℕ → ℕ
read_uint24_be p = bit_or (bit_or (get_or p 0 0 * 2 ^ 16) (get_or p 1 0 * 2 ^ 8)) (get_or p 2 0)

unfoldable pub read_uint24_le : List ℕ → ℕ
read_uint24_le p = bit_or (bit_or (get_or p 2 0 * 2 ^ 16) (get_or p 1 0 * 2 ^ 8)) (get_or p 0 0)

unfoldable pub read_uint16_be : List ℕ → ℕ
read_uint16_be p = bit_or (get_or p 0 0 * 2 ^ 8) (get_or p 1 0)

unfoldable pub read_uint16_le : List ℕ → ℕ
read_uint16_le p = bit_or (get_or p 1 0 * 2 ^ 8) (get_or p 0 0)

unfoldable pub write_uint32_be : ℕ → List ℕ
write_uint32_be v = v / 2 ^ 24 % 2 ^ 8 ∷ v / 2 ^ 16 % 2 ^ 8 ∷ v / 2 ^ 8 % 2 ^ 8 ∷ v % 2 ^ 8 ∷ []

unfoldable pub write_uint32_le : ℕ → List ℕ
write_uint32_le v = v % 2 ^ 8 ∷ v / 2 ^ 8 % 2 ^ 8 ∷ v / 2 ^ 16 % 2 ^ 8 ∷ v / 2 ^ 24 % 2 ^ 8 ∷ []

unfoldable pub write_uint24_be : ℕ → List ℕ
write_uint24_be v = v / 2 ^ 16 % 2 ^ 8 ∷ v / 2 ^ 8 % 2 ^ 8 ∷ v % 2 ^ 8 ∷ []

unfoldable pub write_uint24_le : ℕ → List ℕ
write_uint24_le v = v % 2 ^ 8 ∷ v / 2 ^ 8 % 2 ^ 8 ∷ v / 2 ^ 16 % 2 ^ 8 ∷ []

unfoldable pub write_uint16_be : ℕ → List ℕ
write_uint16_be v = v / 2 ^ 8 % 2 ^ 8 ∷ v % 2 ^ 8 ∷ []

unfoldable pub write_uint16_le : ℕ → List ℕ
write_uint16_le v = v % 2 ^ 8 ∷ v / 2 ^ 8 % 2 ^ 8 ∷ []

-- `|` of shifted bytes is their sum.
or_two : (a b : ℕ) → b < 256 → bit_or (a * 2 ^ 8) b ≡ a * 256 + b
or_two a b hb = bit_or-shifted 8 a b hb

or_three :
    (a b c : ℕ)
    → b < 256
    → c < 256
    → bit_or (bit_or (a * 2 ^ 16) (b * 2 ^ 8)) c ≡ a * 65536 + b * 256 + c
or_three a b c hb hc =
    let e = bit_or-shifted 16 a (b * 2 ^ 8) (omega arith) in
    let f : a * 2 ^ 16 + b * 2 ^ 8 ≡ (a * 256 + b) * 2 ^ 8 = omega arith in
    rw (e, f, or_two (a * 256 + b) c hc) (omega arith)

or_four :
    (a b c d : ℕ)
    → b < 256
    → c < 256
    → d < 256
    → bit_or (bit_or (bit_or (a * 2 ^ 24) (b * 2 ^ 16)) (c * 2 ^ 8)) d
      ≡ a * 16777216 + b * 65536 + c * 256 + d
or_four a b c d hb hc hd =
    let e = bit_or-shifted 24 a (b * 2 ^ 16) (omega arith) in
    let f : a * 2 ^ 24 + b * 2 ^ 16 ≡ (a * 256 + b) * 2 ^ 16 = omega arith in
    rw (e, f, or_three (a * 256 + b) c d hc hd) (omega arith)

-- What each writer stores, the reader of the same width and byte order gives back, for every value
-- of that width.
pub read-write_uint :
    (v : ℕ)
    → v < 2 ^ 32
    → (read_uint32_be (write_uint32_be v) ≡ v)
      × (read_uint32_le (write_uint32_le v) ≡ v)
      × (read_uint24_be (write_uint24_be v) ≡ v % 2 ^ 24)
      × (read_uint24_le (write_uint24_le v) ≡ v % 2 ^ 24)
      × (read_uint16_be (write_uint16_be v) ≡ v % 2 ^ 16)
      × (read_uint16_le (write_uint16_le v) ≡ v % 2 ^ 16)
unfolding read_uint32_be read_uint32_le read_uint24_be read_uint24_le read_uint16_be read_uint16_le
    write_uint32_be write_uint32_le write_uint24_be write_uint24_le write_uint16_be write_uint16_le
read-write_uint v h =
    let a = v / 2 ^ 24 % 2 ^ 8 in
    let b = v / 2 ^ 16 % 2 ^ 8 in
    let c = v / 2 ^ 8 % 2 ^ 8 in
    let d = v % 2 ^ 8 in
    let four = or_four a b c d (omega arith) (omega arith) (omega arith) in
    let three = or_three b c d (omega arith) (omega arith) in
    let two = or_two c d (omega arith) in
    (
      rw four (omega arith),
      rw four (omega arith),
      rw three (omega arith),
      rw three (omega arith),
      rw two (omega arith),
      rw two (omega arith),
    )

-- And what each reader gives, the writer stores as the same bytes: no two byte strings read alike.
pub write-read_uint :
    (a b c d : ℕ)
    → a < 256
    → b < 256
    → c < 256
    → d < 256
    → (write_uint32_be (read_uint32_be (a ∷ b ∷ c ∷ d ∷ [])) ≡ a ∷ b ∷ c ∷ d ∷ [])
      × (write_uint32_le (read_uint32_le (a ∷ b ∷ c ∷ d ∷ [])) ≡ a ∷ b ∷ c ∷ d ∷ [])
      × (write_uint24_be (read_uint24_be (a ∷ b ∷ c ∷ [])) ≡ a ∷ b ∷ c ∷ [])
      × (write_uint24_le (read_uint24_le (a ∷ b ∷ c ∷ [])) ≡ a ∷ b ∷ c ∷ [])
      × (write_uint16_be (read_uint16_be (a ∷ b ∷ [])) ≡ a ∷ b ∷ [])
      × (write_uint16_le (read_uint16_le (a ∷ b ∷ [])) ≡ a ∷ b ∷ [])
unfolding read_uint32_be read_uint32_le read_uint24_be read_uint24_le read_uint16_be read_uint16_le
    write_uint32_be write_uint32_le write_uint24_be write_uint24_le write_uint16_be write_uint16_le
write-read_uint a b c d ha hb hc hd = (
  rw (or_four a b c d hb hc hd) (ground arith),
  rw (or_four d c b a hc hb ha) (ground arith),
  rw (or_three a b c hb hc) (ground arith),
  rw (or_three c b a hb ha) (ground arith),
  rw (or_two a b hb) (ground arith),
  rw (or_two b a ha) (ground arith),
)

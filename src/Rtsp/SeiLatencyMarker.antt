-- ===== src/Rtsp/SeiLatencyMarker.antt =====
-- src/rtsp/SeiLatencyMarker.h: an H.264 SEI unit that carries the sender's clock. Numbers are laid out as a
-- little-endian host does; `padding` is the four bytes at the end of the payload's struct.
mod Tests
pub mod Laws
use stream_sight.Base.{
  ℕ, ◌+◌, ◌*◌, ◌/◌, ◌%◌, ◌^◌, List, [], ◌∷◌, ◌++◌, if◌then◌else◌, ltb, length, set, replicate, take,
}
use stream_sight.Net.Endian.{write_uint32_le}

-- "STRMSYNC"
abbrev pub sei_uuid : List ℕ
sei_uuid = 83 ∷ 84 ∷ 82 ∷ 77 ∷ 83 ∷ 89 ∷ 78 ∷ 67 ∷ []

pub record SeiLatencyPayload : Type 0 where
  pub uuid : List ℕ
  pub frame_id : ℕ
  pub send_time_us : ℕ
  pub encode_time_us : ℕ

-- A 64-bit number in memory.
unfoldable pub uint64_bytes : ℕ → List ℕ
uint64_bytes v = write_uint32_le (v % 2 ^ 32) ++ write_uint32_le (v / 2 ^ 32 % 2 ^ 32)

unfoldable pub payload_bytes : List ℕ → SeiLatencyPayload → List ℕ
payload_bytes padding p =
    p.uuid
    ++ (uint64_bytes p.frame_id
        ++ (uint64_bytes p.send_time_us ++ (write_uint32_le p.encode_time_us ++ padding)))

-- sizeof(SeiLatencyPayload): 28 bytes of fields, rounded up to a multiple of eight.
abbrev pub payload_size : ℕ
payload_size = 32

abbrev pub nalu_size : ℕ
nalu_size = 4 + 1 + (1 + 1 + payload_size)

-- The vector after some of the writes, or the first write past its end: its offset, and the vector then.
pub data Nalu : Type 0 where
  built : List ℕ → Nalu
  past_end : ℕ → List ℕ → Nalu

-- `nalu[off] = b`; past the end of the vector the write is undefined.
unfoldable pub store_byte : ℕ → ℕ → Nalu → Nalu
store_byte off b (built v) = if ltb off (length v) then built (set v off b) else past_end off v
store_byte off b (past_end at v) = past_end at v

-- Bytes from an offset on, one by one or by memcpy.
unfoldable pub store_bytes : ℕ → List ℕ → Nalu → Nalu
store_bytes off [] v = v
store_bytes off (b ∷ bs) v = store_bytes (off + 1) bs (store_byte off b v)

-- BuildLatencySeiNalu: the vector has `nalu_size` bytes; start code and header, type and size, the payload
-- and the trailing bits go to one offset after the other.
unfoldable pub build_latency_sei_nalu : List ℕ → ℕ → ℕ → ℕ → Nalu
build_latency_sei_nalu padding frame_id send_time_us encode_time_us =
    let payload = payload_bytes padding (record {
      uuid = sei_uuid;
      frame_id = frame_id;
      send_time_us = send_time_us;
      encode_time_us = encode_time_us;
    }) in
    let started = store_bytes 0 (0 ∷ 0 ∷ 0 ∷ 1 ∷ 6 ∷ []) (built (replicate nalu_size 0)) in
    let headed = store_bytes 5 (5 ∷ payload_size % 2 ^ 8 ∷ []) started in
    let filled = store_bytes (5 + 1 + 1) (take payload_size payload) headed in
    store_byte (5 + 1 + 1 + payload_size) 0x80 filled

-- ===== src/Rtsp/SeiLatencyMarker/Laws.antt =====
-- What a receiver reads in the unit of src/rtsp/SeiLatencyMarker.h, and where its last write goes.
use stream_sight.Base.{ℕ, ◌+◌, ◌*◌, ◌^◌, List, take, drop}
use stream_sight.Net.Endian.{read_uint32_le}
use stream_sight.Rtsp.SeiLatencyMarker.{SeiLatencyPayload}

-- The number of eight bytes.
abbrev pub read_uint64 : List ℕ → ℕ
read_uint64 bs = read_uint32_le (take 4 bs) + read_uint32_le (take 4 (drop 4 bs)) * 2 ^ 32

-- A receiver takes the payload behind the seven bytes of start code, header, type and size.
unfoldable pub read_sei : List ℕ → SeiLatencyPayload
read_sei bs = record {
  uuid = take 8 (drop 7 bs);
  frame_id = read_uint64 (drop 15 bs);
  send_time_us = read_uint64 (drop 23 bs);
  encode_time_us = read_uint32_le (take 4 (drop 31 bs));
}

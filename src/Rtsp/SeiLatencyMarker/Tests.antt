-- ===== src/Rtsp/SeiLatencyMarker/Tests.antt =====
-- The theorem on the latency marker at one unit.

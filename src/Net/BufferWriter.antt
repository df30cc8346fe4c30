-- ===== src/Net/BufferWriter.antt =====
-- src/net/BufferWriter.h and BufferWriter.cpp: the send queue of a connection. What the system's `send`
-- answers, by the round of the loop and the bytes offered, is the parameter `os`.
mod Tests
pub mod Laws
pub mod Run
use stream_sight.Base.{
  ℕ, ◌+◌, ◌-◌, Bool, true, false, List, [], ◌∷◌, ◌++◌, if◌then◌else◌, ltb, leb, ◌==◌, length, take,
  drop, add32,
}

-- `data` is what the pointer leads to.
pub record Packet : Type 0 where
  pub bytes : List ℕ
  pub size : ℕ
  pub write_index : ℕ

pub record BufferWriter : Type 0 where
  pub buffer : List Packet
  pub max_queue_length : ℕ

-- A number of bytes, EINTR or EAGAIN, or another error.
pub data Answer : Type 0 where
  taken : ℕ → Answer
  again broken : Answer

-- What Send returns: 0 from within the loop when nothing waits, or the last round's count, 0 or -1.
pub data SendResult : Type 0 where
  drained : SendResult
  partial : ℕ → SendResult
  blocked failed : SendResult

-- The second overload of Append copies the bytes first.
unfoldable pub append : BufferWriter → List ℕ → ℕ → ℕ → BufferWriter × Bool
append b content size index =
    if leb size index
    then (b, false)
    else if leb b.max_queue_length (length b.buffer)
    then (b, false)
    else (
      record b {
        buffer = b.buffer ++ (record { bytes = content; size = size; write_index = index } ∷ []);
      },
      true,
    )

unfoldable pub append_copy : BufferWriter → List ℕ → ℕ → ℕ → BufferWriter × Bool
append_copy b content size index =
    let pkt : Packet = record { bytes = take size content; size = size; write_index = index } in
    if leb size index
    then (b, false)
    else if leb b.max_queue_length (length b.buffer)
    then (b, false)
    else (record b { buffer = b.buffer ++ (pkt ∷ []) }, true)

-- The bytes that a round offers.
abbrev pub offered : Packet → List ℕ
offered p = take (p.size - p.write_index) (drop p.write_index p.bytes)

module _ (os : ℕ → List ℕ → Answer) where
  -- The loop of Send: it goes on while whole packets are taken. `wire` is what the system took so far.
  unfoldable pub send_loop : ℕ → List Packet → List ℕ → List Packet × List ℕ × SendResult
  send_loop round [] wire = ([], wire, drained)
  send_loop round (p ∷ ps) wire = elim (os round (offered p)) [
    | taken n ↦
        let p' = record p { write_index = add32 p.write_index n } in
        let wire' = wire ++ take n (offered p) in
        let rest = send_loop (round + 1) ps wire' in
        if ltb 0 n
        then if p.size == p'.write_index then rest else (p' ∷ ps, wire', partial n)
        else (p ∷ ps, wire, blocked)
    | again ↦ (p ∷ ps, wire, blocked)
    | broken ↦ (p ∷ ps, wire, failed)
  ]

  -- Send. `blocking` is the mode of the socket, that a timeout switches on before and off after the loop.
  unfoldable pub send : BufferWriter → ℕ → Bool → BufferWriter × List ℕ × SendResult × Bool
  send b timeout blocking =
      let (left, wire, result) = send_loop 0 b.buffer [] in
      let during = if ltb 0 timeout then true else blocking in
      let after = if ltb 0 timeout then false else during in
      (record b { buffer = left }, wire, result, elim result [ drained ↦ during | _ ↦ after ])

unfoldable pub is_empty : BufferWriter → Bool
is_empty b = length b.buffer == 0

unfoldable pub is_full : BufferWriter → Bool
is_full b = leb b.max_queue_length (length b.buffer)

-- ===== src/Net/BufferWriter/Run.antt =====
-- Sequences of calls of Append and Send, src/net/BufferWriter.cpp.
use stream_sight.Base.{
  inl, inr, ℕ, ◌-◌, ◌^◌, ◌≤◌, ◌<◌, ◌≡◌, ◌≢◌, ◌↔◌, refl, ◌+◌, ◌==◌, add32, sym, ap, ◌∙◌, Bool, true,
  false, Bool-cases, List, [], ◌∷◌, ◌++◌, append_assoc, append-nil, if◌then◌else◌, ltb, lt→ltb, leb,
  if-true, length, take, drop, All, length-append, length-take, take-take, drop-take, arith,
}
use stream_sight.Net.BufferWriter.{
  Packet, BufferWriter, Answer, SendResult, drained, partial, blocked, failed, append, append_copy,
  offered, send_loop, send,
}
use stream_sight.Net.BufferWriter.Laws.{
  Answer-cases, IsPending, waiting, IsHonest, is_drained, send_loop-waiting,
}

pub data Call : Type 0 where
  appends : List ℕ → ℕ → ℕ → Call
  copies : List ℕ → ℕ → ℕ → Call
  sends : (ℕ → List ℕ → Answer) → ℕ → Call

-- What was accepted (`given`) and what the system took (`wire`), so far.
pub record Trace : Type 0 where
  pub writer : BufferWriter
  pub given : List ℕ
  pub wire : List ℕ

-- The part of a buffer that a call hands over.
abbrev pub part : List ℕ → ℕ → ℕ → List ℕ
part bytes size index = take (size - index) (drop index bytes)

unfoldable pub give : List ℕ → BufferWriter × Bool → Trace → Trace
give bytes (b, ok) t = record t { writer = b; given = if ok then t.given ++ bytes else t.given }

unfoldable pub step : Trace → Call → Trace
step t (appends bytes size index) =
    give (part bytes size index) (append t.writer bytes size index) t
step t (copies bytes size index) =
    give (part bytes size index) (append_copy t.writer bytes size index) t
step t (sends os timeout) =
    let (b, wire, result, mode) = send os t.writer timeout false in
    record t { writer = b; wire = t.wire ++ wire }

unfoldable pub run : Trace → List Call → Trace
run t [] = t
run t (c ∷ cs) = run (step t c) cs

-- A buffer holds the bytes that its size promises, and `send` takes no more than it is offered.
abbrev pub IsSane : Call → Type 0
IsSane (appends bytes size index) = (size ≤ length bytes) × (size < 2 ^ 32)
IsSane (copies bytes size index) = (size ≤ length bytes) × (size < 2 ^ 32)
IsSane (sends os timeout) = IsHonest os

abbrev pub IsConserved : Trace → Type 0
IsConserved t =
    (t.wire ++ waiting t.writer.buffer ≡ t.given)
    × All IsPending t.writer.buffer
    × (length t.writer.buffer ≤ t.writer.max_queue_length)

waiting-append :
    (ps : List Packet) (p : Packet) → waiting (ps ++ (p ∷ [])) ≡ waiting ps ++ offered p
unfolding waiting
waiting-append [] p = append-nil (offered p)
waiting-append (q ∷ ps) p =
    ap (λ b. offered q ++ b) (waiting-append ps p)
    ∙ sym (append_assoc (offered q) (waiting ps) (offered p))

All-append_one :
    (ps : List Packet) (p : Packet)
    → All IsPending ps
    → IsPending p
    → All IsPending (ps ++ (p ∷ []))
All-append_one [] p a h = (h, tt)
All-append_one (q ∷ ps) p a h = (a.0, All-append_one ps p a.1 h)

-- Putting a packet on the queue.
enqueue-IsConserved :
    (t : Trace) (p : Packet)
    → IsConserved t
    → IsPending p
    → length t.writer.buffer < t.writer.max_queue_length
    → IsConserved (record t {
      writer = record t.writer { buffer = t.writer.buffer ++ (p ∷ []) };
      given = t.given ++ offered p;
    })
enqueue-IsConserved t p (e, pending, fits) h room = (
  ap (λ b. t.wire ++ b) (waiting-append t.writer.buffer p)
      ∙ sym (append_assoc t.wire (waiting t.writer.buffer) (offered p))
      ∙ ap (λ b. b ++ offered p) e,
  All-append_one t.writer.buffer p pending h,
  rw (length-append t.writer.buffer (p ∷ [])) (omega arith),
)

append-IsConserved :
    (t : Trace) (bytes : List ℕ) (size index : ℕ)
    → IsConserved t
    → size ≤ length bytes
    → size < 2 ^ 32
    → IsConserved (give (part bytes size index) (append t.writer bytes size index) t)
unfolding give append
append-IsConserved t bytes size index h holds word = elim (Bool-cases (leb size index)) [
  | inl nothing ↦ rw (nothing, append) h
  | inr something ↦ elim (Bool-cases (leb t.writer.max_queue_length (length t.writer.buffer))) [
    | inl full ↦ rw (something, full, append) h
    | inr room ↦
        rw (something, room, append)
          (enqueue-IsConserved t (record { bytes = bytes; size = size; write_index = index }) h
            (ground arith, holds, word) (ground arith))
  ]
]

append_copy-IsConserved :
    (t : Trace) (bytes : List ℕ) (size index : ℕ)
    → IsConserved t
    → size ≤ length bytes
    → size < 2 ^ 32
    → IsConserved (give (part bytes size index) (append_copy t.writer bytes size index) t)
unfolding give append_copy
append_copy-IsConserved t bytes size index h holds word = elim (Bool-cases (leb size index)) [
  | inl nothing ↦ rw (nothing, append_copy) h
  | inr something ↦ elim (Bool-cases (leb t.writer.max_queue_length (length t.writer.buffer))) [
    | inl full ↦ rw (something, full, append_copy) h
    | inr room ↦
        let lt : index < size = ground arith in
        let copied : offered (record { bytes = take size bytes; size = size; write_index = index })
            ≡ part bytes size index =
          ap (take (size - index)) (drop-take index size (size - index) bytes (omega arith))
          ∙ take-take (size - index) (size - index) (drop index bytes) (omega arith) in
        let l : size ≤ length (take size bytes) = omega (arith, length-take size bytes) in
        let put =
          enqueue-IsConserved t
            (record { bytes = take size bytes; size = size; write_index = index }) h (lt, l, word)
            (ground arith) in
        rw (something, room, append_copy) (rw copied at put)
  ]
]

send-IsConserved :
    (t : Trace) (os : ℕ → List ℕ → Answer) (timeout : ℕ)
    → IsConserved t
    → IsHonest os
    → IsConserved (step t (sends os timeout))
unfolding step send
send-IsConserved t os timeout (e, pending, fits) honest =
    let s = send_loop-waiting os honest 0 t.writer.buffer [] pending in
    (
      append_assoc t.wire (send_loop os 0 t.writer.buffer []).1
            (waiting (send_loop os 0 t.writer.buffer []).0)
          ∙ ap (λ b. t.wire ++ b) s.0
          ∙ e,
      s.1,
      omega (arith, s.3),
    )

-- Whatever calls of Append and Send are made, and however much the system takes at a time, what the
-- system took and then what waits is what the calls of Append that answered true handed over, byte
-- by byte and in order; no packet without bytes waits; and no more packets wait than the queue may
-- hold. So it is afterwards if it was before, when each buffer holds the bytes that its size, below
-- 2^32, promises, and the system takes no more than it is offered.
pub run-IsConserved :
    (calls : List Call) (t : Trace) → IsConserved t → All IsSane calls → IsConserved (run t calls)
unfolding run step
run-IsConserved [] t h s = h
run-IsConserved (appends bytes size index ∷ cs) t h s =
    run-IsConserved cs (step t (appends bytes size index))
      (append-IsConserved t bytes size index h s.0.0 s.0.1) s.1
run-IsConserved (copies bytes size index ∷ cs) t h s =
    run-IsConserved cs (step t (copies bytes size index))
      (append_copy-IsConserved t bytes size index h s.0.0 s.0.1) s.1
run-IsConserved (sends os timeout ∷ cs) t h s =
    run-IsConserved cs (step t (sends os timeout)) (send-IsConserved t os timeout h s.0) s.1

cons_not_nil : {p : Packet} {ps : List Packet} → p ∷ ps ≢ []
cons_not_nil h = cc

-- The loop ends from within exactly when no packet is left: a packet that stays has not been sent.
drained-left :
    (os : ℕ → List ℕ → Answer) (round : ℕ) (ps : List Packet) (wire : List ℕ)
    → (send_loop os round ps wire).0 ≡ []
    → is_drained (send_loop os round ps wire).2 ≡ true
unfolding send_loop
drained-left os round [] wire = λ left. refl
drained-left os round (p ∷ ps) wire = elim (Answer-cases (os round (offered p))) [
  | inl (n, e) ↦ elim (Bool-cases (ltb 0 n)) [
    | inl some_bytes ↦
        let wire' = wire ++ take n (offered p) in
        elim (Bool-cases (p.size == add32 p.write_index n)) [
          | inl whole ↦ rw (e, some_bytes, whole, send_loop) (drained-left os (round + 1) ps wire')
          | inr rest ↦ rw (e, some_bytes, rest, send_loop) (λ left. absurd (cons_not_nil left))
        ]
    | inr no_bytes ↦ rw (e, no_bytes, send_loop) (λ left. absurd (cons_not_nil left))
  ]
  | inr (inl e) ↦ rw (e, send_loop) (λ left. absurd (cons_not_nil left))
  | inr (inr e) ↦ rw (e, send_loop) (λ left. absurd (cons_not_nil left))
]

mode-is_drained :
    (r : SendResult) (during after : Bool)
    → during ≡ true
    → after ≡ false
    → (elim r [ drained ↦ during | _ ↦ after ]) ≡ is_drained r
mode-is_drained drained during after d a = d
mode-is_drained (partial n) during after d a = a
mode-is_drained blocked during after d a = a
mode-is_drained failed during after d a = a

-- Send with a timeout, on packets that have bytes to go, to a system that takes no more than it is
-- offered, leaves the socket in blocking mode exactly when it has emptied the queue.
pub send-blocking :
    (os : ℕ → List ℕ → Answer) (b : BufferWriter) (timeout : ℕ)
    → IsHonest os
    → All IsPending b.buffer
    → 0 < timeout
    → let (b', wire, result, mode) = send os b timeout false in (mode ≡ true) ↔ (b'.buffer ≡ [])
unfolding send
send-blocking os b timeout honest pending pos =
    let s = send_loop-waiting os honest 0 b.buffer [] pending in
    let on = lt→ltb 0 timeout pos in
    let m =
      mode-is_drained (send_loop os 0 b.buffer []).2 _ _ (if-true (ltb 0 timeout) true false on)
        (if-true (ltb 0 timeout) false _ on) in
    (λ e. s.2 (sym m ∙ e), λ e. m ∙ drained-left os 0 b.buffer [] e)

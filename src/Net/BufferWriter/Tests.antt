-- ===== src/Net/BufferWriter/Tests.antt =====
-- The theorems on the send queue at inputs that exercise the code.
use stream_sight.Base.{
  ℕ, ◌≡◌, ◌↔◌, refl, true, false, List, [], ◌∷◌, ◌++◌, length, if◌then◌else◌, leb, arith,
}
use stream_sight.Net.BufferWriter.{
  BufferWriter, Answer, taken, again, send, send_loop, append, append_copy,
}
use stream_sight.Net.BufferWriter.Laws.{waiting, IsHonest}
use stream_sight.Net.BufferWriter.Run.{
  Call, appends, copies, sends, Trace, give, step, run, IsConserved, run-IsConserved, send-blocking,
}

-- At most three bytes at a time.
abbrev at_most_three : ℕ → List ℕ → Answer
at_most_three round bytes = taken (if leb 3 (length bytes) then 3 else length bytes)

amount : Answer → ℕ
amount (taken n) = n
amount a = 0

abbrev fresh : Trace
fresh = record { writer = record { buffer = []; max_queue_length = 2 }; given = []; wire = [] }

abbrev calls : List Call
calls =
    appends (1 ∷ 2 ∷ 3 ∷ []) 3 0
    ∷ copies (4 ∷ 5 ∷ 6 ∷ 7 ∷ 8 ∷ []) 5 1
    ∷ appends (9 ∷ []) 1 0
    ∷ sends at_most_three 0
    ∷ sends (λ r b. again) 0
    ∷ sends at_most_three 10
    ∷ []

at_most_three-IsHonest : IsHonest at_most_three
at_most_three-IsHonest round bytes n e = ground arith

again-IsHonest : IsHonest (λ r b. again)
again-IsHonest round bytes n e = absurd (ground (arith, e))

empty_waiting : [] ++ waiting [] ≡ []
unfolding waiting
empty_waiting = refl

run-IsConserved_example : IsConserved (run fresh calls)
run-IsConserved_example =
    run-IsConserved calls fresh (empty_waiting, tt, omega arith)
      (
        (omega arith, omega arith),
        (
          (omega arith, omega arith),
          (
            (omega arith, omega arith),
            (at_most_three-IsHonest, (again-IsHonest, (at_most_three-IsHonest, tt))),
          ),
        ),
      )

run_wire : (run fresh calls).wire ≡ 1 ∷ 2 ∷ 3 ∷ 5 ∷ 6 ∷ 7 ∷ 8 ∷ []
unfolding run step give append append_copy send send_loop
run_wire = refl

abbrev one_packet : BufferWriter
one_packet = record {
  buffer = record { bytes = 1 ∷ 2 ∷ []; size = 2; write_index = 0 } ∷ [];
  max_queue_length = 2;
}

send-blocking_example :
    let (b', wire, result, mode) = send at_most_three one_packet 10 false in
    (mode ≡ true) ↔ (b'.buffer ≡ [])
send-blocking_example =
    send-blocking at_most_three one_packet 10 at_most_three-IsHonest
      ((omega arith, omega arith, omega arith), tt) (omega arith)

left_blocking : (send at_most_three one_packet 10 false).3 ≡ true
unfolding send send_loop
left_blocking = refl

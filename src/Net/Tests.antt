-- ===== src/Net/Tests.antt =====
-- Runs of the network layer, and the theorems at inputs that exercise the code.
use stream_sight.Base.{
  ℕ, ◌==◌, ◌+◌, ◌-◌, ◌%◌, ◌≡◌, ◌≤◌, ◌<◌, refl, inr, All, if◌then◌else◌, none, Bool, true, false,
  some, List, [], ◌∷◌, ◌++◌, length, drop, arith,
}
use stream_sight.Net.RingBuffer.{
  RingBuffer, create, prune_stale, prune_loop, store, remove, oldest, advance, old_dropped,
  new_dropped,
}
use stream_sight.Net.RingBuffer.Inv.{IsValid}
use stream_sight.Net.RingBuffer.Queue
use stream_sight.Net.RingBuffer.Refine.{contents}
use stream_sight.Net.RingBuffer.Prune.{prune_stale_refines}
use stream_sight.Net.RingBuffer.Run.{
  Call, pushes, overwrites, pops, peeks, offers, prunes, done, got, status, dropped, run, queue_run,
  queue_step, run_refines,
}
use stream_sight.Net.BufferReader.{
  BufferReader, bytes, peek, read, read_until_crlf, find_last_crlf, crlf, max_buffer_size,
  max_bytes_per_read,
}
use stream_sight.Net.BufferReader.Search.{starts_with, find_end}
use stream_sight.Net.BufferReader.Laws.{peek-retrieve, peek-read, read_until_crlf-some}
use stream_sight.Net.BufferReader.Laws as Reader
use stream_sight.Net.Timer.{
  Timer, TimerQueue, set_next_timeout, find_timer, erase_timer, emplace_event, add_timer,
  remove_timer, expired, pending, reschedule, invoke, handle_timer_event,
}
use stream_sight.Net.Timer.Laws.{IsLater, IsSorted, handle_timer_event_lem}
use stream_sight.Net.Timer.Revival.{has_event, removing, handle_timer_event-removing}
use stream_sight.Net.Timer.Cancel.{remove_timer-add_timer}

-- An entry is its timestamp; the even ones are key frames.
abbrev is_key : ℕ → Bool
is_key n = n % 2 == 0

abbrev script : List (Call ℕ)
script =
    pushes 10
    ∷ pushes 11
    ∷ offers 12 20 5
    ∷ offers 13 20 50
    ∷ peeks
    ∷ prunes 12 (some is_key)
    ∷ overwrites 14
    ∷ pops
    ∷ pops
    ∷ []

run_refines_example : run 0 (λ n. n) (create 0 2) script ≡ queue_run 2 (λ n. n) [] script
run_refines_example = run_refines 0 (λ n. n) 2 script (omega arith)

queue_answers :
    queue_run 2 (λ n. n) [] script
    ≡ done true
      ∷ done true
      ∷ status old_dropped
      ∷ status new_dropped
      ∷ got (some 11)
      ∷ dropped 1
      ∷ done true
      ∷ got (some 12)
      ∷ got (some 14)
      ∷ []
unfolding queue_run queue_step Queue.push Queue.push_or_drop Queue.replace_old Queue.pop
    Queue.prune_stale Queue.push_overwrite Queue.stale Queue.fresh Queue.select
queue_answers = refl

-- 9, 20, 11, oldest first, round the end of the buffer.
abbrev wrapped : RingBuffer ℕ
wrapped = record {
  buffer = 20 ∷ 11 ∷ 7 ∷ 8 ∷ [];
  capacity = 4;
  put_pos = 2;
  get_pos = 2;
  num_datas = 4;
}

wrapped-IsValid : IsValid wrapped
wrapped-IsValid = record {
  has_room = omega arith;
  full_length = refl;
  get_in = omega arith;
  put_in = omega arith;
  within = omega arith;
  apart = inr refl;
}

prune_stale_refines_example :
    let (r', pruned) = prune_stale 0 10 (λ n. n) (some is_key) wrapped in
    IsValid r'
    × ((contents 0 r', pruned) ≡ Queue.prune_stale 10 (λ n. n) (some is_key) (contents 0 wrapped))
prune_stale_refines_example = prune_stale_refines 0 10 (λ n. n) (some is_key) wrapped-IsValid

pruned_runs : (prune_stale 0 10 (λ n. n) (some is_key) wrapped).1 ≡ 1
unfolding prune_stale prune_loop store remove oldest advance
pruned_runs = refl

-- Two lines and a half, behind a byte that was taken already.
abbrev lines : BufferReader
lines = record {
  buffer = 90 ∷ 65 ∷ 13 ∷ 10 ∷ 66 ∷ 13 ∷ 10 ∷ 67 ∷ 0 ∷ 0 ∷ [];
  reader_index = 1;
  writer_index = 8;
}

peek-read_example :
    let (b', answer) = read lines (bytes (68 ∷ 69 ∷ [])) in
    Reader.IsValid b'
    × (peek b' ≡ peek lines ++ (68 ∷ 69 ∷ []))
    × (answer ≡ bytes (68 ∷ 69 ∷ []))
    × (length b'.buffer ≤ max_buffer_size + max_bytes_per_read)
peek-read_example = peek-read {b = lines} (68 ∷ 69 ∷ []) (omega arith) (omega arith) (omega arith)

abbrev two_lines : List ℕ
two_lines = 65 ∷ 13 ∷ 10 ∷ 66 ∷ 13 ∷ 10 ∷ []

read_until_crlf-some_example :
    let b' = (read_until_crlf lines).0 in
    Reader.IsValid b'
    × (two_lines ++ peek b' ≡ peek lines)
    × (drop (length two_lines - 2) two_lines ≡ crlf)
    × ((j : ℕ) → j < length (peek b') → starts_with crlf (drop j (peek b')) ≡ false)
unfolding read_until_crlf find_last_crlf peek find_end starts_with
read_until_crlf-some_example = read_until_crlf-some {b = lines} two_lines (omega arith) refl

-- A callback is a number; the even ones repeat. Timer 1 is due at 5 every 3, timer 2 at 9 every 10.
abbrev every : ℕ → ℕ → Timer ℕ
every e ms = record { event_callback = e; interval = ms }

abbrev two_timers : TimerQueue ℕ
two_timers = record {
  timers = (1, every 10 3) ∷ (2, every 21 10) ∷ [];
  events =
      record { timeout = 5; id = 1; timer = every 10 3 }
      ∷ record { timeout = 9; id = 2; timer = every 21 10 }
      ∷ [];
  next_timeout = λ i. if i == 1 then 5 else 9;
  last_timer_id = 2;
}

handle_timer_event_lem_example :
    let q' = handle_timer_event (λ e q. (q, is_key e)) 9 10 two_timers in
    All (IsLater 9) q'.events × IsSorted q'.events
handle_timer_event_lem_example =
    handle_timer_event_lem is_key 9 10 two_timers (λ e. ground (arith, e)) (refl, tt)
      (omega arith, (omega arith, tt)) (omega arith)

rescheduled :
    (handle_timer_event (λ e q. (q, is_key e)) 9 10 two_timers).events
    ≡ record { timeout = 13; id = 1; timer = every 10 3 } ∷ []
unfolding handle_timer_event expired pending invoke reschedule emplace_event erase_timer
    set_next_timeout
rescheduled = refl

no_third : find_timer 3 two_timers.timers ≡ none
unfolding find_timer
no_third = refl

remove_timer-add_timer_example :
    let (q', id) = add_timer 100 7 0 two_timers in
    let q'' = remove_timer id q' in (q''.timers ≡ two_timers.timers) × (q''.events ≡ q'.events)
remove_timer-add_timer_example =
    remove_timer-add_timer 100 7 0 two_timers (no_third, (omega arith, (omega arith, tt)))

first_known : find_timer 1 two_timers.timers ≡ some (every 10 3)
unfolding find_timer
first_known = refl

first_once : find_timer 1 (erase_timer 1 two_timers.timers) ≡ none
unfolding find_timer erase_timer
first_once = refl

first_due : has_event 1 (expired 6 two_timers.events) ≡ true
unfolding has_event expired
first_due = refl

handle_timer_event-removing_example :
    let q' = handle_timer_event (removing 1) 6 7 two_timers in
    (find_timer 1 q'.timers ≡ none) × (has_event 1 q'.events ≡ true)
handle_timer_event-removing_example =
    handle_timer_event-removing 1 6 7 (every 10 3) two_timers first_known first_once first_due

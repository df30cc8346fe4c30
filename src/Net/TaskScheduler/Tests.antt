-- ===== src/Net/TaskScheduler/Tests.antt =====
-- The theorems on the trigger events at inputs that exercise the code.
use stream_sight.Base.{inl, ℕ, ◌≡◌, refl, false, some, List, [], ◌∷◌, ◌++◌, arith}
use stream_sight.Net.RingBuffer.{advance, create}
use stream_sight.Net.RingBuffer.Inv.{IsValid}
use stream_sight.Net.RingBuffer.Refine.{contents, entries}
use stream_sight.Net.RingBuffer.Run.{create-IsValid}
use stream_sight.Net.TaskScheduler.{TaskScheduler, make_scheduler, handle_trigger_event}
use stream_sight.Net.TaskScheduler.Laws.{acting, act_all, handle_trigger_event_lem}

-- 7 and 8, oldest first, in a small buffer.
abbrev busy : TaskScheduler ℕ
busy = record {
  trigger_events = record {
    buffer = 7 ∷ 8 ∷ 0 ∷ [];
    capacity = 3;
    put_pos = 2;
    get_pos = 0;
    num_datas = 2;
  };
  wakeups = 2;
  is_shutdown = false;
}

busy-IsValid : IsValid busy.trigger_events
busy-IsValid = record {
  has_room = omega arith;
  full_length = refl;
  get_in = omega arith;
  put_in = omega arith;
  within = omega arith;
  apart = inl refl;
}

busy_events : contents 0 busy.trigger_events ≡ 7 ∷ 8 ∷ []
unfolding contents entries advance
busy_events = refl

-- A callback notes its event.
abbrev note : ℕ → List ℕ → List ℕ
note e log = log ++ (e ∷ [])

handle_trigger_event_lem_example :
    (t' : TaskScheduler ℕ) × (handle_trigger_event 0 (acting 0 note) 5 ([], busy)
      ≡ some (act_all 0 note (7 ∷ 8 ∷ []) [], t'))
    × IsValid t'.trigger_events
    × (contents 0 t'.trigger_events ≡ [])
    × (t'.wakeups ≡ 2)
handle_trigger_event_lem_example =
    handle_trigger_event_lem 0 note (8 ∷ []) 7 5 [] busy busy-IsValid busy_events (omega arith)

abbrev new : TaskScheduler ℕ
new = make_scheduler 0

new-IsValid : IsValid new.trigger_events
unfolding make_scheduler
new-IsValid = create-IsValid 0 (λ n. n) 50000 (omega arith)

new_capacity : new.trigger_events.capacity ≡ 50000
unfolding make_scheduler create
new_capacity = refl

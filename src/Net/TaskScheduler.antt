-- ===== src/Net/TaskScheduler.antt =====
-- src/net/TaskScheduler.h and TaskScheduler.cpp: the trigger events of a scheduler, in the ring buffer of
-- src/net/RingBuffer.h. An event is a name; what its callback does to the rest of the program and to the
-- scheduler's events, to which it may add, is the parameter `callback`. Channels and the waiting for them
-- are left out.
mod Tests
pub mod Laws
use stream_sight.Base.{
  ℕ, zero, suc, ◌+◌, Bool, true, false, Option, none, some, List, [], ◌∷◌, if◌then◌else◌, ltb,
}
use stream_sight.Net.RingBuffer.{RingBuffer, create, push, pop}

abbrev pub max_trigger_events : ℕ
max_trigger_events = 50000

-- `wakeups` counts the bytes that wait in the wake-up pipe.
pub record TaskScheduler (A : Type 0) : Type 0 where
  pub trigger_events : RingBuffer A
  pub wakeups : ℕ
  pub is_shutdown : Bool

-- The constructor; `d` is the default event.
unfoldable pub make_scheduler : {A : Type 0} → A → TaskScheduler A
make_scheduler d = record {
  trigger_events = create d max_trigger_events;
  wakeups = 0;
  is_shutdown = false;
}

module _ {A : Type 0} where
  unfoldable pub add_trigger_event : A → TaskScheduler A → TaskScheduler A × Bool
  add_trigger_event event s =
      if ltb s.trigger_events.num_datas max_trigger_events
      then (
        record s { trigger_events = (push s.trigger_events event).0; wakeups = s.wakeups + 1 },
        true,
      )
      else (s, false)

  unfoldable pub shut_down : TaskScheduler A → TaskScheduler A
  shut_down s = record s { is_shutdown = true; wakeups = s.wakeups + 1 }

  -- Wake reads the pipe until it is empty.
  unfoldable pub wake : TaskScheduler A → TaskScheduler A
  wake s = record s { wakeups = 0 }

  module _ {S : Type 0} (d : A) (callback : A → S × TaskScheduler A → S × TaskScheduler A) where
    -- `if (trigger_events_->Pop(callback)) callback();`
    unfoldable pub run_one : S × TaskScheduler A → S × TaskScheduler A
    run_one (s, t) =
        let (events, event) = pop d t.trigger_events in
        let t' = record t { trigger_events = events } in
        elim event [ none ↦ (s, t') | some e ↦ callback e (s, t') ]

    -- HandleTriggerEvent, on fuel: callbacks that go on adding events keep it busy.
    unfoldable pub handle_trigger_event : ℕ → S × TaskScheduler A → Option (S × TaskScheduler A)
    handle_trigger_event zero w = none
    handle_trigger_event (suc fuel) w =
        let w' = run_one w in
        let rest = handle_trigger_event fuel w' in
        if ltb 0 w'.1.trigger_events.num_datas then rest else some w'

-- ===== src/Net/Timer.antt =====
-- src/net/Timer.h and Timer.cpp: the timer queue of a task scheduler. Times are milliseconds of the
-- steady clock, an argument of each call. A callback is a name; what it does to the queue, which it
-- may change through AddTimer and RemoveTimer, and its result are the parameter `fire`.
pub mod Laws
pub mod Cancel
pub mod Revival
use stream_sight.Base.{
  ℕ, ◌+◌, ◌-◌, ◌%◌, ◌^◌, Bool, true, false, ◌&&◌, ◌||◌, Option, none, some, List, [], ◌∷◌, ◌++◌,
  if◌then◌else◌, ltb, leb, ◌==◌,
}

-- The fields that do not change after construction.
pub record Timer (E : Type 0) : Type 0 where
  pub event_callback : E
  pub interval : ℕ

-- An entry of `events_`: the key, a time and a timer's id, and the timer.
pub record Entry (E : Type 0) : Type 0 where
  pub timeout : ℕ
  pub id : ℕ
  pub timer : Timer E

-- `timers_` and `events_` share the timers: `next_timeout` is that field of the timer made for an id.
-- `events_` is kept in the order of its keys.
pub record TimerQueue (E : Type 0) : Type 0 where
  pub timers : List (ℕ × Timer E)
  pub events : List (Entry E)
  pub next_timeout : ℕ → ℕ
  pub last_timer_id : ℕ

-- `std::pair`'s order on the keys.
abbrev pub before : ℕ → ℕ → ℕ → ℕ → Bool
before t i u j = ltb t u || (t == u && ltb i j)

-- What GetTimeRemaining answers: -1, or a number of milliseconds; it reads the first of `events_`
-- without a test, so with timers and no event its answer is undefined.
pub data Remaining : Type 0 where
  no_timers undefined : Remaining
  wait : ℕ → Remaining

module _ {E : Type 0} where
  -- Timer::Timer
  unfoldable pub make_timer : E → ℕ → Timer E
  make_timer event msec = record {
    event_callback = event;
    interval = if msec == 0 then 1 else msec;
  }

  -- `timer->SetNextTimeout(time_point)`
  unfoldable pub set_next_timeout : ℕ → Timer E → ℕ → (ℕ → ℕ) → ℕ → ℕ
  set_next_timeout id timer time_point next k =
      if k == id then time_point + timer.interval else next k

  -- `timers_.find(timerId)`
  unfoldable pub find_timer : ℕ → List (ℕ × Timer E) → Option (Timer E)
  find_timer id [] = none
  find_timer id ((k, t) ∷ ts) = if k == id then some t else find_timer id ts

  -- `timers_.emplace(timer_id, timer)`: an entry that is there stays.
  unfoldable pub emplace_timer : ℕ → Timer E → List (ℕ × Timer E) → List (ℕ × Timer E)
  emplace_timer id t [] = (id, t) ∷ []
  emplace_timer id t ((k, u) ∷ ts) = if k == id then (k, u) ∷ ts else (k, u) ∷ emplace_timer id t ts

  -- `timers_.erase(timerId)`
  unfoldable pub erase_timer : ℕ → List (ℕ × Timer E) → List (ℕ × Timer E)
  erase_timer id [] = []
  erase_timer id ((k, t) ∷ ts) = if k == id then ts else (k, t) ∷ erase_timer id ts

  -- `events_.emplace(key, timer)`: an entry with that key stays.
  unfoldable pub emplace_event : Entry E → List (Entry E) → List (Entry E)
  emplace_event e [] = e ∷ []
  emplace_event e (x ∷ xs) =
      let later = x ∷ emplace_event e xs in
      if before e.timeout e.id x.timeout x.id
      then e ∷ x ∷ xs
      else if e.timeout == x.timeout && e.id == x.id
      then x ∷ xs
      else later

  -- `events_.erase(key)`
  unfoldable pub erase_event : ℕ → ℕ → List (Entry E) → List (Entry E)
  erase_event t i [] = []
  erase_event t i (x ∷ xs) = if x.timeout == t && x.id == i then xs else x ∷ erase_event t i xs

  -- AddTimer, at the time `now`.
  unfoldable pub add_timer : ℕ → E → ℕ → TimerQueue E → TimerQueue E × ℕ
  add_timer now event ms q =
      let id = (q.last_timer_id + 1) % 2 ^ 32 in
      let timer = make_timer event ms in
      (
        record {
          timers = emplace_timer id timer q.timers;
          events = emplace_event (record { timeout = now + ms; id = id; timer = timer }) q.events;
          next_timeout = set_next_timeout id timer now q.next_timeout;
          last_timer_id = id;
        },
        id,
      )

  unfoldable pub remove_timer : ℕ → TimerQueue E → TimerQueue E
  remove_timer id q = elim (find_timer id q.timers) [
    | none ↦ q
    | some t ↦ record q {
      events = erase_event (q.next_timeout id) id q.events;
      timers = erase_timer id q.timers;
    }
  ]

  unfoldable pub get_time_remaining : ℕ → TimerQueue E → Remaining
  get_time_remaining now q = elim q.timers [
    | [] ↦ no_timers
    | _ ∷ _ ↦ elim q.events [ [] ↦ undefined | e ∷ _ ↦ wait (e.timeout - now) ]
  ]

  -- The entries that the first loop of HandleTimerEvent takes off, and those it leaves.
  unfoldable pub expired : ℕ → List (Entry E) → List (Entry E)
  expired now [] = []
  expired now (e ∷ es) = if leb e.timeout now then e ∷ expired now es else []

  unfoldable pub pending : ℕ → List (Entry E) → List (Entry E)
  pending now [] = []
  pending now (e ∷ es) = if leb e.timeout now then pending now es else e ∷ es

  -- The last loop: every repeating timer is put back.
  unfoldable pub reschedule : ℕ → List (Entry E) → TimerQueue E → TimerQueue E
  reschedule now [] q = q
  reschedule now (e ∷ es) q = reschedule now es (record q {
    next_timeout = set_next_timeout e.id e.timer now q.next_timeout;
    events = emplace_event (record e { timeout = now + e.timer.interval }) q.events;
  })

  module _ (fire : E → TimerQueue E → TimerQueue E × Bool) where
    -- The middle loop: the callbacks in order. `again` is `to_reschedule`.
    unfoldable pub invoke :
        List (Entry E) → List (Entry E) → TimerQueue E → TimerQueue E × List (Entry E)
    invoke [] again q = (q, again)
    invoke (e ∷ es) again q =
        let (q', repeat) = fire e.timer.event_callback q in
        invoke es (if repeat then again ++ (e ∷ []) else again)
          (if repeat then q' else record q' { timers = erase_timer e.id q'.timers })

    -- HandleTimerEvent; the clock is read once before the callbacks and once after them.
    unfoldable pub handle_timer_event : ℕ → ℕ → TimerQueue E → TimerQueue E
    handle_timer_event now later q = elim q.timers [
      | [] ↦ q
      | _ ∷ _ ↦
          let (q', again) =
            invoke (expired now q.events) [] (record q { events = pending now q.events }) in
          reschedule later again q'
    ]

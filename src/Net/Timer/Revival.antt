-- ===== src/Net/Timer/Revival.antt =====
-- A timer of src/net/Timer.cpp that is removed while it is due: HandleTimerEvent has taken it off already.
use stream_sight.Base.{
  inl, inr, ℕ, ◌+◌, ◌≡◌, refl, sym, ap, ◌∙◌, Bool, true, false, Bool-cases, none, some, List, [],
  ◌∷◌, ◌++◌, append_assoc, append-nil, if◌then◌else◌, if-false, subst, ◌==◌, ==→eq, arith,
}
use stream_sight.Net.Timer.{
  Timer, Entry, TimerQueue, set_next_timeout, find_timer, erase_timer, emplace_event, remove_timer,
  expired, pending, reschedule, invoke, handle_timer_event,
}
use stream_sight.Net.Timer.Laws.{List-cases}
use stream_sight.Net.Timer.Cancel.{remove_timer-found}

module _ {E : Type 0} where
  -- An event of the timer waits.
  unfoldable pub has_event : ℕ → List (Entry E) → Bool
  has_event id [] = false
  has_event id (e ∷ es) = if e.id == id then true else has_event id es

  has_event-emplace_event :
      (id : ℕ) (e : Entry E) (es : List (Entry E))
      → has_event id es ≡ true
      → has_event id (emplace_event e es) ≡ true
  unfolding has_event emplace_event
  has_event-emplace_event id e [] h = ground (arith, h)
  has_event-emplace_event id e (x ∷ xs) h = ground (arith, has_event-emplace_event id e xs)

  has_event-own : (e : Entry E) (es : List (Entry E)) → has_event e.id (emplace_event e es) ≡ true
  unfolding has_event emplace_event
  has_event-own e [] = ground arith
  has_event-own e (x ∷ xs) = ground (arith, has_event-own e xs)

  has_event-kept :
      (id later : ℕ) (again : List (Entry E)) (q : TimerQueue E)
      → has_event id q.events ≡ true
      → has_event id (reschedule later again q).events ≡ true
  unfolding reschedule
  has_event-kept id later [] q h = h
  has_event-kept id later (e ∷ es) q h =
      has_event-kept id later es _ (has_event-emplace_event id _ q.events h)

  -- Every timer that repeats has an event afterwards, whether the queue still knows it or not.
  has_event-reschedule :
      (id later : ℕ) (again : List (Entry E)) (q : TimerQueue E)
      → has_event id again ≡ true
      → has_event id (reschedule later again q).events ≡ true
  unfolding reschedule has_event
  has_event-reschedule id later [] q h = ground (arith, h)
  has_event-reschedule id later (e ∷ es) q h =
      let back : Entry E = record e { timeout = later + e.timer.interval } in
      let q1 : TimerQueue E = record q {
        next_timeout = set_next_timeout e.id e.timer later q.next_timeout;
        events = emplace_event back q.events;
      } in
      elim (Bool-cases (e.id == id)) [
        | inl same ↦ has_event-kept id later es q1 (
            subst (λ k. has_event k q1.events ≡ true) (==→eq e.id id same)
              (has_event-own back q.events))
        | inr other ↦
            has_event-reschedule id later es q1
              (sym (if-false (e.id == id) true (has_event id es) other) ∙ h)
      ]

  timers-reschedule :
      (later : ℕ) (again : List (Entry E)) (q : TimerQueue E)
      → (reschedule later again q).timers ≡ q.timers
  unfolding reschedule
  timers-reschedule later [] q = refl
  timers-reschedule later (e ∷ es) q = timers-reschedule later es _

  -- Every callback removes the timer `id` and asks to be called again.
  abbrev pub removing : ℕ → E → TimerQueue E → TimerQueue E × Bool
  removing id e q = (remove_timer id q, true)

  remove_timer-unknown :
      (id : ℕ) (q : TimerQueue E) → find_timer id q.timers ≡ none → remove_timer id q ≡ q
  unfolding remove_timer
  remove_timer-unknown id q h = rw (h, remove_timer) refl

  invoke-removing :
      (id : ℕ) (es again : List (Entry E)) (q : TimerQueue E)
      → ((invoke (removing id) es again q).1 ≡ again ++ es)
        × (find_timer id q.timers ≡ none
            → find_timer id (invoke (removing id) es again q).0.timers ≡ none)
  unfolding invoke
  invoke-removing id [] again q = (sym (append-nil again), λ h. h)
  invoke-removing id (e ∷ es) again q =
      let ih = invoke-removing id es (again ++ (e ∷ [])) (remove_timer id q) in
      (
        ih.0 ∙ append_assoc again (e ∷ []) es,
        λ h. ih.1 (ap (λ w. find_timer id w.timers) (remove_timer-unknown id q h) ∙ h),
      )

  invoke-all :
      (id : ℕ) (es : List (Entry E)) (q : TimerQueue E) → (invoke (removing id) es [] q).1 ≡ es
  invoke-all id es q = (invoke-removing id es [] q).0

  -- With something due, the first callback takes the timer off.
  invoke-gone :
      (id : ℕ) (t : Timer E) (es : List (Entry E)) (q : TimerQueue E)
      → find_timer id q.timers ≡ some t
      → find_timer id (erase_timer id q.timers) ≡ none
      → has_event id es ≡ true
      → find_timer id (invoke (removing id) es [] q).0.timers ≡ none
  unfolding invoke has_event
  invoke-gone id t [] q known once due = ground (arith, due)
  invoke-gone id t (e ∷ es) q known once due =
      (invoke-removing id es (e ∷ []) (remove_timer id q)).1
        (ap (λ w. find_timer id w.timers) (remove_timer-found id t q known) ∙ once)

  handled :
      (fire : E → TimerQueue E → TimerQueue E × Bool) (id now later : ℕ) (t : Timer E)
      (q : TimerQueue E)
      → find_timer id q.timers ≡ some t
      → let out =
          invoke fire (expired now q.events) [] (record q { events = pending now q.events }) in
        handle_timer_event fire now later q ≡ reschedule later out.1 out.0
  unfolding handle_timer_event find_timer
  handled fire id now later t q known = elim (List-cases q.timers) [
    | inl empty ↦ absurd (ground (arith, sym (ap (find_timer id) empty) ∙ known))
    | inr (x, xs, e) ↦
        let out =
          invoke fire (expired now q.events) [] (record q { events = pending now q.events }) in
        ap (λ ts. elim ts as (λ y. TimerQueue E) [ [] ↦ q | y ∷ ys ↦ reschedule later out.1 out.0 ])
          e
  ]

  -- A timer that is removed by callbacks while it is due comes back: the callbacks all remove the timer
  -- and ask to be called again, the timer is known once, and it is among the events that are due.
  -- After HandleTimerEvent the queue does not know the timer any more, and so cannot remove it, but
  -- an event of it waits.
  pub handle_timer_event-removing :
      (id now later : ℕ) (t : Timer E) (q : TimerQueue E)
      → find_timer id q.timers ≡ some t
      → find_timer id (erase_timer id q.timers) ≡ none
      → has_event id (expired now q.events) ≡ true
      → let q' = handle_timer_event (removing id) now later q in
        (find_timer id q'.timers ≡ none) × (has_event id q'.events ≡ true)
  handle_timer_event-removing id now later t q known once due =
      let es = expired now q.events in
      let rest : TimerQueue E = record q { events = pending now q.events } in
      let out = invoke (removing id) es [] rest in
      let all = invoke-all id es rest in
      let gone = invoke-gone id t es rest known once due in
      let h = handled (removing id) id now later t q known in
      (
        ap (λ w. find_timer id w.timers) h
            ∙ ap (find_timer id) (timers-reschedule later out.1 out.0)
            ∙ gone,
        ap (λ w. has_event id w.events) h
            ∙ has_event-reschedule id later out.1 out.0 (ap (has_event id) all ∙ due),
      )

-- ===== src/Net/Timer/Cancel.antt =====
-- What RemoveTimer of src/net/Timer.cpp cancels of what AddTimer has made.
use stream_sight.Base.{
  ℕ, ◌+◌, ◌%◌, ◌^◌, ◌≡◌, ◌≢◌, refl, ap, ◌∙◌, inl, inr, none, some, List, [], ◌∷◌, if◌then◌else◌,
  ◌==◌, ==_refl, ==→eq, All, arith, Bool-cases,
}
use stream_sight.Net.Timer.{
  Timer, Entry, TimerQueue, make_timer, set_next_timeout, find_timer, emplace_timer, erase_timer,
  emplace_event, erase_event, add_timer, remove_timer,
}

module _ {E : Type 0} where
  -- No entry has the id.
  abbrev pub IsFresh : ℕ → TimerQueue E → Type 0
  IsFresh id q = (find_timer id q.timers ≡ none) × All (λ e. e.id ≢ id) q.events

  erase-emplace_timer :
      (id : ℕ) (t : Timer E) (ts : List (ℕ × Timer E))
      → find_timer id ts ≡ none
      → (erase_timer id (emplace_timer id t ts) ≡ ts)
        × (find_timer id (emplace_timer id t ts) ≡ some t)
  unfolding erase_timer emplace_timer find_timer
  erase-emplace_timer id t [] h = rw (==_refl id) (refl, refl)
  erase-emplace_timer id t ((k, u) ∷ ts) h = ground (arith, erase-emplace_timer id t ts)

  -- Erasing the key that was put in takes it out; another key of that id takes nothing out.
  erase-emplace_event :
      (e : Entry E) (es : List (Entry E))
      → All (λ x. x.id ≢ e.id) es
      → erase_event e.timeout e.id (emplace_event e es) ≡ es
  unfolding erase_event emplace_event
  erase-emplace_event e [] f = ground arith
  erase-emplace_event e (x ∷ xs) f = ground (arith, erase-emplace_event e xs f.1)

  erase_event-absent :
      (t i : ℕ) (es : List (Entry E)) → All (λ x. x.id ≢ i) es → erase_event t i es ≡ es
  unfolding erase_event
  erase_event-absent t i [] f = refl
  erase_event-absent t i (x ∷ xs) f = ground (arith, erase_event-absent t i xs f.1)

  erase_event-miss :
      (t : ℕ) (e : Entry E) (es : List (Entry E))
      → All (λ x. x.id ≢ e.id) es
      → t ≢ e.timeout
      → erase_event t e.id (emplace_event e es) ≡ emplace_event e es
  unfolding erase_event emplace_event
  erase_event-miss t e [] f h = ground arith
  erase_event-miss t e (x ∷ xs) f h =
      ground (arith, erase_event-miss t e xs f.1 h, erase_event-absent t e.id xs f.1)

  pub remove_timer-found :
      (id : ℕ) (t : Timer E) (q : TimerQueue E)
      → find_timer id q.timers ≡ some t
      → remove_timer id q ≡ record q {
        events = erase_event (q.next_timeout id) id q.events;
        timers = erase_timer id q.timers;
      }
  unfolding remove_timer
  remove_timer-found id t q h = rw (h, remove_timer) refl

  -- The time that the timer keeps, against the key under which AddTimer put it.
  erase_key :
      (id now : ℕ) (event : E) (ms : ℕ) (next : ℕ → ℕ) (es : List (Entry E))
      → All (λ e. e.id ≢ id) es
      → let t = make_timer event ms in
        let e : Entry E = record { timeout = now + ms; id = id; timer = t } in
        let added = emplace_event e es in
        erase_event (set_next_timeout id t now next id) id added ≡ (if ms == 0 then added else es)
  unfolding make_timer set_next_timeout
  erase_key id now event ms next es f = elim (Bool-cases (ms == 0)) [
    | inl z ↦
        let zero' = ==→eq ms 0 z in
        rw (==_refl id, z) (erase_event-miss (now + 1) _ es f (omega arith))
    | inr nz ↦ rw (==_refl id, nz) (erase-emplace_event _ es f)
  ]

  -- RemoveTimer on a timer that AddTimer has just made, under an id that nothing else has, gives back
  -- the timers as they were. It takes the event out too exactly when the period is not 0: then
  -- the timer's own next timeout is one millisecond behind the key in `events_`, and the event
  -- stays.
  pub remove_timer-add_timer :
      (now : ℕ) (event : E) (ms : ℕ) (q : TimerQueue E)
      → IsFresh ((q.last_timer_id + 1) % 2 ^ 32) q
      → let (q', id) = add_timer now event ms q in
        let q'' = remove_timer id q' in
        (q''.timers ≡ q.timers) × (q''.events ≡ (if ms == 0 then q'.events else q.events))
  unfolding add_timer remove_timer
  remove_timer-add_timer now event ms q fresh =
      let id = (q.last_timer_id + 1) % 2 ^ 32 in
      let t = make_timer event ms in
      let x = erase-emplace_timer id t q.timers fresh.0 in
      let r = remove_timer-found id t (add_timer now event ms q).0 x.1 in
      (
        ap (λ w. w.timers) r ∙ x.0,
        ap (λ w. w.events) r ∙ erase_key id now event ms q.next_timeout q.events fresh.1,
      )

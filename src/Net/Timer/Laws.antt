-- ===== src/Net/Timer/Laws.antt =====
-- The order of the events of src/net/Timer.cpp, and what a call of HandleTimerEvent leaves.
use stream_sight.Base.{
  ℕ, ◌≤◌, ◌<◌, ◌≡◌, ◌≢◌, refl, ap, ◌⊎◌, inl, inr, Bool, true, List, [], ◌∷◌, ◌++◌, leb, All, arith,
  Bool-cases,
}
use stream_sight.Net.Timer.{
  Entry, TimerQueue, before, erase_timer, emplace_event, expired, pending, reschedule, invoke,
  handle_timer_event,
}

pub List-cases {ℓ} : {A : Type ℓ} (l : List A) → (l ≡ []) ⊎ ((x : A) × (xs : List A) × (l ≡ x ∷ xs))
List-cases [] = inl refl
List-cases (x ∷ xs) = inr (x, xs, refl)

module _ {E : Type 0} where
  -- The keys rise along the list and lie above (t, i).
  abbrev pub Above : ℕ → ℕ → List (Entry E) → Type 0
  Above t i [] = Unit {0}
  Above t i (e ∷ es) = (before t i e.timeout e.id ≡ true) × Above e.timeout e.id es

  abbrev pub IsSorted : List (Entry E) → Type 0
  IsSorted [] = Unit {0}
  IsSorted (e ∷ es) = Above e.timeout e.id es

  emplace_event-Above :
      (t i : ℕ) (e : Entry E) (es : List (Entry E))
      → Above t i es
      → before t i e.timeout e.id ≡ true
      → Above t i (emplace_event e es)
  unfolding emplace_event
  emplace_event-Above t i e [] a b = (b, tt)
  emplace_event-Above t i e (x ∷ xs) a b =
      ground (arith, emplace_event-Above x.timeout x.id e xs a.1)

  pub emplace_event-IsSorted :
      (e : Entry E) (es : List (Entry E)) → IsSorted es → IsSorted (emplace_event e es)
  unfolding emplace_event
  emplace_event-IsSorted e [] s = tt
  emplace_event-IsSorted e (x ∷ xs) s = ground (arith, emplace_event-Above x.timeout x.id e xs s)

  Above-le : (t i : ℕ) (es : List (Entry E)) → Above t i es → All (λ e. t ≤ e.timeout) es
  Above-le t i [] a = tt
  Above-le t i (e ∷ es) a = (ground arith, weaken es (Above-le e.timeout e.id es a.1))
    where
      weaken :
          (xs : List (Entry E)) → All (λ x. e.timeout ≤ x.timeout) xs → All (λ x. t ≤ x.timeout) xs
      weaken [] h = tt
      weaken (x ∷ xs) h = (ground arith, weaken xs h.1)

  IsSorted-tail : (e : Entry E) (es : List (Entry E)) → IsSorted (e ∷ es) → IsSorted es
  IsSorted-tail e [] s = tt
  IsSorted-tail e (x ∷ xs) s = s.1

  abbrev pub IsDue : ℕ → Entry E → Type 0
  IsDue now e = e.timeout ≤ now

  abbrev pub IsLater : ℕ → Entry E → Type 0
  IsLater now e = now < e.timeout

  All-IsLater :
      (now : ℕ) (t : ℕ) (es : List (Entry E))
      → now < t
      → All (λ e. t ≤ e.timeout) es
      → All (IsLater now) es
  All-IsLater now t [] h a = tt
  All-IsLater now t (e ∷ es) h a = (omega arith, All-IsLater now t es h a.1)

  -- The first loop of HandleTimerEvent takes exactly the events that are due, in the order of their
  -- times, and leaves the others, in order.
  expired_lem :
      (now : ℕ) (es : List (Entry E))
      → IsSorted es
      → (expired now es ++ pending now es ≡ es)
        × All (IsDue now) (expired now es)
        × All (IsLater now) (pending now es)
        × IsSorted (pending now es)
  unfolding expired pending
  expired_lem now [] s = (refl, tt, tt, tt)
  expired_lem now (e ∷ es) s = elim (Bool-cases (leb e.timeout now)) [
    | inl due ↦
        let ih = expired_lem now es (IsSorted-tail e es s) in
        rw due (ap (λ l. e ∷ l) ih.0, (ground arith, ih.1), ih.2, ih.3)
    | inr later ↦
        let lt : now < e.timeout = ground arith in
        rw later (refl, tt, (lt, All-IsLater now e.timeout es lt (Above-le e.timeout e.id es s)), s)
  ]

  All-emplace_event :
      (now : ℕ) (e : Entry E) (es : List (Entry E))
      → now < e.timeout
      → All (IsLater now) es
      → All (IsLater now) (emplace_event e es)
  unfolding emplace_event
  All-emplace_event now e [] h a = (h, tt)
  All-emplace_event now e (x ∷ xs) h a = ground (arith, All-emplace_event now e xs h a.1)

  -- Put back at `later`, a timer with a positive interval is not due at `now ≤ later`.
  reschedule-IsLater :
      (now later : ℕ) (again : List (Entry E)) (q : TimerQueue E)
      → now ≤ later
      → All (λ e. 0 < e.timer.interval) again
      → All (IsLater now) q.events
      → IsSorted q.events
      → All (IsLater now) (reschedule later again q).events
        × IsSorted (reschedule later again q).events
  unfolding reschedule
  reschedule-IsLater now later [] q h p a s = (a, s)
  reschedule-IsLater now later (e ∷ es) q h p a s =
      reschedule-IsLater now later es _ h p.1 (All-emplace_event now _ q.events (omega arith) a)
        (emplace_event-IsSorted _ q.events s)

  -- The constructor of Timer makes every interval positive.
  abbrev pub IsPaced : Entry E → Type 0
  IsPaced e = 0 < e.timer.interval

  All-append : (xs ys : List (Entry E)) → All IsPaced xs → All IsPaced ys → All IsPaced (xs ++ ys)
  All-append [] ys a b = b
  All-append (x ∷ xs) ys a b = (a.0, All-append xs ys a.1 b)

  All-expired : (now : ℕ) (es : List (Entry E)) → All IsPaced es → All IsPaced (expired now es)
  unfolding expired
  All-expired now [] a = tt
  All-expired now (e ∷ es) a = ground (arith, All-expired now es a.1)

  module _ (repeats : E → Bool) where
    -- Callbacks that leave the queue alone.
    abbrev pub quiet : E → TimerQueue E → TimerQueue E × Bool
    quiet e q = (q, repeats e)

    invoke-quiet :
        (es again : List (Entry E)) (q : TimerQueue E)
        → All IsPaced es
        → All IsPaced again
        → ((invoke quiet es again q).0.events ≡ q.events) × All IsPaced (invoke quiet es again q).1
    unfolding invoke
    invoke-quiet [] again q a b = (refl, b)
    invoke-quiet (e ∷ es) again q a b = elim (Bool-cases (repeats e.timer.event_callback)) [
      | inl yes' ↦
          rw (yes', invoke)
            (invoke-quiet es (again ++ (e ∷ [])) q a.1 (All-append again (e ∷ []) b (a.0, tt)))
      | inr no' ↦
          rw (no', invoke)
            (invoke-quiet es again (record q { timers = erase_timer e.id q.timers }) a.1 b)
    ]

    -- HandleTimerEvent leaves no event that was due when it began: with events in order, positive intervals,
    -- at least one timer, and callbacks that leave the queue alone, every event that is left or put
    -- back lies behind the time at which the call began, and the events are in order.
    pub handle_timer_event_lem :
        (now later : ℕ) (q : TimerQueue E)
        → q.timers ≢ []
        → IsSorted q.events
        → All IsPaced q.events
        → now ≤ later
        → let q' = handle_timer_event quiet now later q in
          All (IsLater now) q'.events × IsSorted q'.events
    unfolding handle_timer_event
    handle_timer_event_lem now later q some_timer s p h = elim (List-cases q.timers) [
      | inl empty ↦ absurd (some_timer empty)
      | inr (t, ts, e) ↦
          let x = expired_lem now q.events s in
          let i =
            invoke-quiet (expired now q.events) [] (record q { events = pending now q.events })
              (All-expired now q.events p) tt in
          rw (e, handle_timer_event)
            (reschedule-IsLater now later _ _ h i.1 (rw i.0 x.2) (rw i.0 x.3))
    ]

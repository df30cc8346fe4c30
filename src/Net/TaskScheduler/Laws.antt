-- ===== src/Net/TaskScheduler/Laws.antt =====
-- The trigger events of src/net/TaskScheduler.cpp run in the order in which they were added.
use stream_sight.Base.{
  inl, inr, ℕ, zero, suc, ◌+◌, ◌<◌, ◌≡◌, refl, sym, ap, ◌∙◌, Bool, true, false, ltb→lt,
  ltb-false→le, lt→ltb, if-elim, ◌⊎◌, none, some, List, [], ◌∷◌, ◌++◌, if-true, if-false, ltb,
  length, arith,
}
use stream_sight.Net.RingBuffer.{RingBuffer, push, pop}
use stream_sight.Net.RingBuffer.Queue
use stream_sight.Net.RingBuffer.Inv.{IsValid}
use stream_sight.Net.RingBuffer.Refine.{contents, length-contents, pop_refines, push_refines}
use stream_sight.Net.TaskScheduler.{
  TaskScheduler, max_trigger_events, add_trigger_event, run_one, handle_trigger_event,
}

module _ {A S : Type 0} (d : A) (act : A → S → S) where
  -- Callbacks that add no trigger event.
  abbrev pub acting : A → S × TaskScheduler A → S × TaskScheduler A
  acting e w = (act e w.0, w.1)

  -- The callbacks of a list of events, one after the other.
  unfoldable pub act_all : List A → S → S
  act_all [] s = s
  act_all (e ∷ es) s = act_all es (act e s)

  run_pop :
      (s : S) (t : TaskScheduler A) (events : RingBuffer A) (e : A)
      → pop d t.trigger_events ≡ (events, some e)
      → run_one d acting (s, t) ≡ (act e s, record t { trigger_events = events })
  unfolding run_one
  run_pop s t events e h =
      ap
        (λ p. elim p.1 as (λ x. S × TaskScheduler A) [
          | none ↦ (s, record t { trigger_events = p.0 })
          | some k ↦ acting k (s, record t { trigger_events = p.0 })
        ])
        h

  -- The first round.
  first_round :
      (es : List A) (e : A) (s : S) (t : TaskScheduler A)
      → IsValid t.trigger_events
      → contents d t.trigger_events ≡ e ∷ es
      → let t1 = record t { trigger_events = (pop d t.trigger_events).0 } in
        (run_one d acting (s, t) ≡ (act e s, t1))
        × IsValid t1.trigger_events
        × (contents d t1.trigger_events ≡ es)
        × (t1.trigger_events.num_datas ≡ length es)
  unfolding Queue.pop
  first_round es e s t v h =
      let p = pop_refines d v in
      let q = p.1 ∙ ap Queue.pop h in
      let events = (pop d t.trigger_events).0 in
      let popped : pop d t.trigger_events ≡ (events, some e) = λ i. (events, (ap (λ w. w.1) q) i) in
      let left : contents d events ≡ es = ap (λ w. w.0) q in
      (run_pop s t events e popped, p.0, left, sym (length-contents d events) ∙ ap length left)

  -- HandleTriggerEvent runs every event that waits, once and in the order in which they were added, and
  -- leaves none: for a consistent buffer with at least one event, callbacks that add no event, and
  -- fuel for the events.
  pub handle_trigger_event_lem :
      (es : List A) (e : A) (fuel : ℕ) (s : S) (t : TaskScheduler A)
      → IsValid t.trigger_events
      → contents d t.trigger_events ≡ e ∷ es
      → length es < fuel
      → (t' : TaskScheduler A) × (handle_trigger_event d acting fuel (s, t)
          ≡ some (act_all (e ∷ es) s, t'))
        × IsValid t'.trigger_events
        × (contents d t'.trigger_events ≡ [])
        × (t'.wakeups ≡ t.wakeups)
  unfolding handle_trigger_event act_all
  handle_trigger_event_lem [] e zero s t v h f = absurd (omega arith)
  handle_trigger_event_lem (x ∷ xs) e zero s t v h f = absurd (omega arith)
  handle_trigger_event_lem [] e (suc fuel) s t v h f =
      let t1 : TaskScheduler A = record t { trigger_events = (pop d t.trigger_events).0 } in
      let (r, v1, left, n) = first_round [] e s t v h in
      let next = run_one d acting (s, t) in
      let test = ap (λ w. ltb 0 w.1.trigger_events.num_datas) r ∙ ap (ltb 0) n in
      (
        t1,
        if-false (ltb 0 next.1.trigger_events.num_datas) _ (some next) test ∙ ap some r,
        v1,
        left,
        refl,
      )
  handle_trigger_event_lem (x ∷ xs) e (suc fuel) s t v h f =
      let t1 : TaskScheduler A = record t { trigger_events = (pop d t.trigger_events).0 } in
      let (r, v1, left, n) = first_round (x ∷ xs) e s t v h in
      let next = run_one d acting (s, t) in
      let more : ltb 0 t1.trigger_events.num_datas ≡ true = lt→ltb 0 _ (omega (arith, n)) in
      let test = ap (λ w. ltb 0 w.1.trigger_events.num_datas) r ∙ more in
      let ih = handle_trigger_event_lem xs x fuel (act e s) t1 v1 left (omega arith) in
      (
        ih.0,
        if-true (ltb 0 next.1.trigger_events.num_datas) (handle_trigger_event d acting fuel next) _
              test
            ∙ ap (handle_trigger_event d acting fuel) r
            ∙ ih.1,
        ih.2,
        ih.3,
        ih.4,
      )

module _ {A : Type 0} (d : A) where
  -- AddTriggerEvent on a consistent buffer of the scheduler's capacity puts the event behind those that wait,
  -- answers true and wakes the scheduler; or, when 50000 events wait, it changes nothing and answers
  -- false.
  pub add_trigger_event_lem :
      (e : A) (t : TaskScheduler A)
      → IsValid t.trigger_events
      → t.trigger_events.capacity ≡ max_trigger_events
      → let (t', added) = add_trigger_event e t in
        IsValid t'.trigger_events
        × (((added ≡ true)
              × (contents d t'.trigger_events ≡ contents d t.trigger_events ++ (e ∷ []))
              × (t'.wakeups ≡ t.wakeups + 1))
            ⊎ ((added ≡ false) × (t' ≡ t) × (t.trigger_events.num_datas ≡ 50000)))
  unfolding add_trigger_event Queue.push
  add_trigger_event_lem e t v full =
      let p = push_refines d e v in
      let l = length-contents d t.trigger_events in
      let added : TaskScheduler A = record t {
        trigger_events = (push t.trigger_events e).0;
        wakeups = t.wakeups + 1;
      } in
      if-elim
        (λ (w : TaskScheduler A × Bool).
          IsValid w.0.trigger_events
          × (((w.1 ≡ true)
                × (contents d w.0.trigger_events ≡ contents d t.trigger_events ++ (e ∷ []))
                × (w.0.wakeups ≡ t.wakeups + 1))
              ⊎ ((w.1 ≡ false) × (w.0 ≡ t) × (t.trigger_events.num_datas ≡ 50000))))
        (ltb t.trigger_events.num_datas max_trigger_events) (added, true) (t, false)
        (λ room.
          let lt = ltb→lt t.trigger_events.num_datas max_trigger_events room in
          let test =
            lt→ltb (length (contents d t.trigger_events)) t.trigger_events.capacity
              (omega (arith, l, full)) in
          (
            p.0,
            inl (
              refl,
              ap (λ w. w.0)
                  (p.1
                    ∙ if-true (ltb (length (contents d t.trigger_events)) t.trigger_events.capacity)
                        _ _ test),
              refl,
            ),
          ))
        (λ crowded.
          let ge = ltb-false→le t.trigger_events.num_datas max_trigger_events crowded in
          (v, inr (refl, refl, omega (arith, full, v.within))))

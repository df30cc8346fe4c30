-- ===== src/Ffmpeg/Pacer.antt =====
-- src/ffmpeg/Pacer.h and src/observe/PithyPrint.h. The steady clock, in microseconds and positive, is an
-- argument; Wait returns for how long it sleeps.
use stream_sight.Base.{
  ℕ, ◌+◌, ◌-◌, ◌/◌, ◌≤◌, ◌<◌, ◌≡◌, Bool, true, false, if◌then◌else◌, ltb, leb, ◌==◌, arith,
}

-- A negative `fps` counts as 0.
pub record Pacer : Type 0 where
  pub fps : ℕ
  pub next_us : ℕ

unfoldable pub set_fps : ℕ → Pacer → Pacer
set_fps fps p = record { fps = fps; next_us = 0 }

unfoldable pub reset : Pacer → Pacer
reset p = record p { next_us = 0 }

abbrev pub interval : Pacer → ℕ
interval p = 1000000 / p.fps

-- `next_us_` after the test for the first call.
abbrev pub slot : ℕ → Pacer → ℕ
slot now p = if p.next_us == 0 then now + interval p else p.next_us

unfoldable pub wait : ℕ → Pacer → Pacer × ℕ
wait now p =
    if p.fps == 0
    then (p, 0)
    else if ltb now (slot now p)
    then (record p { next_us = slot now p + interval p }, slot now p - now)
    else (record p { next_us = now + interval p }, 0)

pub record PithyPrint : Type 0 where
  pub interval_us : ℕ
  pub last_log_us : ℕ

-- `now - last_log_us_ >= interval_us_`
unfoldable pub should_log : ℕ → PithyPrint → PithyPrint × Bool
should_log now p =
    if leb (p.last_log_us + p.interval_us) now
    then (record p { last_log_us = now }, true)
    else (p, false)

-- Where a call lets its frame go, the next slot is an interval later.
wait-next :
    (now : ℕ) (p : Pacer)
    → 0 < now
    → 0 < p.fps
    → let (p', sleep) = wait now p in (p'.next_us ≡ now + sleep + interval p) × (p'.fps ≡ p.fps)
unfolding wait
wait-next now p h k = ground arith

wait-reaches : (now : ℕ) (p : Pacer) → 0 < p.fps → p.next_us ≤ now + (wait now p).1
unfolding wait
wait-reaches now p k = ground arith

-- Frames leave at most at the rate that was set: a frame that asks at `now` is let go at `now` and the sleep
-- that Wait demands; if the next one asks then or later, it is let go at least an interval after
-- that. The rate is positive and the clock runs.
pub wait-wait :
    (now later : ℕ) (p : Pacer)
    → 0 < now
    → 0 < p.fps
    → now + (wait now p).1 ≤ later
    → now + (wait now p).1 + 1000000 / p.fps ≤ later + (wait later (wait now p).0).1
wait-wait now later p h k order =
    let (next, same) = wait-next now p h k in
    let reaches = wait-reaches later (wait now p).0 (rw same k) in
    omega (arith, next, reaches, order)

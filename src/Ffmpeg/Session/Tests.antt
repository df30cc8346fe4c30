-- ===== src/Ffmpeg/Session/Tests.antt =====
-- The theorems on the serial runner at inputs that exercise the code.
use stream_sight.Base.{
  ℕ, ◌||◌, ◌+◌, ◌≤◌, ◌≡◌, refl, Bool, true, false, [], if◌then◌else◌, leb, ◌==◌, arith,
}
use stream_sight.Ffmpeg.Session.{
  Config, Runner, World, wait_for_clients, reconnect, run_loop, run_serial,
}
use stream_sight.Ffmpeg.Session.Laws.{
  IsReconnect, IsEnded, IsForward, reconnect_lem, run_serial-IsEnded,
}
use stream_sight.Ffmpeg.Session.Watched.{IsWatched, run_loop-IsWatched}

abbrev gated : Config
gated = record { enable_client_gating = true; reconnect_on_eof = true; max_reconnect = 3 }

-- A client is there from 5 on; the read at 7 fails, and so does Open at 9; Stop comes at 20.
abbrev world : World
world = record {
  stop = λ t. leb 20 t;
  clients = λ t. leb 5 t;
  wakes = λ t. t + 2;
  opens = λ t. not_third t;
  reads = λ t. not_fourth t;
  rounds = 20;
}
  where
    not_third : ℕ → Bool
    not_third t = if t == 9 then false else true

    not_fourth : ℕ → Bool
    not_fourth t = if t == 7 then false else true

abbrev idle : Runner
idle = record { time = 0; is_open = false; running = true; attempts = 0; frames = [] }

forward : IsForward gated world
forward t = omega arith

stops : (t : ℕ) → 20 ≤ t → world.stop t ≡ true
stops t h = ground arith

reconnect_lem_example : IsReconnect gated world 3 idle (reconnect gated world 3 idle)
reconnect_lem_example = reconnect_lem gated world forward 3 idle refl

run_serial-IsEnded_example :
    IsEnded gated world (run_serial gated world 20 idle)
    × ((t : ℕ)
        → world.clients (wait_for_clients gated world 20 t)
            || world.stop (wait_for_clients gated world 20 t)
          ≡ true)
run_serial-IsEnded_example =
    run_serial-IsEnded gated world forward 20 stops (omega arith) 20 idle (omega arith)
      (omega arith)

run_loop-IsWatched_example :
    IsWatched gated world (run_loop gated world 21 (record idle { is_open = true }))
run_loop-IsWatched_example =
    run_loop-IsWatched gated world refl forward 20 stops (omega arith) 21
      (record idle { is_open = true }) tt (omega arith) (omega arith)

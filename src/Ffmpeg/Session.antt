-- ===== src/Ffmpeg/Session.antt =====
-- src/ffmpeg/StreamSession.h and StreamSession.cpp: the serial runner of a stream, that reads frame after
-- frame, reconnects, and waits while nobody watches. Other threads and the media library enter by what
-- a read answers at a time: the time goes up by one with each call that may take long, and each such
-- call comes back. FFmpegStreamer is its two answers and whether it is open.
mod Tests
pub mod Laws
pub mod Watched
use stream_sight.Base.{
  ℕ, zero, suc, ◌+◌, ◌≤◌, Bool, true, false, not, ◌||◌, Option, none, some, List, [], ◌∷◌,
  if◌then◌else◌,
}

pub record Config : Type 0 where
  pub enable_client_gating : Bool
  pub reconnect_on_eof : Bool
  pub max_reconnect : ℕ

-- `frames` holds the times at which a frame was processed, the last one first; `frame_count_` is their
-- number. `attempts` counts the calls of Open.
pub record Runner : Type 0 where
  pub time : ℕ
  pub is_open : Bool
  pub running : Bool
  pub attempts : ℕ
  pub frames : List ℕ

-- What other threads do, by the time: `stop` is `stop_`, `clients` is `client_count_ > 0`, and `wakes` the time
-- at which a thread that waits on `client_cv_` from some time on is woken. `opens` and `reads` are what Open and
-- ProcessNextFrame answer. `rounds` is the fuel of WaitForClients.
pub record World : Type 0 where
  pub stop : ℕ → Bool
  pub clients : ℕ → Bool
  pub wakes : ℕ → ℕ
  pub opens : ℕ → Bool
  pub reads : ℕ → Bool
  pub rounds : ℕ

module _ (cfg : Config) (w : World) where
  -- WaitForClients, and the time at which it comes back: the predicate is tested first and at each wake-up.
  unfoldable pub wait_for_clients : ℕ → ℕ → ℕ
  wait_for_clients zero t = t
  wait_for_clients (suc left) t =
      let later = wait_for_clients left (w.wakes t) in if w.clients t || w.stop t then t else later

  -- `if (cfg_.enable_client_gating) WaitForClients();`
  unfoldable pub gate : ℕ → ℕ
  gate t = if cfg.enable_client_gating then wait_for_clients w.rounds t else t

  -- `streamer.Open()`
  unfoldable pub try_open : Runner → Runner
  try_open r = record r { time = r.time + 1; is_open = w.opens r.time; attempts = r.attempts + 1 }

  -- The loop of the reconnect attempts, with `left` to go; each sleeps first.
  unfoldable pub reconnect : ℕ → Runner → Runner × Bool
  reconnect zero r = (r, false)
  reconnect (suc left) r =
      let t = gate (r.time + 1) in
      let r' = try_open (record r { time = t }) in
      let next = reconnect left r' in
      if w.stop r.time
      then (r, false)
      else if w.stop t
      then (record r { time = t }, false)
      else if w.opens t
      then (r', true)
      else next

  -- `streamer.Close(); running_ = false;`
  unfoldable pub finish : Runner → Runner
  finish r = record r { is_open = false; running = false }

  -- The main loop, on fuel.
  unfoldable pub run_loop : ℕ → Runner → Option Runner
  run_loop zero r = none
  run_loop (suc fuel) r =
      let t = gate r.time in
      let at = record r { time = t } in
      let (again, reconnected) =
        reconnect cfg.max_reconnect (record r { time = t + 1; is_open = false }) in
      let processed = run_loop fuel (record r { time = t + 1; frames = t ∷ r.frames }) in
      let resumed = run_loop fuel again in
      if w.stop r.time
      then some (finish r)
      else if w.stop t
      then some (finish at)
      else if not r.is_open
      then some (finish at)
      else if w.reads t
      then processed
      else if not cfg.reconnect_on_eof
      then some (finish (record at { time = t + 1 }))
      else if reconnected
      then resumed
      else some (finish again)

  -- RunSerial. When the first Open fails, the streamer is not closed again.
  unfoldable pub run_serial : ℕ → Runner → Option Runner
  run_serial fuel r =
      let opened = try_open r in
      let loop = run_loop fuel opened in
      if w.opens r.time then loop else some (record opened { running = false })

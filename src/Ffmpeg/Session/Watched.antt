-- ===== src/Ffmpeg/Session/Watched.antt =====
-- The serial runner of src/ffmpeg/StreamSession.cpp reads only while it is watched.
use stream_sight.Base.{
  ℕ, zero, suc, ◌+◌, ◌≤◌, ◌<◌, ◌≡◌, refl, sym, ap, ◌∙◌, Bool, true, false, false≢true, not, ◌||◌,
  if-elim, if-true, subst, Option, some, ◌∷◌, All, arith,
}
use stream_sight.Ffmpeg.Session.{
  Config, Runner, World, gate, wait_for_clients, reconnect, finish, run_loop,
}
use stream_sight.Ffmpeg.Session.Laws.{
  IsForward, IsStopped, gate_le, early, wait_for_clients_ready, reconnect_lem,
}

module _ (cfg : Config) (w : World) where
  -- The runner has ended, and the client count was positive at each time at which a frame was processed.
  pub record IsWatched (o : Option Runner) : Type 0 where
    pub last : Runner
    pub ends : o ≡ some last
    pub seen : All (λ t. w.clients t ≡ true) last.frames

  gate_ready :
      cfg.enable_client_gating ≡ true
      → IsForward cfg w
      → (T : ℕ) → IsStopped cfg w T
      → T ≤ w.rounds
      → (t : ℕ) → w.stop (gate cfg w t) ≡ false
      → w.clients (gate cfg w t) ≡ true
  unfolding gate
  gate_ready on f T stops enough t going =
      let r = wait_for_clients_ready cfg w f T stops w.rounds t (omega (arith, enough)) in
      let same : gate cfg w t ≡ wait_for_clients cfg w w.rounds t =
        if-true cfg.enable_client_gating _ t on in
      clients_or (w.clients (gate cfg w t)) (ap (λ k. w.clients k || w.stop k) same ∙ r) going
    where
      clients_or : (c : Bool) {s : Bool} → c || s ≡ true → s ≡ false → c ≡ true
      clients_or true h k = refl
      clients_or false h k = absurd (false≢true (sym k ∙ h))

  ended : (r : Runner) → All (λ t. w.clients t ≡ true) r.frames → IsWatched (some (finish cfg w r))
  unfolding finish
  ended r h = record { last = finish cfg w r; ends = refl; seen = h }

  -- With client gating, the main loop comes to an end and has processed frames only at times at which
  -- `client_count_` was positive: if it is so before, the session is stopped from `T` on, the fuel of the
  -- loop lasts beyond that and the fuel of WaitForClients until then, and a wake-up comes after the
  -- wait began.
  pub run_loop-IsWatched :
      cfg.enable_client_gating ≡ true
      → IsForward cfg w
      → (T : ℕ) → IsStopped cfg w T
      → T ≤ w.rounds
      → (fuel : ℕ) (r : Runner) → All (λ t. w.clients t ≡ true) r.frames
      → 0 < fuel
      → T < r.time + fuel
      → IsWatched (run_loop cfg w fuel r)
  unfolding run_loop
  run_loop-IsWatched on f T stops rounds zero r h some_fuel enough =
      absurd (omega (arith, some_fuel))
  run_loop-IsWatched on f T stops rounds (suc fuel) r h some_fuel enough =
      let t = gate cfg w r.time in
      let later = gate_le cfg w f r.time in
      let at : Runner = record r { time = t } in
      let failed : Runner = record r { time = t + 1; is_open = false } in
      let pair = reconnect cfg w cfg.max_reconnect failed in
      let again = reconnect_lem cfg w f cfg.max_reconnect failed refl in
      let same = subst (All (λ k. w.clients k ≡ true)) (sym again.3) h in
      let processed : Runner = record r { time = t + 1; frames = t ∷ r.frames } in
      let P = IsWatched in
      if-elim P (w.stop r.time) (some (finish cfg w r)) _ (λ e. ended r h)
        (λ a.
          let fuel_left = early cfg w T stops r.time a in
          if-elim P (w.stop t) (some (finish cfg w at)) _ (λ e. ended at h)
            (λ b.
              if-elim P (not r.is_open) (some (finish cfg w at)) _ (λ e. ended at h)
                (λ c.
                  if-elim P (w.reads t) (run_loop cfg w fuel processed) _
                    (λ e.
                      run_loop-IsWatched on f T stops rounds fuel processed
                        (gate_ready on f T stops rounds r.time b, h)
                        (omega (arith, fuel_left, enough)) (omega (arith, later, enough)))
                    (λ d.
                      if-elim P (not cfg.reconnect_on_eof)
                        (some (finish cfg w (record at { time = t + 1 }))) _
                        (λ g. ended (record at { time = t + 1 }) h)
                        (λ g.
                          if-elim P pair.1 (run_loop cfg w fuel pair.0) (some (finish cfg w pair.0))
                            (λ e.
                              run_loop-IsWatched on f T stops rounds fuel pair.0 same
                                (omega (arith, fuel_left, enough))
                                (omega (arith, later, again.4, enough)))
                            (λ e. ended pair.0 same))))))

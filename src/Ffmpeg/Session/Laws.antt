-- ===== src/Ffmpeg/Session/Laws.antt =====
-- The serial runner of src/ffmpeg/StreamSession.cpp comes to an end and closes.
use stream_sight.Base.{
  inl, inr, ◌⊎◌, ℕ, zero, suc, ◌+◌, ◌≤◌, ◌<◌, ◌≡◌, refl, sym, ◌∙◌, Bool, true, false, false≢true,
  not, ◌||◌, if-elim, ltb, ltb→lt, ltb-false→le, Bool-cases, Option, some, ◌∷◌, arith,
}
use stream_sight.Ffmpeg.Session.{
  Config, Runner, World, gate, wait_for_clients, try_open, reconnect, finish, run_loop, run_serial,
}

module _ (cfg : Config) (w : World) where
  -- A wake-up comes after the wait began.
  abbrev pub IsForward : Type 0
  IsForward = (t : ℕ) → t < w.wakes t

  -- The session is stopped from `T` on.
  abbrev pub IsStopped : ℕ → Type 0
  IsStopped T = (t : ℕ) → T ≤ t → w.stop t ≡ true

  wait_for_clients_le : IsForward → (left t : ℕ) → t ≤ wait_for_clients cfg w left t
  unfolding wait_for_clients
  wait_for_clients_le f zero t = omega arith
  wait_for_clients_le f (suc left) t =
      if-elim (λ k. t ≤ k) (w.clients t || w.stop t) t _ (λ ready. omega arith)
        (λ blocked. omega (arith, f t, wait_for_clients_le f left (w.wakes t)))

  -- WaitForClients comes back with a client or after a stop, when its fuel lasts until the stop.
  pub wait_for_clients_ready :
      IsForward
      → (T : ℕ) → IsStopped T
      → (left t : ℕ) → T ≤ t + left
      → w.clients (wait_for_clients cfg w left t) || w.stop (wait_for_clients cfg w left t) ≡ true
  unfolding wait_for_clients
  wait_for_clients_ready f T stops zero t enough = elim (Bool-cases (w.clients t)) [
    | inl there ↦ rw there refl
    | inr nobody ↦ rw nobody (stops t (omega (arith, enough)))
  ]
  wait_for_clients_ready f T stops (suc left) t enough =
      if-elim (λ k. w.clients k || w.stop k ≡ true) (w.clients t || w.stop t) t _ (λ ready. ready)
        (λ blocked. wait_for_clients_ready f T stops left (w.wakes t) (omega (arith, f t, enough)))

  pub gate_le : IsForward → (t : ℕ) → t ≤ gate cfg w t
  unfolding gate
  gate_le f t =
      if-elim (λ k. t ≤ k) cfg.enable_client_gating _ t (λ on. wait_for_clients_le f w.rounds t)
        (λ off. omega arith)

  abbrev pub IsReconnect : ℕ → Runner → Runner × Bool → Type 0
  IsReconnect left r answer =
      (answer.0.attempts ≤ r.attempts + left)
      × (answer.0.is_open ≡ answer.1)
      × ((answer.1 ≡ true)
          ⊎ ((w.stop answer.0.time ≡ true) ⊎ (answer.0.attempts ≡ r.attempts + left)))
      × (answer.0.frames ≡ r.frames)
      × (r.time ≤ answer.0.time)

  -- What a round of reconnecting does, where a wake-up comes after the wait began: no more attempts than are left;
  -- afterwards the streamer is open, or the session was stopped, or every attempt was made; and no
  -- frame is processed.
  pub reconnect_lem :
      IsForward
      → (left : ℕ) (r : Runner) → r.is_open ≡ false
      → IsReconnect left r (reconnect cfg w left r)
  unfolding reconnect try_open
  reconnect_lem f zero r closed = (omega arith, closed, inr (inr (omega arith)), refl, omega arith)
  reconnect_lem f (suc left) r closed =
      let t = gate cfg w (r.time + 1) in
      let later = gate_le f (r.time + 1) in
      let r' : Runner = try_open cfg w (record r { time = t }) in
      let P = IsReconnect (suc left) r in
      if-elim P (w.stop r.time) (r, false) _
        (λ h. (omega arith, closed, inr (inl h), refl, omega arith))
        (λ go.
          if-elim P (w.stop t) (record r { time = t }, false) _
            (λ h. (omega arith, closed, inr (inl h), refl, omega arith))
            (λ on.
              if-elim P (w.opens t) (r', true) (reconnect cfg w left r')
                (λ h. (omega arith, h, inl refl, refl, omega arith))
                (λ h.
                  let ih = reconnect_lem f left r' h in
                  (
                    omega (arith, ih.0),
                    ih.1,
                    elim ih.2 [
                      | inl a ↦ inl a
                      | inr (inl b) ↦ inr (inl b)
                      | inr (inr c) ↦ inr (inr (omega (arith, c)))
                    ],
                    ih.3,
                    omega (arith, ih.4),
                  ))))

  pub early : (T : ℕ) → IsStopped T → (t : ℕ) → w.stop t ≡ false → t < T
  early T stops t going = elim (Bool-cases (ltb t T)) [
    | inl lt ↦ ltb→lt t T lt
    | inr ge ↦ absurd (false≢true (sym going ∙ stops t (ltb-false→le t T ge)))
  ]

  -- The runner has ended: closed, and not running.
  abbrev pub IsEnded : Option Runner → Type 0
  IsEnded o = (r : Runner) × (o ≡ some r) × (r.is_open ≡ false) × (r.running ≡ false)

  run_loop-IsEnded :
      IsForward
      → (T : ℕ) → IsStopped T
      → (fuel : ℕ) (r : Runner) → 0 < fuel
      → T < r.time + fuel
      → IsEnded (run_loop cfg w fuel r)
  unfolding run_loop finish
  run_loop-IsEnded f T stops zero r some_fuel enough = absurd (omega arith)
  run_loop-IsEnded f T stops (suc fuel) r some_fuel enough =
      let t = gate cfg w r.time in
      let later = gate_le f r.time in
      let at : Runner = record r { time = t } in
      let pair = reconnect cfg w cfg.max_reconnect (record r { time = t + 1; is_open = false }) in
      let again =
        reconnect_lem f cfg.max_reconnect (record r { time = t + 1; is_open = false }) refl in
      let processed : Runner = record r { time = t + 1; frames = t ∷ r.frames } in
      if-elim IsEnded (w.stop r.time) (some (finish cfg w r)) _ (λ h. (_, refl, refl, refl))
        (λ a.
          if-elim IsEnded (w.stop t) (some (finish cfg w at)) _ (λ h. (_, refl, refl, refl))
            (λ b.
              if-elim IsEnded (not r.is_open) (some (finish cfg w at)) _
                (λ h. (_, refl, refl, refl))
                (λ c.
                  if-elim IsEnded (w.reads t) (run_loop cfg w fuel processed) _
                    (λ h.
                      run_loop-IsEnded f T stops fuel processed
                        (omega (arith, early T stops r.time a)) (omega arith))
                    (λ d.
                      if-elim IsEnded (not cfg.reconnect_on_eof)
                        (some (finish cfg w (record at { time = t + 1 }))) _
                        (λ h. (_, refl, refl, refl))
                        (λ e.
                          if-elim IsEnded pair.1 (run_loop cfg w fuel pair.0)
                            (some (finish cfg w pair.0))
                            (λ h.
                              run_loop-IsEnded f T stops fuel pair.0
                                (omega (arith, early T stops r.time a)) (omega (arith, again.4)))
                            (λ h. (_, refl, refl, refl)))))))

  -- RunSerial comes to an end, if the session is stopped from some time on: fuel for the time until then and
  -- one round more ends the loop, with the session not running and the streamer closed; and fuel for that
  -- time brings each WaitForClients back with a client or after the stop. Each call of the media library
  -- comes back, and a waiting thread is woken, after its wait began.
  pub run_serial-IsEnded :
      IsForward
      → (T : ℕ) → IsStopped T
      → T ≤ w.rounds
      → (fuel : ℕ) (r : Runner) → 0 < fuel
      → T < r.time + 1 + fuel
      → IsEnded (run_serial cfg w fuel r)
        × ((t : ℕ)
            → w.clients (wait_for_clients cfg w w.rounds t)
                || w.stop (wait_for_clients cfg w w.rounds t)
              ≡ true)
  unfolding run_serial try_open
  run_serial-IsEnded f T stops rounds fuel r some_fuel enough = (
    if-elim IsEnded (w.opens r.time) (run_loop cfg w fuel (try_open cfg w r)) _
        (λ h. run_loop-IsEnded f T stops fuel (try_open cfg w r) some_fuel enough)
        (λ h. (_, refl, h, refl)),
    λ t. wait_for_clients_ready f T stops w.rounds t (omega (arith, rounds)),
  )

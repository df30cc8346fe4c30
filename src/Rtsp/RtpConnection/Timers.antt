-- ===== src/Rtsp/RtpConnection/Timers.antt =====
-- The RTCP timer of src/rtsp/RtpConnection.cpp over the scheduler's timer queue of src/net/Timer.cpp.
use stream_sight.Base.{
  ℕ, zero, suc, ◌+◌, ◌%◌, ◌^◌, ◌<◌, ◌≡◌, ◌≢◌, refl, ap, true, false, ◌==◌, ne→==_false,
  if◌then◌else◌, arith,
}
use stream_sight.Net.Timer.{add_timer, remove_timer}
use stream_sight.Net.Timer.Cancel.{IsFresh, remove_timer-add_timer}
use stream_sight.Rtsp.RtpConnection.{
  RtpConnection, MediaChannelInfo, for_channels, start_rtcp_timer, play, stop_rtcp_timer, teardown,
  rtcp_interval_ms,
}

module _ {E : Type 0} (rtcp : E) where
  -- The channels that a loop over both updates.
  for_channels-all :
      (f : MediaChannelInfo → MediaChannelInfo) (m : ℕ → MediaChannelInfo) (chn : ℕ)
      → chn < 2
      → for_channels f 2 m chn ≡ f (m chn)
  unfolding for_channels
  for_channels-all f m zero h = refl
  for_channels-all f m (suc zero) h = refl
  for_channels-all f m (suc (suc k)) h = absurd (omega arith)

  start_rtcp_timer-idle :
      (now : ℕ) (c : RtpConnection E)
      → (c.rtcp_timer_id == 0) ≡ true
      → c.connected ≡ true
      → let (timers', id) = add_timer now rtcp rtcp_interval_ms c.timers in
        start_rtcp_timer rtcp now c ≡ record c { timers = timers'; rtcp_timer_id = id }
  unfolding start_rtcp_timer
  start_rtcp_timer-idle now c idle up = rw (start_rtcp_timer, idle, up) refl

  stop_rtcp_timer-running :
      (c : RtpConnection E)
      → (c.rtcp_timer_id == 0) ≡ false
      → c.connected ≡ true
      → stop_rtcp_timer c
        ≡ record c { timers = remove_timer c.rtcp_timer_id c.timers; rtcp_timer_id = 0 }
  unfolding stop_rtcp_timer
  stop_rtcp_timer-running c running up = rw (stop_rtcp_timer, running, up) refl

  teardown-open :
      (c : RtpConnection E)
      → c.is_closed ≡ false
      → let stopped = stop_rtcp_timer (record c { is_closed = true }) in
        teardown c ≡ record stopped {
          media_channel_info =
              for_channels
                (λ m. record m { is_play = false; is_record = false })
                2
                stopped.media_channel_info;
        }
  unfolding teardown
  teardown-open c h = rw (teardown, h) refl

  -- Teardown after Play, on an open connection that has no RTCP timer yet and is connected, under a
  -- timer id that is new and not 0: the scheduler's timers and events are as before, the
  -- connection is closed and has no timer, and neither channel plays or records.
  pub teardown-play :
      (now : ℕ) (c : RtpConnection E)
      → c.is_closed ≡ false
      → c.connected ≡ true
      → c.rtcp_timer_id ≡ 0
      → let id = (c.timers.last_timer_id + 1) % 2 ^ 32 in
        id ≢ 0
        → IsFresh id c.timers
        → let c' = teardown (play rtcp now c) in
          (c'.timers.timers ≡ c.timers.timers)
          × (c'.timers.events ≡ c.timers.events)
          × (c'.is_closed ≡ true)
          × (c'.rtcp_timer_id ≡ 0)
          × ((chn : ℕ)
              → chn < 2
              → ((c'.media_channel_info chn).is_play ≡ false)
                × ((c'.media_channel_info chn).is_record ≡ false))
  unfolding play add_timer
  teardown-play now c open' up idle nonzero fresh =
      let id = (c.timers.last_timer_id + 1) % 2 ^ 32 in
      let marked : RtpConnection E = record c {
        media_channel_info =
            for_channels (λ m. if m.is_setup then record m { is_play = true } else m) 2
              c.media_channel_info;
      } in
      let s : play rtcp now c ≡ _ = start_rtcp_timer-idle now marked (rw idle refl) up in
      let started : RtpConnection E = record marked {
        timers = (add_timer now rtcp rtcp_interval_ms c.timers).0;
        rtcp_timer_id = id;
      } in
      let r : stop_rtcp_timer (record started { is_closed = true }) ≡ _ =
        stop_rtcp_timer-running (record started { is_closed = true }) (ne→==_false id 0 nonzero)
          up in
      let t = teardown-open started open' in
      let back = remove_timer-add_timer now rtcp 5000 c.timers fresh in
      let quiet =
        for_channels-all (λ m. record m { is_play = false; is_record = false })
          marked.media_channel_info in
      rw (s, t, r)
        (
          back.0,
          back.1,
          refl,
          refl,
          λ chn h. (ap (λ m. m.is_play) (quiet chn h), ap (λ m. m.is_record) (quiet chn h)),
        )

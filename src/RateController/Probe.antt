-- ===== src/RateController/Probe.antt =====
-- What a probe from the remote side does to the state of its link: `process_probe`, part by part.
pub mod Bounds
pub mod Parts
pub mod Moves
pub mod Recovery
use chainlightning.Base.{
  ◌>>=◌, ℕ, ◌+◌, ◌-◌, ◌*◌, ◌/◌, ◌%◌, ◌^◌, ◌||◌, ◌&&◌, Option, none, some, Bool, true, false, not,
  ltb, leb, ◌==◌, if◌then◌else◌, max, min, add64, sub64, mul64, add32, sat_add64,
}
use chainlightning.Floats.{Floats}
use chainlightning.Wire.Probe.{PathState, running, lossy, down, probing, ProbePacket}
use chainlightning.RateController.State.{RateControlConfig, RateState}

-- `u64::clamp`, which panics where the bounds are the wrong way round.
unfoldable pub clamp : (x low high : ℕ) → Option ℕ
clamp x low high =
    if ltb high low then none else some (if ltb x low then low else if ltb high x then high else x)

-- The rate one step nearer to the one desired.
unfoldable pub limited : (current desired_rate max_change : ℕ) → ℕ
limited current desired_rate max_change =
    if ltb current desired_rate
    then current + min (desired_rate - current) max_change
    else current - min (current - desired_rate) max_change

-- The loss of one direction, 0 to 255: what was sent and did not arrive.
unfoldable pub loss_of : (tx rx : ℕ) → ℕ
loss_of tx rx = if ltb rx tx then mul64 (tx - rx) 255 / tx % 2 ^ 8 else 0

-- The new loss and the decayed counters of one direction, once enough packets were counted.
unfoldable pub decayed : (min_packets loss tx rx : ℕ) → ℕ × ℕ × ℕ
unfolding loss_of
decayed min_packets loss tx rx =
    if ltb min_packets tx then (loss_of tx rx, tx - tx / 16, rx - rx / 16) else (loss, tx, rx)

module _ {F : Type 0} where
  -- The thresholds for LOSSY and DOWN, in 8 bits.
  unfoldable pub thresholds : RateControlConfig F → Bool → ℕ × ℕ
  thresholds c low_confidence =
      if c.tapa_enabled && low_confidence
      then (
        min (min (c.loss_threshold * c.tapa_loss_threshold_multiplier) 255) 200,
        min (c.loss_down_threshold + (255 - c.loss_down_threshold) / 2) 255,
      )
      else (c.loss_threshold, c.loss_down_threshold)

module _ (fl : Floats) where
  open fl use {F64, lit, of_u64, to_u64, add, sub, mul, div, lt, le}

  -- (alpha * new as f64 + (1.0 - alpha) * old as f64) as u64.
  unfoldable pub smooth : F64 → ℕ → ℕ → ℕ
  smooth alpha new old =
      to_u64 (add (mul alpha (of_u64 new)) (mul (sub (lit 1 1) alpha) (of_u64 old)))

  unfoldable pub apply_rate_change :
      RateControlConfig F64 → ℕ → RateState F64 → Option (RateState F64)
  unfolding limited clamp
  apply_rate_change c desired_rate s =
      let max_change = max (to_u64 (mul (of_u64 s.tx_rate) c.max_rate_change_fraction)) 12_500 in
      do
        rate ← clamp (limited s.tx_rate desired_rate max_change) s.tx_min_rate s.tx_max_rate
        some (record s { tx_rate = rate })

  -- 1. RTT measurement.
  unfoldable pub measure_rtt :
      RateControlConfig F64 → ProbePacket → ℕ → RateState F64 → RateState F64
  unfolding smooth
  measure_rtt c probe now s =
      let rtt = now - probe.echo_timestamp_us in
      let srtt = smooth c.rtt_ewma_alpha rtt s.srtt_us in
      let diff = if ltb srtt rtt then rtt - srtt else srtt - rtt in
      if ltb 0 probe.echo_timestamp_us && ltb probe.echo_timestamp_us now
      then (if s.srtt_us == 0
          then record s { srtt_us = rtt; rtt_var_us = rtt / 2 }
          else record s { srtt_us = srtt; rtt_var_us = smooth c.rtt_var_alpha diff s.rtt_var_us })
      else s

  -- The current rate and its growth.
  abbrev pub grown : RateControlConfig F64 → RateState F64 → ℕ
  grown c s = sat_add64 s.tx_rate (to_u64 (mul (of_u64 s.tx_rate) c.growth_factor))

  -- 2. Congestion detection, by the probe or, where it is not trusted, by the throughput: the rate
  -- to go to, if any.
  unfoldable pub desired : RateControlConfig F64 → ProbePacket → F64 → RateState F64 → Option ℕ
  desired c probe confidence s =
      let tx_dt = mul64 c.probe_interval_ms 1000 in
      let delta = s.total_tx_bytes - s.last_probe_tx_bytes in
      let our_tx_rate =
        if ltb 0 tx_dt
        then (if ltb 0 delta then mul64 delta 1_000_000 / tx_dt else s.tx_rate)
        else s.tx_rate in
      let remote_rx_rate = if ltb 0 tx_dt then mul64 probe.rx_bytes 1_000_000 / tx_dt else 0 in
      let threshold = to_u64 (mul (of_u64 our_tx_rate) c.congestion_threshold) in
      let reduced = to_u64 (mul (of_u64 remote_rx_rate) c.congestion_reduction) in
      let our_tx_delta = sub64 s.total_tx_packets s.last_loss_tx_packets in
      let our_rx_delta = sub64 s.total_rx_packets s.last_loss_rx_packets in
      let gentle = to_u64 (mul (mul (of_u64 s.tx_rate) c.growth_factor) (lit 1 2)) in
      if lt (lit 1 2) confidence || not c.tapa_enabled
      then (if ltb 0 our_tx_rate && ltb 0 remote_rx_rate
          then (if ltb (add64 remote_rx_rate threshold) our_tx_rate
              then some reduced
              else some (grown c s))
          else if (our_tx_rate == 0) && (remote_rx_rate == 0)
          then some (grown c s)
          else none)
      else if ltb 0 our_tx_delta || ltb 0 our_rx_delta
      then some (sat_add64 s.tx_rate gentle)
      else none

  unfoldable pub change : RateControlConfig F64 → Option ℕ → RateState F64 → Option (RateState F64)
  unfolding apply_rate_change
  change c none s = some s
  change c (some desired_rate) s = apply_rate_change c desired_rate s

  unfoldable pub detect_congestion :
      RateControlConfig F64 → ProbePacket → F64 → RateState F64 → Option (RateState F64)
  unfolding desired change
  detect_congestion c probe confidence s = change c (desired c probe confidence s) s

  -- 3. Loss of both directions, with the counts scaled by the confidence.
  unfoldable pub detect_loss :
      RateControlConfig F64 → ProbePacket → F64 → RateState F64 → RateState F64
  unfolding decayed
  detect_loss c probe confidence s =
      let our_tx_delta = sub64 s.total_tx_packets s.last_loss_tx_packets in
      let our_rx_delta = sub64 s.total_rx_packets s.last_loss_rx_packets in
      let gate = if c.tapa_enabled then confidence else lit 1 1 in
      let scaled : ℕ → ℕ = λ n. to_u64 (mul (of_u64 n) gate) in
      let (send_loss, send_tx, send_rx) =
        decayed c.loss_min_packets s.send_loss (add64 s.send_tx_acc (scaled our_tx_delta))
          (add64 s.send_rx_acc (scaled probe.rx_packets)) in
      let (recv_loss, recv_tx, recv_rx) =
        decayed c.loss_min_packets s.recv_loss (add64 s.recv_tx_acc (scaled probe.tx_packets))
          (add64 s.recv_rx_acc (scaled our_rx_delta)) in
      record s {
        last_loss_tx_packets = s.total_tx_packets;
        last_loss_rx_packets = s.total_rx_packets;
        send_loss = send_loss;
        send_tx_acc = send_tx;
        send_rx_acc = send_rx;
        recv_loss = recv_loss;
        recv_tx_acc = recv_tx;
        recv_rx_acc = recv_rx;
        loss = max send_loss recv_loss;
      }

  -- 4. Accelerated recovery.
  abbrev pub decay_all : RateControlConfig F64 → RateState F64 → RateState F64
  decay_all c s =
      let decay : ℕ → ℕ = λ n. to_u64 (mul (of_u64 n) c.tapa_recovery_decay) in
      record s {
        send_tx_acc = decay s.send_tx_acc;
        send_rx_acc = decay s.send_rx_acc;
        recv_tx_acc = decay s.recv_tx_acc;
        recv_rx_acc = decay s.recv_rx_acc;
      }

  unfoldable pub accelerate : RateControlConfig F64 → RateState F64 → RateState F64
  accelerate c s =
      if c.tapa_enabled
        && c.tapa_accelerated_recovery
        && (lt s.prev_probe_confidence (lit 3 10) && lt (lit 7 10) s.probe_confidence)
      then decay_all c s
      else s

  abbrev pub enter_down : F64 → RateState F64 → RateState F64
  enter_down confidence s = record s {
    state = down;
    recovery_count = 0;
    entered_down_confidence = confidence;
  }

  -- 5. State transitions, by the state before.
  unfoldable pub leave :
      RateControlConfig F64 → F64 → Bool → PathState → RateState F64 → RateState F64
  unfolding thresholds
  leave c confidence suppress running s =
      let (loss_thresh, down_thresh) = thresholds c (lt confidence (lit 1 2)) in
      if suppress
      then s
      else if ltb down_thresh s.loss
      then enter_down confidence s
      else if ltb loss_thresh s.loss
      then record s { state = lossy }
      else s
  leave c confidence suppress lossy s =
      let (loss_thresh, down_thresh) = thresholds c (lt confidence (lit 1 2)) in
      if suppress
      then (if leb s.loss c.loss_threshold then record s { state = running } else s)
      else if ltb down_thresh s.loss
      then enter_down confidence s
      else if leb s.loss loss_thresh
      then record s { state = running }
      else s
  leave c confidence suppress down s =
      if lt s.entered_down_confidence (lit 3 10) && c.tapa_enabled
      then record s {
        state = probing;
        recovery_count = c.probe_recovery_count - 1;
        tx_rate = s.tx_max_rate / 2;
        send_tx_acc = s.send_tx_acc / 2;
        send_rx_acc = s.send_rx_acc / 2;
        recv_tx_acc = s.recv_tx_acc / 2;
        recv_rx_acc = s.recv_rx_acc / 2;
      }
      else record s { state = probing; recovery_count = 1; tx_rate = s.tx_min_rate }
  leave c confidence suppress probing s =
      let count = add32 s.recovery_count 1 in
      if leb c.probe_recovery_count count
      then record s {
        state = running;
        recovery_count = count;
        tx_rate = if le (lit 3 10) s.entered_down_confidence then s.tx_min_rate else s.tx_rate;
      }
      else record s { recovery_count = count }

  unfoldable pub transition : RateControlConfig F64 → F64 → Bool → RateState F64 → RateState F64
  unfolding leave
  transition c confidence suppress s = leave c confidence suppress s.state s

  -- The notes taken of a probe before all else.
  abbrev pub note_probe : ProbePacket → F64 → ℕ → RateState F64 → RateState F64
  note_probe probe confidence now s = record s {
    last_probe_recv = now;
    last_remote_timestamp_us = probe.timestamp_us;
    prev_probe_confidence = s.probe_confidence;
    probe_confidence = confidence;
  }

  -- All parts, in turn; `none` is a panic. `now_us` is `now_micros()`, `now` is `Instant::now()`.
  unfoldable pub update_state :
      RateControlConfig F64
      → ProbePacket
      → F64
      → Bool
      → (now_us now : ℕ) → RateState F64
      → Option (RateState F64)
  unfolding measure_rtt detect_congestion detect_loss accelerate transition
  update_state c probe confidence suppress now_us now s = do
    t ←
        detect_congestion c probe confidence
          (measure_rtt c probe now_us (note_probe probe confidence now s))
    some (transition c confidence suppress (accelerate c (detect_loss c probe confidence t)))

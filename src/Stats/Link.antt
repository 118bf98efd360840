-- ===== src/Stats/Link.antt =====
-- `LinkStats`. `loss_ratio` is an f32, taken as another number of `Floats`.
pub mod Samples
use chainlightning.Base.{
  ℕ, ◌+◌, ◌-◌, List, [], ◌∷◌, ◌++◌, Bool, true, not, ◌&&◌, ltb, leb, ◌==◌, if◌then◌else◌, length,
  drop, add64,
}
use chainlightning.Clock.{elapsed}
use chainlightning.Floats.{Floats}

pub record LinkStats (F : Type 0) : Type 0 where
  pub id : ℕ
  pub tx_bytes : ℕ
  pub tx_packets : ℕ
  pub rx_bytes : ℕ
  pub rx_packets : ℕ
  pub rtt_samples : List ℕ
  pub smoothed_rtt_us : ℕ
  pub bandwidth_bps : ℕ
  pub loss_ratio : F
  pub healthy : Bool
  pub pending_bytes : ℕ
  pub last_activity : ℕ
  pub window_start : ℕ

module _ {F : Type 0} where
  unfoldable pub link_record_tx : (bytes now : ℕ) → LinkStats F → LinkStats F
  link_record_tx bytes now l = record l {
    tx_bytes = add64 l.tx_bytes bytes;
    tx_packets = add64 l.tx_packets 1;
    pending_bytes = add64 l.pending_bytes bytes;
    last_activity = now;
  }

  unfoldable pub link_record_rx : (bytes now : ℕ) → LinkStats F → LinkStats F
  link_record_rx bytes now l = record l {
    rx_bytes = add64 l.rx_bytes bytes;
    rx_packets = add64 l.rx_packets 1;
    last_activity = now;
  }

  -- `saturating_sub`.
  unfoldable pub link_record_ack : (bytes : ℕ) → LinkStats F → LinkStats F
  link_record_ack bytes l = record l { pending_bytes = l.pending_bytes - bytes }

module _ (fl : Floats) where
  open fl use {F64, lit, of_u64, to_u64, add, sub, mul, div, as_secs, lt}

  -- `LinkStats::new` at the time `now`.
  unfoldable pub new_link_stats : (now id : ℕ) → LinkStats F64
  new_link_stats now id = record {
    id = id;
    tx_bytes = 0;
    tx_packets = 0;
    rx_bytes = 0;
    rx_packets = 0;
    rtt_samples = [];
    smoothed_rtt_us = 0;
    bandwidth_bps = 0;
    loss_ratio = lit 0 1;
    healthy = true;
    pending_bytes = 0;
    last_activity = now;
    window_start = now;
  }

  unfoldable pub link_record_rtt : (rtt_us : ℕ) (alpha : F64) → LinkStats F64 → LinkStats F64
  link_record_rtt rtt_us alpha l =
      let pushed = l.rtt_samples ++ rtt_us ∷ [] in
      record l {
        rtt_samples = if ltb 100 (length pushed) then drop 1 pushed else pushed;
        smoothed_rtt_us =
            if l.smoothed_rtt_us == 0
            then rtt_us
            else to_u64 (
                add (mul (sub (lit 1 1) alpha) (of_u64 l.smoothed_rtt_us))
                  (mul alpha (of_u64 rtt_us)));
      }

  unfoldable pub update_bandwidth : (window now : ℕ) → LinkStats F64 → LinkStats F64
  update_bandwidth window now l =
      let t = elapsed now l.window_start in
      let secs = as_secs t in
      if leb window t
      then record l {
        bandwidth_bps =
            if lt (lit 0 1) secs then to_u64 (div (of_u64 l.tx_bytes) secs) else l.bandwidth_bps;
        tx_bytes = 0;
        tx_packets = 0;
        rx_bytes = 0;
        rx_packets = 0;
        window_start = now;
      }
      else l

  -- The timeout is not used.
  unfoldable pub update_health : LinkStats F64 → LinkStats F64
  update_health l =
      let high_loss = lt (lit 5 10) l.loss_ratio in
      let very_high_rtt = ltb 500_000 l.smoothed_rtt_us in
      record l { healthy = not high_loss && not very_high_rtt }

  unfoldable pub bandwidth_mbps : LinkStats F64 → F64
  bandwidth_mbps l = div (mul (of_u64 l.bandwidth_bps) (lit 8 1)) (lit 1_000_000 1)

  unfoldable pub rtt_ms : LinkStats F64 → F64
  rtt_ms l = div (of_u64 l.smoothed_rtt_us) (lit 1000 1)

  -- What happens to one link.
  pub data LinkEvent : Type 0 where
    tx : (bytes now : ℕ) → LinkEvent
    rx : (bytes now : ℕ) → LinkEvent
    rtt : (rtt_us : ℕ) (alpha : F64) → LinkEvent
    ack : (bytes : ℕ) → LinkEvent
    ticks : (window now : ℕ) → LinkEvent

  unfoldable pub link_step : LinkStats F64 → LinkEvent → LinkStats F64
  link_step l (tx bytes now) = link_record_tx bytes now l
  link_step l (rx bytes now) = link_record_rx bytes now l
  link_step l (rtt rtt_us alpha) = link_record_rtt rtt_us alpha l
  link_step l (ack bytes) = link_record_ack bytes l
  link_step l (ticks window now) = update_health (update_bandwidth window now l)

  unfoldable pub link_run : LinkStats F64 → List LinkEvent → LinkStats F64
  unfolding link_step
  link_run l [] = l
  link_run l (e ∷ es) = link_run (link_step l e) es

-- ===== src/Stats/Link/Samples.antt =====
-- One link over any history: its RTT samples, and what its health depends on.
use chainlightning.Base.Latest.{latest, latest_pushed}
use chainlightning.Base.{
  ℕ, ◌≡◌, refl, ap, ◌∙◌, List, [], ◌∷◌, ◌++◌, false, not, ltb, arith, append_assoc, append-nil,
  length, drop, if◌then◌else◌,
}
use chainlightning.Floats.{Floats}
use chainlightning.Stats.Link.{
  LinkStats, new_link_stats, link_record_tx, link_record_rx, link_record_ack, link_record_rtt,
  update_bandwidth, update_health, LinkEvent, tx, rx, rtt, ack, ticks, link_step, link_run,
}

module _ (fl : Floats) where
  open fl use {F64, lit, lt}

  -- The RTTs of a history.
  abbrev pub rtts_of : List (LinkEvent fl) → List ℕ
  rtts_of [] = []
  rtts_of (rtt rtt_us alpha ∷ es) = rtt_us ∷ rtts_of es
  rtts_of (tx bytes now ∷ es) = rtts_of es
  rtts_of (rx bytes now ∷ es) = rtts_of es
  rtts_of (ack bytes ∷ es) = rtts_of es
  rtts_of (ticks window now ∷ es) = rtts_of es

  rtts_of-cons :
      (e : LinkEvent fl) (es : List (LinkEvent fl))
      → rtts_of (e ∷ es) ≡ rtts_of (e ∷ []) ++ rtts_of es
  rtts_of-cons (rtt rtt_us alpha) es = refl
  rtts_of-cons (tx bytes now) es = refl
  rtts_of-cons (rx bytes now) es = refl
  rtts_of-cons (ack bytes) es = refl
  rtts_of-cons (ticks window now) es = refl

  -- The samples are the last 100 of the RTTs recorded, and the loss ratio is still 0.
  record Keeps (log : List ℕ) (l : LinkStats F64) : Type 0 where
    samples : l.rtt_samples ≡ latest 100 log
    no_loss : l.loss_ratio ≡ lit 0 1

  keep_log : (log : List ℕ) (l : LinkStats F64) → Keeps log l → Keeps (log ++ []) l
  keep_log log l h = rw (append-nil) h

  step-Keeps :
      (l : LinkStats F64) (log : List ℕ) (e : LinkEvent fl)
      → Keeps log l
      → Keeps (log ++ rtts_of (e ∷ [])) (link_step fl l e)
  unfolding link_step link_record_tx link_record_rx link_record_ack link_record_rtt update_bandwidth
      update_health
  step-Keeps l log (rtt rtt_us alpha) h = record {
    samples =
        ap
          (λ (s : List ℕ).
            let pushed = s ++ rtt_us ∷ [] in
            if ltb 100 (length pushed) then drop 1 pushed else pushed)
          h.samples
        ∙ latest_pushed 100 log rtt_us (omega arith);
    no_loss = h.no_loss;
  }
  step-Keeps l log (tx bytes now) h =
      keep_log log _ (record { samples = h.samples; no_loss = h.no_loss })
  step-Keeps l log (rx bytes now) h =
      keep_log log _ (record { samples = h.samples; no_loss = h.no_loss })
  step-Keeps l log (ack bytes) h =
      keep_log log _ (record { samples = h.samples; no_loss = h.no_loss })
  step-Keeps l log (ticks window now) h = keep_log log _ (ground arith)

  run-Keeps :
      (l : LinkStats F64) (log : List ℕ) (es : List (LinkEvent fl))
      → Keeps log l
      → Keeps (log ++ rtts_of es) (link_run fl l es)
  unfolding link_run
  run-Keeps l log [] h = keep_log log l h
  run-Keeps l log (e ∷ es) h =
      rw (rtts_of-cons e es, ← append_assoc log (rtts_of (e ∷ [])) (rtts_of es))
        (run-Keeps (link_step fl l e) (log ++ rtts_of (e ∷ [])) es (step-Keeps l log e h))

  new-Keeps :
      (now id : ℕ) (es : List (LinkEvent fl))
      → Keeps (rtts_of es) (link_run fl (new_link_stats fl now id) es)
  unfolding new_link_stats
  new-Keeps now id es =
      run-Keeps (new_link_stats fl now id) [] es (record { samples = refl; no_loss = refl })

  -- After any history of a new link, its samples are the last 100 of the RTTs recorded, in their
  -- order.
  pub link_run-samples :
      (now id : ℕ) (es : List (LinkEvent fl))
      → (link_run fl (new_link_stats fl now id) es).rtt_samples ≡ latest 100 (rtts_of es)
  link_run-samples now id es = (new-Keeps now id es).samples

  -- If 0.5 is not below 0.0: whatever was sent, received, acknowledged and measured on a new link,
  -- after a tick it is healthy exactly when the smoothed RTT is at most 500 ms. No loss of packets
  -- makes it unhealthy.
  pub link_run-health :
      (now id window later : ℕ) (es : List (LinkEvent fl))
      → lt (lit 5 10) (lit 0 1) ≡ false
      → let l = link_run fl (new_link_stats fl now id) es in
        (link_step fl l (ticks window later)).healthy ≡ not (ltb 500_000 l.smoothed_rtt_us)
  unfolding link_step update_bandwidth update_health
  link_run-health now id window later es h =
      let l = link_run fl (new_link_stats fl now id) es in
      let calm : lt (lit 5 10) l.loss_ratio ≡ false =
        ap (λ (x : F64). lt (lit 5 10) x) (new-Keeps now id es).no_loss ∙ h in
      ground arith

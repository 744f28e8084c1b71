-- ===== src/Buzzer/Sync.antt =====
-- internal/buzzer/conn.go: what the messages of the measurement do to a connection.
use sigame_server.Prelude.{
  Bool, List, Option, String, [], false, get_elem?, if◌then◌else◌, int_eq, keep, leb, length, ltb,
  map, modify_at, nat_beq, negsuc, none, not, pos, some, suc, take, true, zero, ℕ, ℤ, ◌%◌, ◌&&◌,
  ◌*◌, ◌+◌, ◌-◌, ◌/◌, ◌==◌, ◌||◌, ◌∷◌, ◌▷◌,
}
use sigame_server.Pack.{Float64}
use sigame_server.Buzzer.Floats.{Floats, lit, ◌≺◌, ◌≼◌, ◌⊕◌, ◌⊖◌, ◌⊗◌, ◌⊘◌}
use sigame_server.Buzzer.Ring.{Ring, elements, newest, push, reset, visit}
use sigame_server.Buzzer.Constants.{
  anchor_slack_kernel, ewma_alpha, inflation_window, jitter_infl_factor, jitter_infl_margin,
  max_sample_rtt, resid_frac, rtt_min_window, rtt_var_beta, step_margin, step_run_limit,
  sync_lie_min_gap, unsynced_min_samples,
}
use sigame_server.Buzzer.Stats.{median}
use sigame_server.Buzzer.Conn.{Conn, PendingSync, Sample, SyncIn, SyncOut, Tracker}
use sigame_server.Buzzer.Trust.{add_flag}
use sigame_server.Buzzer.Clock.{floor, least_rtt, recent, snap}

module _ ⦃fl : Floats⦄ where
  -- One detector, and whether its flag is charged now: the condition has held for six seconds.
  unfoldable pub track : Bool → Float64 → Tracker → Tracker × Bool
  track holds now t =
      if not holds
      then (record { since = fl.neg (lit 1); flagged = false }, false)
      else if t.since ≺ lit 0
      then (record t { since = now }, false)
      else if not t.flagged && inflation_window ≼ (now ⊖ t.since)
      then (record t { flagged = true }, true)
      else (t, false)

  unfoldable pub charge : Bool → String → Conn → Conn
  unfolding add_flag
  charge due f c = if due then add_flag f c else c

  unfoldable pub track_rtt : Bool → Float64 → Conn → Conn
  unfolding track
  track_rtt holds now c =
      let t = track holds now c.rtt_infl in
      record (charge (t.1) "rtt_inflated" c) { rtt_infl = t.0 }

  unfoldable pub track_jitter : Bool → Float64 → Conn → Conn
  unfolding track
  track_jitter holds now c =
      let t = track holds now c.jit_infl in
      record (charge (t.1) "jitter_inflated" c) { jit_infl = t.0 }

  unfoldable pub track_ws : Bool → Float64 → Conn → Conn
  unfolding track
  track_ws holds now c =
      let t = track holds now c.ws_infl in record (charge (t.1) "rtt_inflated" c) { ws_infl = t.0 }

  unfoldable pub check_inflation : Float64 → Conn → Conn
  unfolding snap
  check_inflation now c =
      let s = snap now c in
      let warm = leb unsynced_min_samples c.ewma_count in
      track_rtt (s.anchored && warm && s.anchor_hi ≺ c.ewma) now c
      ▷ track_jitter
          (not (fl.eq s.sigma_anchor fl.inf)
            && warm
            && (jitter_infl_factor ⊗ s.sigma_anchor ⊕ jitter_infl_margin) ≺ s.sigma_app)
          now
      ▷ track_ws
          (c.kern.ok && leb 3 c.ws.count && (c.kern.srtt ⊕ anchor_slack_kernel ⊕ lit 5) ≺ c.ws_ewma)
          now

  -- A lie is charged at most once in two seconds.
  unfoldable pub sync_lie : Float64 → Conn → Conn
  unfolding add_flag
  sync_lie now c =
      if sync_lie_min_gap ≼ (now ⊖ c.last_sync_lie)
      then record (add_flag "sync_lie" c) { last_sync_lie = now }
      else c

  unfoldable pub reset_model : Conn → Conn
  unfolding reset
  reset_model c = record c {
    app = reset c.app;
    ewma_count = 0;
    ewma = lit 0;
    rttvar = lit 0;
    offset_ok = false;
    step_dir = pos 0;
    step_run = 0;
  }

  -- The samples at these indices, in their order.
  abbrev pub samples_at : List Sample → List ℕ → List Sample
  samples_at win [] = []
  samples_at win (i ∷ is) =
      let rest = samples_at win is in elim (get_elem? win i) [ none ↦ rest | some s ↦ s ∷ rest ]

  -- The lowest-RTT quartile of the window, at least one sample.
  unfoldable pub quartile : List Sample → List Sample
  quartile win =
      let q = (length win + 3) / 4 in
      take (if ltb q 1 then 1 else q) (samples_at win (fl.slice_order (map (λ s. s.rtt) win)))

  unfoldable pub recompute_offset : Float64 → Conn → Conn
  unfolding elements visit newest median
  recompute_offset now c =
      let win = keep (recent rtt_min_window now) (elements c.app) in
      let low = least_rtt (recent rtt_min_window now) fl.inf (elements c.app) in
      let threshold = low ⊕ fl.max (lit 2) (resid_frac ⊗ low) in
      let cand = keep (λ s. s.rtt ≼ threshold) win in
      let chosen = if ltb (length cand) 3 then quartile win else cand in
      if fl.eq low fl.inf
      then c
      else record c { offset = median (map (λ s. s.off) chosen); offset_ok = true }

  abbrev pub direction : Float64 → Float64 → ℤ
  direction dev lim = if lim ≺ dev then pos 1 else if dev ≺ fl.neg lim then negsuc 0 else pos 0

  abbrev pub count_step : ℤ → Conn → Conn
  count_step dir c =
      if not (dir == pos 0) && dir == c.step_dir
      then record c { step_run = c.step_run + 1 }
      else record c { step_dir = dir; step_run = if dir == pos 0 then 0 else 1 }

  unfoldable pub restart : Conn → Conn
  unfolding reset_model
  restart c =
      if leb step_run_limit c.step_run
      then record (reset_model c) { cold = true; since_cold = 0 }
      else c

  -- Three samples in a row that deviate to the same side discard the model.
  unfoldable pub detect_step : Float64 → Float64 → Conn → Conn
  unfolding snap
  detect_step off now c =
      if c.offset_ok && leb unsynced_min_samples c.app.count
      then restart (count_step (direction (off ⊖ c.offset) ((snap now c).model.u ⊕ step_margin)) c)
      else c

  abbrev pub smooth : Float64 → Conn → Conn
  smooth rtt c =
      let err = rtt ⊖ c.ewma in
      if nat_beq c.ewma_count 0
      then record c { ewma = rtt; rttvar = rtt ⊘ lit 2; ewma_count = c.ewma_count + 1 }
      else record c {
        rttvar = fl.num 3 4 ⊗ c.rttvar ⊕ rtt_var_beta ⊗ fl.abs err;
        ewma = c.ewma ⊕ ewma_alpha ⊗ err;
        ewma_count = c.ewma_count + 1;
      }

  abbrev pub warm_up : Conn → Conn
  warm_up c =
      if c.cold
      then record c {
        since_cold = c.since_cold + 1;
        cold = not (leb unsynced_min_samples (c.since_cold + 1));
      }
      else c

  abbrev pub below : Float64 → Option Float64 → Bool
  below rtt none = false
  below rtt (some lowest) = rtt ≺ lowest

  unfoldable pub keep_sample : Float64 → Float64 → Float64 → Conn → Conn
  unfolding detect_step push recompute_offset check_inflation
  keep_sample rtt off now c =
      detect_step off now c
      ▷ (λ d. record d { app = push (record { rtt = rtt; off = off; at = now }) d.app })
      ▷ smooth rtt
      ▷ warm_up
      ▷ recompute_offset now
      ▷ check_inflation now

  unfoldable pub accept_sample : PendingSync → Float64 → Float64 → Conn → Conn
  unfolding sync_lie floor
  accept_sample p c4 now c =
      let rtt = (c4 ⊖ p.c1) ⊖ (p.s3 ⊖ p.s2) in
      let off = ((p.s2 ⊖ p.c1) ⊕ (p.s3 ⊖ c4)) ⊘ lit 2 in
      if rtt ≺ lit 0 || max_sample_rtt ≺ rtt
      then sync_lie now c
      else if below rtt (floor now c)
      then sync_lie now c
      else keep_sample rtt off now c

  -- The first open sample with the number, from the i-th newest, with its place in the buffer.
  unfoldable pub find_pending : ℕ → ℕ → ℤ → Ring PendingSync → Option (ℕ × PendingSync)
  unfolding newest
  find_pending zero i seq r = none
  find_pending (suc n) i seq r = let rest = find_pending n (suc i) seq r in test (newest i r) rest
    where
      test : Option PendingSync → Option (ℕ × PendingSync) → Option (ℕ × PendingSync)
      test none rest = rest
      test (some p) rest =
          if p.ok && p.seq == seq
          then some ((r.head + 2 * length r.buf - 1 - i) % length r.buf, p)
          else rest

  unfoldable pub close_pending : Float64 → Float64 → Option (ℕ × PendingSync) → Conn → Conn
  unfolding accept_sample
  close_pending c4 s2 none c = c
  close_pending c4 s2 (some (at, p)) c =
      let d = accept_sample p c4 s2 c in
      record d {
        pend = record (d.pend) { buf = modify_at d.pend.buf at (λ q. record q { ok = false }) };
      }

  unfoldable pub on_sync : SyncIn → Float64 → Float64 → Conn → Conn × SyncOut
  unfolding push snap
  on_sync m s2 s3 c =
      let d =
        if m.has_prev
        then close_pending m.prev_c4 s2 (find_pending c.pend.count 0 m.prev_seq c.pend) c
        else c in
      let e = record d {
        pend = push (record { seq = m.seq; c1 = m.c1; s2 = s2; s3 = s3; ok = true }) d.pend;
      } in
      (e, record { seq = m.seq; c1 = m.c1; s2 = s2; s3 = s3; model = (snap s3 e).model })

  unfoldable pub on_ws_pong : Float64 → Float64 → Conn → Conn
  unfolding push check_inflation
  on_ws_pong rtt now c =
      let ewma =
        if nat_beq c.ws_ewma_count 0 then rtt else c.ws_ewma ⊕ ewma_alpha ⊗ (rtt ⊖ c.ws_ewma) in
      if rtt ≺ lit 0 || max_sample_rtt ≺ rtt
      then c
      else check_inflation now (record c {
        ws = push (record { rtt = rtt; off = lit 0; at = now }) c.ws;
        ws_ewma = ewma;
        ws_ewma_count = c.ws_ewma_count + 1;
        last_pong = now;
      })

  unfoldable pub on_kernel_rtt : Float64 → Float64 → Float64 → Conn → Conn
  unfolding check_inflation
  on_kernel_rtt srtt rttvar now c =
      if srtt ≼ lit 0
      then c
      else check_inflation now (record c {
        kern = record { srtt = srtt; rttvar = fl.max (lit 0) rttvar; at = now; ok = true };
      })

unfoldable pub on_visible : Conn → Conn
on_visible c = record c { cold = true; since_cold = 0 }

-- ===== src/Buzzer/Clock.antt =====
-- internal/buzzer/conn.go: the clock and round-trip model of a connection.
use mathlib.Core.Bool.{◌||◌}
use Prim.Native.Nat.{Ordering}
use Prim.Native.String.{compare}
use sigame_server.Prelude.{
  Bool, List, Option, String, [], false, if◌then◌else◌, insert_by, keep, leb, length, ltb, map,
  nat_beq, none, not, some, sort_by, take, true, ◌&&◌, ◌||◌, ◌∷◌,
}
use sigame_server.Pack.{Float64}
use sigame_server.Buzzer.Floats.{Floats, clamp, lit, ◌≺◌, ◌≼◌, ◌⊕◌, ◌⊖◌, ◌⊗◌, ◌⊘◌}
use sigame_server.Buzzer.Ring.{Ring, elements, newest, visit}
use sigame_server.Buzzer.Constants.{
  anchor_floor_margin, anchor_slack_kernel, anchor_slack_ws, default_tol_cap_ms, eps_input,
  lead_base, lead_max, lead_min, mad_scale, mad_window, quality_fair_sigma, quality_good_rtt,
  quality_good_sigma, resid_frac, resid_max, resid_min, rtt_min_window, sigma_cold, sigma_max,
  sigma_min, sigma_slack, tol_min, unsynced_min_samples, unsynced_window, ws_floor_min_samples,
}
use sigame_server.Buzzer.Stats.{mad_raw, median}
use sigame_server.Buzzer.Conn.{Conn, Quality, Sample, Snapshot}

abbrev pub text_less : String → String → Bool
text_less s t = elim (compare s t) [ Ordering.lt ↦ true | _ ↦ false ]

-- The flags on record, in the order of their names.
unfoldable pub flag_list : Conn → List String
unfolding sort_by insert_by
flag_list c = sort_by text_less (map (λ e. e.0) (keep (λ e. ltb 0 (e.1)) c.flags))

-- What `snap` derives before the reference round trip is chosen.
pub record Anchor : Type 0 where
  pub lo : Float64
  pub hi : Float64
  pub sigma : Float64
  pub anchored : Bool

module _ ⦃fl : Floats⦄ where
  -- The least round trip of the samples that the test admits, `acc` at most.
  abbrev pub least_rtt : (Sample → Bool) → Float64 → List Sample → Float64
  least_rtt p acc [] = acc
  least_rtt p acc (s ∷ ss) = least_rtt p (if p s && s.rtt ≺ acc then s.rtt else acc) ss

  abbrev pub greatest_rtt : Float64 → List Sample → Float64
  greatest_rtt acc [] = acc
  greatest_rtt acc (s ∷ ss) = greatest_rtt (if acc ≺ s.rtt then s.rtt else acc) ss

  abbrev pub recent : Float64 → Float64 → Sample → Bool
  recent window now s = (now ⊖ window) ≼ s.at

  unfoldable pub ws_min : Float64 → Conn → Float64
  unfolding elements visit newest
  ws_min now c =
      let m = least_rtt (recent rtt_min_window now) fl.inf (elements c.ws) in
      if fl.eq m fl.inf then least_rtt (λ s. true) fl.inf (elements c.ws) else m

  -- The samples that the loop `i < n && i < MADWindow` visits.
  unfoldable pub newest_window : Ring Sample → List Sample
  unfolding elements visit newest
  newest_window r = take mad_window (elements r)

  unfoldable pub mad_app : Conn → Float64
  unfolding mad_raw median elements visit newest
  mad_app c = mad_raw (map (λ s. s.rtt) (newest_window c.app))

  unfoldable pub mad_ws : Conn → Float64
  unfolding mad_raw median elements visit newest
  mad_ws c = mad_raw (map (λ s. s.rtt) (newest_window c.ws))

  abbrev pub kernel_floor : Conn → Float64
  kernel_floor c = c.kern.srtt ⊖ lit 2 ⊗ c.kern.rttvar ⊖ lit 2

  -- The least app round trip that is plausible.
  unfoldable pub floor : Float64 → Conn → Option Float64
  unfolding ws_min mad_ws
  floor now c =
      if c.kern.ok
      then some (kernel_floor c)
      else if leb ws_floor_min_samples c.ws.count
      then some (ws_min now c ⊖ anchor_floor_margin ⊖ mad_scale ⊗ mad_ws c)
      else none

  abbrev pub kernel_anchor : Conn → Anchor
  kernel_anchor c =
      if c.kern.ok
      then record {
        hi = c.kern.srtt ⊕ anchor_slack_kernel;
        lo = kernel_floor c;
        sigma = c.kern.rttvar;
        anchored = true;
      }
      else record { hi = fl.inf; lo = fl.neg_inf; sigma = fl.inf; anchored = false }

  unfoldable pub ws_anchor : Float64 → Conn → Anchor → Anchor
  unfolding ws_min mad_ws
  ws_anchor now c a =
      let sigma_ws = mad_scale ⊗ mad_ws c in
      if leb 3 c.ws.count
      then record {
        hi = if c.kern.ok then a.hi else c.ws_ewma ⊕ anchor_slack_ws;
        lo = if c.kern.ok then a.lo else ws_min now c ⊖ anchor_floor_margin ⊖ sigma_ws;
        sigma = fl.min a.sigma sigma_ws;
        anchored = true;
      }
      else a

  abbrev pub anchor_of : Float64 → Conn → Anchor
  anchor_of now c = ws_anchor now c (kernel_anchor c)

  unfoldable pub app_sigma : Conn → Float64
  unfolding mad_app
  app_sigma c = if ltb 0 c.ewma_count then fl.max c.rttvar (mad_scale ⊗ mad_app c) else sigma_cold

  -- The measured round trip and its jitter, from the best source there is.
  abbrev pub measured : Conn → Float64 × Float64
  measured c =
      if ltb 0 c.ewma_count
      then (c.ewma, app_sigma c)
      else if leb 3 c.ws.count
      then (c.ws_ewma, sigma_cold)
      else if c.kern.ok
      then (c.kern.srtt, sigma_cold)
      else (lit 0, sigma_cold)

  abbrev pub not_negative : Float64 → Float64
  not_negative x = if x ≺ lit 0 then lit 0 else x

  unfoldable pub reference_rtt : Anchor → Float64 → Float64
  unfolding clamp
  reference_rtt a rtt = not_negative (if a.anchored then clamp rtt a.lo a.hi else rtt)

  unfoldable pub capped_sigma : Anchor → Float64 → Float64
  unfolding clamp
  capped_sigma a sigma =
      clamp (if a.anchored then fl.min sigma (a.sigma ⊕ sigma_slack) else sigma) sigma_min sigma_max

  unfoldable pub quality_of : Conn → Float64 → Float64 → Float64 → Quality
  unfolding elements visit newest
  quality_of c now rtt_ref sigma =
      let fresh = length (keep (recent unsynced_window now) (elements c.app)) in
      if nat_beq c.ewma_count 0 || ltb fresh unsynced_min_samples || c.cold
      then Quality.unsynced
      else if rtt_ref ≺ quality_good_rtt && sigma ≺ quality_good_sigma
      then Quality.good
      else if sigma ≺ quality_fair_sigma
      then Quality.fair
      else Quality.poor

  unfoldable pub trust_radius : Conn → Float64 → Float64 → Float64
  unfolding clamp
  trust_radius c resid sigma =
      let cap = if c.tol_cap ≼ lit 0 then default_tol_cap_ms else c.tol_cap in
      clamp (resid ⊕ lit 3 ⊗ sigma ⊕ eps_input) tol_min (fl.max tol_min cap)

  -- The fastest round trip that the server believes.
  abbrev pub believed_min : Anchor → Float64 → Float64 → Float64
  believed_min a rtt_min rtt_ref =
      let m =
        if a.anchored && not (fl.eq a.lo fl.neg_inf) && rtt_min ≺ a.lo then a.lo else rtt_min in
      if rtt_ref ≺ m then rtt_ref else m

  unfoldable pub max_of_16 : Conn → Float64 → Float64
  unfolding elements visit newest
  max_of_16 c rtt_ref =
      let app = greatest_rtt (lit 0) (newest_window c.app) in
      let ws = greatest_rtt (lit 0) (newest_window c.ws) in
      let m = if app ≺ ws then ws else app in if fl.eq m (lit 0) then rtt_ref else m

  unfoldable pub app_min : Conn → Float64 → Float64 → Float64
  unfolding elements visit newest
  app_min c now rtt_ref =
      let m = least_rtt (recent rtt_min_window now) fl.inf (elements c.app) in
      if fl.eq m fl.inf then rtt_ref else m

  unfoldable pub snap : Float64 → Conn → Snapshot
  unfolding clamp flag_list
  snap now c =
      let a = anchor_of now c in
      let rtt_ref = reference_rtt a ((measured c).0) in
      let sigma = capped_sigma a ((measured c).1) in
      let rtt_min = app_min c now rtt_ref in
      let resid = clamp (resid_frac ⊗ rtt_min) resid_min resid_max in
      record {
        model = record {
          offset_ms = c.offset;
          rtt_ref = rtt_ref;
          rtt_ws = if ltb 0 c.ws_ewma_count then c.ws_ewma else lit 0;
          rtt_kernel = if c.kern.ok then c.kern.srtt else lit 0;
          sigma = sigma;
          tol = trust_radius c resid sigma;
          u = resid ⊕ lit 2 ⊗ sigma ⊕ lit 1;
          lead = clamp (rtt_ref ⊘ lit 2 ⊕ lit 3 ⊗ sigma ⊕ lead_base) lead_min lead_max;
          quality = quality_of c now rtt_ref sigma;
          flags = flag_list c;
          samples = c.app.count;
        };
        resid = resid;
        rtt_min = rtt_min;
        rtt_max_16 = max_of_16 c rtt_ref;
        rtt_min_ref = believed_min a rtt_min rtt_ref;
        sigma_app = app_sigma c;
        sigma_anchor = a.sigma;
        anchor_lo = a.lo;
        anchor_hi = a.hi;
        anchored = a.anchored;
      }

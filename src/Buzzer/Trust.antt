-- ===== src/Buzzer/Trust.antt =====
-- internal/buzzer/conn.go: the flags, the trust ladder, the lockout and the press detectors.
pub mod Ladder
use sigame_server.Prelude.{
  Bool, List, Option, String, [], add64, elem, false, if◌then◌else◌, insert, keep, leb, leb_ℤ,
  length, lookup, ltb, ltb_ℤ, negsuc, none, not, pos, some, string_eq, sub64, suc, true, zero, ℕ, ℤ,
  ◌&&◌, ◌++◌, ◌+◌, ◌-◌, ◌||◌, ◌∷◌,
}
use sigame_server.Pack.{Float64}
use sigame_server.Buzzer.Floats.{Floats, lit, of_nat, sum_from, ◌≺◌, ◌≼◌, ◌⊕◌, ◌⊖◌, ◌⊗◌, ◌⊘◌}
use sigame_server.Buzzer.Ring.{elements, newest, push, reset, visit}
use sigame_server.Buzzer.Constants.{
  ack_late_count, bot_mad, bot_median, bot_min_presses, bot_repeat, clamp_ratio_limit,
  clamp_ratio_min_presses, clamp_ratio_repeat, early_bias_window, eps_input, lockout_repeat_window,
  rate_limit_presses, rate_limit_window, trust_clean_streak,
}
use sigame_server.Buzzer.Stats.{mad_raw, median}
use sigame_server.Buzzer.Conn.{Conn, Snapshot, Trust, TrustLevel}

-- The flags that cost a trust point each.
abbrev pub scoring_flags : List String
scoring_flags =
    "sync_lie" ∷ "rtt_inflated" ∷ "jitter_inflated" ∷ "clamp_ratio" ∷ "too_early" ∷ "early_bias"
    ∷ "bot_like" ∷ "ack_late" ∷ "rate_limit" ∷ []

unfoldable pub is_scoring : String → Bool
is_scoring f = elem f scoring_flags

-- `c.flags[flag]++`.
unfoldable pub soft_flag : String → Conn → Conn
unfolding lookup insert
soft_flag f c = record c { flags = insert f (count (lookup f c.flags) + 1) c.flags }
  where
    count : Option ℕ → ℕ
    count none = 0
    count (some n) = n

unfoldable pub add_flag : String → Conn → Conn
unfolding soft_flag is_scoring
add_flag f c =
    let d = soft_flag f c in
    if is_scoring f then record d { score = sub64 d.score (pos 1); clean_streak = 0 } else d

-- The three thresholds, the loose ones first.
abbrev pub thresholds : Bool → ℤ × ℤ × ℤ
thresholds true = (negsuc 0, negsuc 1, negsuc 2)
thresholds false = (negsuc 1, negsuc 3, negsuc 5)

unfoldable pub ladder : Bool → ℤ → TrustLevel
ladder strict score =
    let t = thresholds strict in
    if leb_ℤ score (t.2)
    then TrustLevel.arrival_only
    else if leb_ℤ score (t.1)
    then TrustLevel.server_only
    else if leb_ℤ score (t.0)
    then TrustLevel.conservative
    else TrustLevel.full

unfoldable pub trust : Conn → Trust
unfolding ladder
trust c = record { score = c.score; level = level_of c.force_level; flags = c.flags }
  where
    level_of : Option TrustLevel → TrustLevel
    level_of (some level) = level
    level_of none = if c.auto_trust then ladder c.strict_trust c.score else TrustLevel.full

module _ ⦃fl : Floats⦄ where
  -- How many of the times are in the window that ends now.
  abbrev pub since_count : Float64 → List Float64 → ℕ
  since_count from ts = length (keep (λ t. from ≼ t) ts)

  abbrev pub grown : ℕ → Float64 → Float64 → Float64
  grown zero growth d = d
  grown (suc k) growth d = grown k growth (d ⊗ growth)

  -- The new end of the lockout is in `locked_until`.
  unfoldable pub lockout : Float64 → Float64 → Float64 → Float64 → Conn → Conn
  unfolding elements visit newest push
  lockout now base growth cap c =
      let k = since_count (now ⊖ lockout_repeat_window) (elements c.false_starts) in
      let d = grown k growth base in
      let capped = if lit 0 ≺ cap && cap ≺ d then cap else d in
      let until = now ⊕ capped in
      record c {
        locked_until = if c.locked_until ≺ until then until else c.locked_until;
        false_starts = push now c.false_starts;
      }

  -- Over the limit: flagged at most once in each window.
  unfoldable pub charge_rate : Float64 → Conn → Conn
  unfolding add_flag soft_flag
  charge_rate now c =
      if rate_limit_window ≼ (now ⊖ c.last_rate_flag)
      then record (add_flag "rate_limit" c) { last_rate_flag = now }
      else c

  -- False: the message is dropped.
  unfoldable pub note_press : Float64 → Conn → Conn × Bool
  unfolding elements visit newest push
  note_press now c =
      let d = record c { press_times = push now c.press_times } in
      let n = since_count (now ⊖ rate_limit_window) (elements d.press_times) in
      if ltb rate_limit_presses n then (charge_rate now d, false) else (d, true)

  abbrev pub recover : Bool → Conn → Conn
  recover clean c =
      if clean && not c.bias_active && not c.clamp_flag && not c.bot_flag
      then if leb trust_clean_streak (c.clean_streak + 1)
        then record c {
          clean_streak = 0;
          score = if ltb_ℤ c.score (pos 0) then add64 c.score (pos 1) else c.score;
        }
        else record c { clean_streak = c.clean_streak + 1 }
      else c

  unfoldable pub clamp_share : Conn → Bool
  unfolding elements visit newest
  clamp_share c =
      clamp_ratio_limit
      ≺ (of_nat (length (keep (λ b. b) (elements c.clamp_hist))) ⊘ of_nat c.clamp_hist.count)

  -- The clamp-ratio detector: charged when it starts and again every ten presses.
  unfoldable pub check_clamps : Conn → Conn × List String
  unfolding add_flag
  check_clamps c =
      if leb clamp_ratio_min_presses c.clamp_hist.count
      then if clamp_share c
        then if not c.clamp_flag || leb clamp_ratio_repeat (c.presses - c.clamp_flag_at)
          then (
            record (add_flag "clamp_ratio" c) { clamp_flag = true; clamp_flag_at = c.presses },
            "clamp_ratio" ∷ [],
          )
          else (c, [])
        else (record c { clamp_flag = false }, [])
      else (c, [])

  unfoldable pub bot_shaped : List Float64 → Bool
  unfolding median mad_raw
  bot_shaped xs = median xs ≺ bot_median && mad_raw xs ≺ bot_mad

  unfoldable pub check_bot : Conn → Conn × List String
  unfolding add_flag elements visit newest
  check_bot c =
      if leb bot_min_presses c.presses
      then if bot_shaped (elements c.react)
        then if not c.bot_flag || leb bot_repeat (c.presses - c.bot_flag_at)
          then (
            record (add_flag "bot_like" c) { bot_flag = true; bot_flag_at = c.presses },
            "bot_like" ∷ [],
          )
          else (c, [])
        else (record c { bot_flag = false }, [])
      else (c, [])

  -- The connection and the flags that were raised.
  unfoldable pub note_reaction : Float64 → Bool → Bool → Conn → Conn × List String
  unfolding push check_clamps check_bot
  note_reaction reaction clean clamped c =
      let d = record c {
        presses = c.presses + 1;
        react = push reaction c.react;
        clamp_hist = push clamped c.clamp_hist;
      } in
      let e = check_clamps (recover clean d) in let f = check_bot (e.0) in (f.0, e.1 ++ f.1)

  unfoldable pub note_bias : Float64 → Snapshot → Conn → Conn × Bool
  unfolding push reset elements visit newest add_flag
  note_bias v m c =
      let d = record c { bias = push v c.bias } in
      let sum = sum_from (lit 0) (elements d.bias) in
      if ltb d.bias.count early_bias_window
      then (d, false)
      else if (sum ⊘ of_nat d.bias.count) ≺ fl.neg (m.model.sigma ⊕ m.resid ⊕ eps_input)
      then (record (add_flag "early_bias" d) { bias = reset d.bias }, true)
      else (d, false)

  unfoldable pub note_ack : Float64 → Float64 → Float64 → Conn → Conn
  unfolding push elements visit newest add_flag
  note_ack excess allow sigma c =
      let late = (allow ⊕ lit 2 ⊗ sigma ⊕ lit 5) ≺ excess in
      let d = record c { ack_late = push late c.ack_late } in
      let k = length (keep (λ b. b) (elements d.ack_late)) in
      if leb ack_late_count k
      then if d.ack_late_flag then d else record (add_flag "ack_late" d) { ack_late_flag = true }
      else record d { ack_late_flag = false }

-- ===== src/Buzzer/Settings/Ranges.antt =====
-- internal/buzzer/settings.go: what the checks promise, and the presets pass them.
use sigame_server.Prelude.{
  Bool, Option, String, arith, false, if◌then◌else◌, none, pos, refl, some, string_eq, true, ℕ, ℤ,
  ◌==◌, ◌||◌, ◌≡◌, ◌≤ℤ◌,
}
use sigame_server.Buzzer.Floats.{Floats, lit, ◌≺◌}
use sigame_server.Buzzer.Settings.{
  Mode, Settings, SettingsError, base_settings, check_human, check_lockouts, check_windows,
  disordered, fails, internet_fair, lan_wired, no_race, outside, preset, tournament, uncapped,
  validate, wired, ◌orelse◌,
}

abbrev pub Between : ℤ → ℕ → ℕ → Type 0
Between x lo hi = (pos lo ≤ℤ x) × (x ≤ℤ pos hi)

module _ ⦃fl : Floats⦄ where
  -- In the anchored mode, no reaction below a tenth of a second is accepted.
  abbrev pub HumanFloor : Mode → ℤ → Type 0
  HumanFloor Mode.anchored_hybrid x = Between x 100 300
  HumanFloor _ x = Unit

  abbrev pub Windows : Settings → Type 0
  Windows s =
      (((pos 0 ≤ℤ s.arm_jitter_min) × (s.arm_jitter_min ≤ℤ s.arm_jitter_max))
        × (s.arm_jitter_max ≤ℤ pos 10000))
      × (Between s.press_window 500 60000 × Between s.max_collect 50 2000)
      × (((pos 0 ≤ℤ s.tie_min) × (s.tie_min ≤ℤ s.tie_max)) × (s.tie_max ≤ℤ pos 1000))
      × (Between s.tie_ms 0 1000 × Between s.tol_cap 5 200)

  abbrev pub Lockouts : Settings → Type 0
  Lockouts s =
      Between s.late_light_credit 0 200
      × HumanFloor s.mode s.min_human
      × (Between s.false_start_lockout 0 60000
          × ((s.false_start_lockout ≤ℤ s.lockout_cap) × (s.lockout_cap ≤ℤ pos 120000)))
      × Between s.max_rtt 20 5000

  orelse_none : (a b : Option SettingsError) → (a orelse b) ≡ none → (a ≡ none) × (b ≡ none)
  unfolding ◌orelse◌
  orelse_none none b h = (refl, h)
  orelse_none (some e) b h = ground arith

  fails-none : (b : Bool) (e : SettingsError) → fails b e ≡ none → b ≡ false
  unfolding fails
  fails-none true e h = ground arith
  fails-none false e h = refl

  outside-none :
      (x : ℤ) (lo hi : ℕ) (e : SettingsError) → fails (outside x lo hi) e ≡ none → Between x lo hi
  unfolding outside
  outside-none x lo hi e h = within (fails-none (outside x lo hi) e h)
    where
      within : outside x lo hi ≡ false → Between x lo hi
      within p = ground arith

  -- An ordered pair of numbers within a range.
  pair_none :
      (x y : ℤ) (top : ℕ) (e : SettingsError)
      → fails (disordered x y top) e ≡ none
      → ((pos 0 ≤ℤ x) × (x ≤ℤ y)) × (y ≤ℤ pos top)
  unfolding disordered
  pair_none x y top e h = ordered (fails-none (disordered x y top) e h)
    where
      ordered : disordered x y top ≡ false → ((pos 0 ≤ℤ x) × (x ≤ℤ y)) × (y ≤ℤ pos top)
      ordered p = ground arith

  cap_none :
      (x y : ℤ) (top : ℕ) (e : SettingsError)
      → fails (uncapped x y top) e ≡ none
      → (x ≤ℤ y) × (y ≤ℤ pos top)
  unfolding uncapped
  cap_none x y top e h = capped (fails-none (uncapped x y top) e h)
    where
      capped : uncapped x y top ≡ false → (x ≤ℤ y) × (y ≤ℤ pos top)
      capped p = ground arith

  Windows-none : (s : Settings) → check_windows s ≡ none → Windows s
  Windows-none s h =
      let a = orelse_none _ _ h in
      let b = orelse_none _ _ (a.1) in
      let c = orelse_none _ _ (b.1) in
      let d = orelse_none _ _ (c.1) in
      let e = orelse_none _ _ (d.1) in
      (
        pair_none _ _ _ _ (a.0),
        (outside-none _ _ _ _ (b.0), outside-none _ _ _ _ (c.0)),
        pair_none _ _ _ _ (e.0),
        (outside-none _ _ _ _ (d.0), outside-none _ _ _ _ (e.1)),
      )

  human_none : (m : Mode) (x : ℤ) → check_human m x ≡ none → HumanFloor m x
  human_none Mode.anchored_hybrid x h = outside-none _ _ _ _ h
  human_none Mode.server_arrival x h = tt
  human_none Mode.random_window x h = tt
  human_none Mode.client_reaction x h = tt
  human_none Mode.written_all x h = tt
  human_none Mode.unknown x h = tt

  Lockouts-none : (s : Settings) → check_lockouts s ≡ none → Lockouts s
  Lockouts-none s h =
      let a = orelse_none _ _ h in
      let b = orelse_none _ _ (a.1) in
      let c = orelse_none _ _ (b.1) in
      let d = orelse_none _ _ (c.1) in
      let e = orelse_none _ _ (d.1) in
      let f = orelse_none _ _ (e.1) in
      (
        outside-none _ _ _ _ (a.0),
        human_none s.mode s.min_human (b.0),
        (outside-none _ _ _ _ (c.0), cap_none _ _ _ _ (e.0)),
        outside-none _ _ _ _ (f.0),
      )

  -- Settings that `Validate` accepts have each of these numbers in its range: the arm jitter, the
  -- press window, the collection cap, the tie windows, the tolerance cap, the late-light credit,
  -- the lockouts, the greatest round trip and, in the anchored mode, the human floor.
  pub validate-InRange : (s : Settings) → validate s ≡ none → Windows s × Lockouts s
  unfolding validate
  validate-InRange s h =
      let checked = orelse_none _ _ ((orelse_none _ _ h).1) in
      (Windows-none s (checked.0), Lockouts-none s (checked.1))

  -- The settings that a name stands for, if any, are accepted.
  abbrev pub Accepted : Option Settings → Type 0
  Accepted none = Unit
  Accepted (some s) = validate s ≡ none

  -- Every preset passes `Validate`, when the floating-point order puts 2 between 1 and 10.
  pub preset-Accepted :
      (name : String) → (lit 2 ≺ lit 1) ≡ false → (lit 10 ≺ lit 2) ≡ false → Accepted (preset name)
  unfolding preset base_settings validate no_race wired internet_fair
  preset-Accepted name low high =
      by_name (name == "wifiParty") (name == "lanWired") (name == "internetFair")
        (name == "tournament") (name == "noRace")
    where
      growth :
          (fails (lit 2 ≺ lit 1 || lit 10 ≺ lit 2) (SettingsError.lockout_growth (lit 2))
            orelse none)
          ≡ none
      growth = ground arith

      by_name :
          (a b c d e : Bool)
          → Accepted (
              if a
              then some base_settings
              else if b
              then some lan_wired
              else if c
              then some internet_fair
              else if d
              then some tournament
              else if e
              then some no_race
              else none)
      by_name true b c d e = growth
      by_name false true c d e = growth
      by_name false false true d e = growth
      by_name false false false true e = growth
      by_name false false false false true = growth
      by_name false false false false false = tt

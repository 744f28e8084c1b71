-- ===== src/Buzzer/Run/Start.antt =====
-- internal/buzzer/arm.go: a new arm, and every arm that the calls make of it.
use sigame_server.Prelude.{
  All, Bool, Bool-cases, List, Option, String, [], arith, false, get_elem?, if◌then◌else◌, inl, inr,
  insert, length, length-append, lookup, lookup-insert, none, not, refl, some, string_eq, subst,
  suc, sym, true, zero, ℕ, ◌++◌, ◌<◌, ◌==◌, ◌↔◌, ◌∷◌, ◌≡◌, ◌⊎◌,
}
use sigame_server.Pack.{Float64}
use sigame_server.Buzzer.Floats.{Floats}
use sigame_server.Buzzer.Arm.{
  Arm, ArmPlayer, Player, Session, Store, blank_arm, enlist, enlist_all, new_arm, open_mode,
  opening, player_at, player_of,
}
use sigame_server.Buzzer.Run.Effect.{Countable, Named}
use sigame_server.Buzzer.Settings.{Mode, Settings}
use sigame_server.Buzzer.Decide.{pids}
use sigame_server.Buzzer.Run.{Call, run, step}
use sigame_server.Buzzer.Run.Sound.{Distinct, Marked, Sound, step-Sound}

-- The place is in the list, and holds the player of that name.
abbrev Placed : String → Option ℕ → List ArmPlayer → Type 0
Placed id none ps = Unit
Placed id (some i) ps = (i < length ps) × Named id (get_elem? ps i)

get_elem?-append :
    (ps : List ArmPlayer) (p : ArmPlayer) (i : ℕ)
    → i < length ps
    → get_elem? (ps ++ p ∷ []) i ≡ get_elem? ps i
get_elem?-append [] p i h = ground arith
get_elem?-append (q ∷ ps) p zero h = refl
get_elem?-append (q ∷ ps) p (suc i) h = get_elem?-append ps p i (omega (arith, h))

get_elem?-last :
    (ps : List ArmPlayer) (p : ArmPlayer) → get_elem? (ps ++ p ∷ []) (length ps) ≡ some p
get_elem?-last [] p = refl
get_elem?-last (q ∷ ps) p = get_elem?-last ps p

Placed-append :
    (id : String) (o : Option ℕ) (ps : List ArmPlayer) (p : ArmPlayer)
    → Placed id o ps
    → Placed id o (ps ++ p ∷ [])
Placed-append id none ps p h = tt
Placed-append id (some i) ps p h = (
  ground (arith, h.0, length-append ps (p ∷ [])),
  subst (Named id) (sym (get_elem?-append ps p i (h.0))) (h.1),
)

Placed-last : (ps : List ArmPlayer) (p : ArmPlayer) → Placed p.id (some (length ps)) (ps ++ p ∷ [])
Placed-last ps p =
    (ground (arith, length-append ps (p ∷ [])), subst (Named p.id) (sym (get_elem?-last ps p)) refl)

-- Every name leads to a place.
AllPlaced : Arm → Type 0
AllPlaced a = (id : String) → Placed id (lookup id a.by_id) a.players

Placed-insert :
    (a : Arm) (p : ArmPlayer) (id : String)
    → AllPlaced a
    → Placed id (lookup id (insert p.id (length a.players) a.by_id)) (a.players ++ p ∷ [])
unfolding AllPlaced
Placed-insert a p id h =
    subst (λ o. Placed id o (a.players ++ p ∷ []))
      (sym (lookup-insert p.id id (length a.players) a.by_id))
      (by_name (p.id == id) (Bool-cases (p.id == id)) (string_eq.same_iff p.id id))
  where
    by_name :
        (b : Bool)
        → ((p.id == id) ≡ true) ⊎ ((p.id == id) ≡ false)
        → ((p.id == id) ≡ true) ↔ (p.id ≡ id)
        → Placed id
            (if p.id == id then some (length a.players) else lookup id a.by_id)
            (a.players ++ p ∷ [])
    by_name b (inl q) iff =
        subst
          (λ c.
            Placed id (if c then some (length a.players) else lookup id a.by_id)
              (a.players ++ p ∷ []))
          (sym q)
          (subst (λ n. Placed n (some (length a.players)) (a.players ++ p ∷ [])) (iff.0 q)
            (Placed-last a.players p))
    by_name b (inr q) iff =
        subst
          (λ c.
            Placed id (if c then some (length a.players) else lookup id a.by_id)
              (a.players ++ p ∷ []))
          (sym q) (Placed-append id (lookup id a.by_id) a.players p (h id))

Placed-Named :
    (id : String) (o : Option ℕ) (ps : List ArmPlayer) → Placed id o ps → Named id (player_at o ps)
Placed-Named id none ps h = tt
Placed-Named id (some i) ps h = h.1

module _ ⦃fl : Floats⦄ where
  -- An arm without presses whose players have their places.
  Fresh : Session × Float64 → Type 0
  Fresh acc = AllPlaced (acc.0.arm) × (acc.0.arm.presses ≡ [])

  if-Fresh : (b : Bool) (x y : Session × Float64) → Fresh x → Fresh y → Fresh (if b then x else y)
  if-Fresh true x y h k = h
  if-Fresh false x y h k = k

  enlist-Fresh :
      (now : Float64) (p : Player) (acc : Session × Float64) → Fresh acc → Fresh (enlist now p acc)
  unfolding enlist Fresh AllPlaced
  enlist-Fresh now p (ss, drain) h =
      if-Fresh (not p.eligible) _ _ h (λ id. Placed-insert ss.arm _ id (h.0), h.1)

  enlist_all-Fresh :
      (now : Float64) (ps : List Player) (acc : Session × Float64)
      → Fresh acc
      → Fresh (enlist_all now ps acc)
  unfolding enlist_all
  enlist_all-Fresh now [] acc h = h
  enlist_all-Fresh now (p ∷ ps) acc h =
      enlist_all-Fresh now ps (enlist now p acc) (enlist-Fresh now p acc h)

  Fresh-Sound : (a : Arm) → AllPlaced a → a.presses ≡ [] → Sound a
  unfolding AllPlaced player_of
  Fresh-Sound a h p = (
    λ id. Placed-Named id (lookup id a.by_id) a.players (h id),
    subst (Marked a) (sym p) tt,
    subst (λ prs. Distinct (pids prs)) (sym p) tt,
    subst (All (Countable a)) (sym p) tt,
  )

  open_mode-Sound : (mode : Mode) (now : Float64) (a : Arm) → Sound a → Sound (open_mode mode now a)
  unfolding player_of
  open_mode-Sound Mode.anchored_hybrid now a h = h
  open_mode-Sound Mode.server_arrival now a h = h
  open_mode-Sound Mode.random_window now a h = h
  open_mode-Sound Mode.client_reaction now a h = h
  open_mode-Sound Mode.written_all now a h = h
  open_mode-Sound Mode.unknown now a h = h

  opening-Fresh :
      (now read_end : Float64) (s : Settings) (seed : String) (conns : Store)
      → Fresh (opening now read_end s seed conns)
  unfolding Fresh AllPlaced blank_arm lookup
  opening-Fresh now read_end s seed conns = (λ id. tt, refl)

  new_arm-Sound :
      (now read_end : Float64) (ps : List Player) (s : Settings) (seed : String) (conns : Store)
      → Sound ((new_arm now read_end ps s seed conns).arm)
  unfolding new_arm Fresh AllPlaced player_of
  new_arm-Sound now read_end ps s seed conns =
      let used = if seed == "" then fl.default_seed now else seed in
      let fresh =
        enlist_all-Fresh now ps (opening now read_end s used conns)
          (opening-Fresh now read_end s used conns) in
      open_mode-Sound s.mode now _ (
        Fresh-Sound ((enlist_all now ps (opening now read_end s used conns)).0.arm) (fresh.0)
          (fresh.1))

  run-Sound : (cs : List Call) (ss : Session) → Sound ss.arm → Sound ((run cs ss).arm)
  run-Sound [] ss h = h
  run-Sound (c ∷ cs) ss h = run-Sound cs (step c ss) (step-Sound c ss h)

  -- Whatever calls the room makes on a new arm, in whatever order and at whatever times: a player
  -- is found under the own name, the presses that count belong to different players, all marked as
  -- having pressed, none of these presses is timed after the disarming, and in the anchored modes
  -- none has a reaction below the human floor.
  pub run-new_arm :
      (now read_end : Float64) (ps : List Player) (s : Settings) (seed : String) (conns : Store)
      (cs : List Call)
      → Sound ((run cs (new_arm now read_end ps s seed conns)).arm)
  run-new_arm now read_end ps s seed conns cs =
      run-Sound cs (new_arm now read_end ps s seed conns)
        (new_arm-Sound now read_end ps s seed conns)

-- ===== src/Engine/Control/Undo.antt =====
-- internal/engine/engine.go, `returnQuestionToTable`: the score changes that are taken back.
use sigame_server.Prelude.{
  Bool, Bool-cases, IsInt64, List, Option, String, [], add64, ap, arith, eq_of_parts, false,
  if◌then◌else◌, inl, inr, int64, int64-IsInt64, int_eq, neg64, none, not, pos, refl, some,
  string_eq, sym, true, ℤ, ◌&&◌, ◌+ℤ◌, ◌-ℤ◌, ◌==◌, ◌||◌, ◌∙◌, ◌∷◌, ◌≡◌,
}
use text.Mathlib.TextEquality.{eq_iff}
use sigame_server.Engine.State.{Outcome, Player, State, player}
use sigame_server.Engine.Game.{Game, add_score, score_of}
use sigame_server.Engine.Score.Ledger.{
  HasId, add64_zero, find_first-HasId, gain, mapped, player-add_score, score,
}
use sigame_server.Engine.Control.{undo_outcome, undo_scores}

-- A score after the outcome is taken back: the delta is subtracted from the score of its player.
abbrev pub without : String → Outcome → ℤ → ℤ
without id o s = if o.person_id == id && not o.reverted then add64 s (neg64 o.delta) else s

abbrev pub without_all : String → List Outcome → ℤ → ℤ
without_all id [] s = s
without_all id (o ∷ os) s = without_all id os (without id o s)

-- A player on record with this score, which is in the range of the integers.
abbrev Holds : String → ℤ → Game → Type 0
Holds id s g = (p : Player) × ((player g.st id ≡ some p) × ((p.score ≡ s) × IsInt64 s))

without-IsInt64 : (id : String) (o : Outcome) (s : ℤ) → IsInt64 s → IsInt64 (without id o s)
without-IsInt64 id o s h = by_test (o.person_id == id && not o.reverted)
  where
    by_test : (b : Bool) → IsInt64 (if b then add64 s (neg64 o.delta) else s)
    by_test true = int64-IsInt64 (s +ℤ neg64 o.delta)
    by_test false = h

neg64_zero : neg64 (pos 0) ≡ pos 0
unfolding ◌-ℤ◌ int64
neg64_zero = refl

without_zero :
    (id : String) (o : Outcome) (s : ℤ) → IsInt64 s → o.delta ≡ pos 0 → without id o s ≡ s
without_zero id o s h e = by_test (o.person_id == id && not o.reverted)
  where
    by_test : (b : Bool) → (if b then add64 s (neg64 o.delta) else s) ≡ s
    by_test true = ap (λ d. add64 s d) (ap neg64 e ∙ neg64_zero) ∙ add64_zero s h
    by_test false = refl

without_reverted : (id : String) (o : Outcome) (s : ℤ) → o.reverted ≡ true → without id o s ≡ s
without_reverted id o s e = ground (arith, e)

without_same :
    (id : String) (o : Outcome) (s : ℤ)
    → IsInt64 s
    → (o.reverted || o.delta == pos 0) ≡ true
    → s ≡ without id o s
without_same id o s h e = elim (Bool-cases o.reverted) [
  | inl r ↦ sym (without_reverted id o s r)
  | inr r ↦ sym (without_zero id o s h (eq_of_parts o.delta (pos 0) (ground (arith, r, e))))
]

without_other :
    (id : String) (o : Outcome) (s : ℤ) → (o.person_id == id) ≡ false → s ≡ without id o s
without_other id o s e = ground (arith, e)

without_own :
    (id : String) (o : Outcome) (s : ℤ)
    → (o.person_id == id) ≡ true
    → o.reverted ≡ false
    → add64 s (neg64 o.delta) ≡ without id o s
without_own id o s e r = ground (arith, e, r)

player-correction :
    (id : String) (d : ℤ) (g : Game) (j : String)
    → player ((add_score id d "correction" g).st) j
      ≡ (if j == id then mapped (gain d) (player g.st j) else player g.st j)
player-correction id d g j = player-add_score id d "correction" g j ∙ ground arith

Holds-correction :
    (id : String) (o : Outcome) (q : Player) (s : ℤ) (g : Game)
    → o.reverted ≡ false
    → q.id ≡ o.person_id
    → Holds id s g
    → Holds id (without id o s) (add_score q.id (neg64 o.delta) "correction" g)
Holds-correction id o q s g r e (p, (h, (hs, hr))) = by_test (id == q.id) refl
  where
    d : ℤ
    d = neg64 o.delta

    by_test :
        (b : Bool) → (id == q.id) ≡ b → Holds id (without id o s) (add_score q.id d "correction" g)
    by_test true t = (
      gain d p,
      (
        player-correction q.id d g id
            ∙ (ap (λ b. if b then mapped (gain d) (player g.st id) else player g.st id) t
                ∙ ap (mapped (gain d)) h),
        (
          ap (λ x. add64 x d) hs
              ∙ without_own id o s (ground (arith, t, e, eq_iff id q.id, eq_iff o.person_id id)) r,
          without-IsInt64 id o s hr,
        ),
      ),
    )
    by_test false t = (
      p,
      (
        player-correction q.id d g id
            ∙ (ap (λ b. if b then mapped (gain d) (player g.st id) else player g.st id) t ∙ h),
        (
          hs ∙ without_other id o s (ground (arith, t, e, eq_iff id q.id, eq_iff o.person_id id)),
          without-IsInt64 id o s hr,
        ),
      ),
    )

clash : (p : Player) → none ≡ some p → (b : Bool) → b ≡ false
clash p h b = ground (arith, h)

absent-other :
    (a id : String) (g : Game) (p : Player)
    → player g.st a ≡ none
    → player g.st id ≡ some p
    → (a == id) ≡ false
absent-other a id g p n h = elim (Bool-cases (a == id)) [
  | inl e ↦ clash p (sym n ∙ (ap (λ x. player g.st x) ((eq_iff a id).0 e) ∙ h)) (a == id)
  | inr e ↦ e
]

player-HasId : (id : String) (s : State) → HasId id (player s id)
unfolding player
player-HasId id s = find_first-HasId id s.players

Holds-undo :
    (id : String) (o : Outcome) (s : ℤ) (g : Game)
    → Holds id s g
    → Holds id (without id o s) (undo_outcome o g)
unfolding undo_outcome
Holds-undo id o s g (p, (h, (hs, hr))) = by_test (o.reverted || o.delta == pos 0) refl
  where
    by_player :
        (t : Option Player)
        → player g.st o.person_id ≡ t
        → HasId o.person_id t
        → o.reverted ≡ false
        → Holds id
            (without id o s)
            (elim t [ none ↦ g | some q ↦ add_score q.id (neg64 o.delta) "correction" g ])
    by_player none e i r = (
      p,
      (
        h,
        (
          hs ∙ without_other id o s (absent-other o.person_id id g p e h),
          without-IsInt64 id o s hr,
        ),
      ),
    )
    by_player (some q) e i r = Holds-correction id o q s g r i (p, (h, (hs, hr)))

    by_test :
        (b : Bool)
        → (o.reverted || o.delta == pos 0) ≡ b
        → Holds id (without id o s) (
            if b then g else elim (player g.st o.person_id) [
              | none ↦ g
              | some q ↦ add_score q.id (neg64 o.delta) "correction" g
            ])
    by_test true e = (p, (h, (hs ∙ without_same id o s hr e, without-IsInt64 id o s hr)))
    by_test false e =
        by_player (player g.st o.person_id) refl (player-HasId o.person_id g.st) (ground (arith, e))

Holds-undo_scores :
    (id : String) (os : List Outcome) (s : ℤ) (g : Game)
    → Holds id s g
    → Holds id (without_all id os s) (undo_scores os g)
unfolding undo_scores
Holds-undo_scores id [] s g h = h
Holds-undo_scores id (o ∷ os) s g h =
    Holds-undo_scores id os (without id o s) (undo_outcome o g) (Holds-undo id o s g h)

-- For a player on record, whose score is in the range of the integers, taking outcomes back
-- subtracts the delta of each of that player's outcomes that is not reverted, one after the other,
-- and the outcomes of other players change nothing.
pub undo_scores-without :
    (id : String) (os : List Outcome) (g : Game) (p : Player)
    → player g.st id ≡ some p
    → IsInt64 p.score
    → score (undo_scores os g) id ≡ without_all id os p.score
undo_scores-without id os g p h r = of_Holds (Holds-undo_scores id os p.score g (p, (h, (refl, r))))
  where
    of_Holds :
        Holds id (without_all id os p.score) (undo_scores os g)
        → score (undo_scores os g) id ≡ without_all id os p.score
    of_Holds (q, (e, (s, i))) = ap score_of e ∙ s

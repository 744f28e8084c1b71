-- ===== src/Engine/Snapshot/Hiding.antt =====
-- internal/engine/snapshot.go: what a view keeps from those who are not the showman.
use sigame_server.Prelude.{
  All, Bool, Dict, List, Option, String, [], ap, arith, elem, false, if◌then◌else◌, inl, inr, none,
  refl, some, string_eq, sym, take, true, ◌&&◌, ◌==◌, ◌||◌, ◌∙◌, ◌∷◌, ◌≡◌, ◌⊎◌,
}
use sigame_server.Pack.{ContentItem}
use sigame_server.Engine.Kinds.{Role, Stage, stage_eq}
use sigame_server.Engine.State.{Player, QuestionState, State, player}
use sigame_server.Engine.Game.{Game, player_infos, scores, table_payload}
use sigame_server.Engine.Table.{pack_question, sequential}
use sigame_server.Engine.Score.{eligible_ids}
use sigame_server.Engine.Answer.{answer_duration, is_answerer}
use sigame_server.Engine.Snapshot.{
  RightAnswer, Snapshot, add_entry, add_question, is_revealed, is_showman, is_visible,
  question_view, right_answer_view, snapshot, table_view, visible_of, when, with_question_view,
}

-- The same question with another secret: the right and wrong answers, the items of the answer and
-- the comments.
abbrev pub with_secret :
    List String → List String → List ContentItem → String → QuestionState → QuestionState
with_secret rights wrongs items comments q = record q {
  rights = rights;
  wrongs = wrongs;
  answer_items = items;
  comments = comments;
}

-- The game with this question, and without an appeal.
abbrev pub asking : QuestionState → Game → Game
asking q g = record g { st = record (g.st) { question = some q; appeal = none } }

hidden_right : (b : Bool) (x y : RightAnswer) → b ≡ false → when b x ≡ when b y
hidden_right true x y h = ground arith
hidden_right false x y h = refl

-- The view of someone who is not the showman, as a function of the right answer in it.
view_with : Role → String → QuestionState → Game → Option RightAnswer → Bool → Snapshot
unfolding with_question_view table_view
view_with role person q g right asked =
    if asked
    then record (with_question_view role person q (asking q g)
        (table_view role person (asking q g))) {
          ask_validate = none;
          question = some (record (question_view role person q (asking q g)) {
            right_answer = right;
            rights = [];
            wrongs = [];
          });
        }
    else table_view role person (asking q g)

view_of :
    (role : Role) (person : String) (rs ws : List String) (items : List ContentItem) (c : String)
    (q : QuestionState) (g : Game)
    → is_showman role ≡ false
    → snapshot role person (asking (with_secret rs ws items c q) g)
      ≡ view_with role person q g
          (right_answer_view (with_secret rs ws items c q))
          (g.st.stage == Stage.question)
unfolding snapshot view_with add_question table_view with_question_view question_view eligible_ids
    is_answerer answer_duration player player_infos scores table_payload sequential pack_question
view_of role person rs ws items c q g h = by_role role h (g.st.stage == Stage.question)
  where
    by_role :
        (role : Role)
        → is_showman role ≡ false
        → (b : Bool)
        → (if b
            then with_question_view role person
                (with_secret rs ws items c q)
                (asking (with_secret rs ws items c q) g)
                (table_view role person (asking (with_secret rs ws items c q) g))
            else table_view role person (asking (with_secret rs ws items c q) g))
          ≡ view_with role person q g (right_answer_view (with_secret rs ws items c q)) b
    by_role Role.showman h b = ground arith
    by_role Role.player h true = refl
    by_role Role.player h false = refl
    by_role Role.viewer h true = refl
    by_role Role.viewer h false = refl
    by_role Role.system h true = refl
    by_role Role.system h false = refl

-- In a game without an appeal, and until the answer is revealed, the view of anyone but the showman
-- is the same whatever the right and wrong answers, the items of the answer and the comments are.
pub snapshot-secret :
    (role : Role) (person : String) (q : QuestionState) (g : Game)
    (rights wrongs rights2 wrongs2 : List String) (items items2 : List ContentItem)
    (comments comments2 : String)
    → is_showman role ≡ false
    → is_revealed q.sub ≡ false
    → snapshot role person (asking (with_secret rights wrongs items comments q) g)
      ≡ snapshot role person (asking (with_secret rights2 wrongs2 items2 comments2 q) g)
unfolding right_answer_view
snapshot-secret role person q g rs ws rs2 ws2 items items2 c c2 h k =
    view_of role person rs ws items c q g h
    ∙ ap (λ o. view_with role person q g o (g.st.stage == Stage.question))
        (hidden_right (is_revealed q.sub) _ _ k)
    ∙ sym (view_of role person rs2 ws2 items2 c2 q g h)

-- A person sees what is hidden of a player as the showman, as that player, or once the player's
-- turn in the reveal has come: the first `reveal_idx` answerers have had theirs.
abbrev pub MaySee : Role → String → QuestionState → String → Type 0
MaySee role person q id =
    (role ≡ Role.showman) ⊎ (id ≡ person) ⊎ (elem id (take q.reveal_idx q.answerers) ≡ true)

-- The entry is of a player of the game, with the value that the player has, and the person may see
-- it.
abbrev pub Allowed {ℓ} :
    {V : Type ℓ}
    → Role
    → String
    → QuestionState
    → State
    → (Player → Bool)
    → (Player → V)
    → String × V
    → Type ℓ
Allowed role person q st test value (id, v) =
    MaySee role person q id
    × ((p : Player) × ((player st id ≡ some p) × ((test p ≡ true) × (v ≡ value p))))

is_showman-eq : (role : Role) → is_showman role ≡ true → role ≡ Role.showman
is_showman-eq Role.showman h = refl
is_showman-eq Role.player h = ground arith
is_showman-eq Role.viewer h = ground arith
is_showman-eq Role.system h = ground arith

is_visible-MaySee :
    (role : Role) (person : String) (q : QuestionState) (id : String)
    → is_visible role person q id ≡ true
    → MaySee role person q id
is_visible-MaySee role person q id h = by_role (is_showman role) (id == person) refl refl h
  where
    by_role :
        (b c : Bool)
        → is_showman role ≡ b
        → (id == person) ≡ c
        → (b || c || elem id (take q.reveal_idx q.answerers)) ≡ true
        → MaySee role person q id
    by_role true c k e h = inl (is_showman-eq role k)
    by_role false true k e h = inr (inl ((string_eq.same_iff id person).0 e))
    by_role false false k e h = inr (inr h)

module _ {ℓ} {V : Type ℓ} (role : Role) (person : String) (q : QuestionState) (st : State)
    (test : Player → Bool) (value : Player → V) where
  add_entry-Allowed :
      (id : String) (o : Option Player) (rest : Dict V)
      → player st id ≡ o
      → All (Allowed role person q st test value) rest
      → All (Allowed role person q st test value) (add_entry role person q test value id o rest)
  add_entry-Allowed id none rest e h = h
  add_entry-Allowed id (some p) rest e h = by_test (test p) (is_visible role person q id) refl refl
    where
      by_test :
          (b v : Bool)
          → test p ≡ b
          → is_visible role person q id ≡ v
          → All
              (Allowed role person q st test value)
              (if b && v then (id, value p) ∷ rest else rest)
      by_test true true t k = ((is_visible-MaySee role person q id k, (p, (e, (t, refl)))), h)
      by_test true false t k = h
      by_test false v t k = h

  visible_of-Allowed :
      (ids : List String)
      → All (Allowed role person q st test value) (visible_of role person q test value st ids)
  unfolding visible_of
  visible_of-Allowed [] = tt
  visible_of-Allowed (id ∷ others) =
      add_entry-Allowed id (player st id) (visible_of role person q test value st others) refl
        (visible_of-Allowed others)

  if-Allowed :
      (b : Bool) (xs : Dict V)
      → All (Allowed role person q st test value) xs
      → All (Allowed role person q st test value) (if b then xs else [])
  if-Allowed true xs h = h
  if-Allowed false xs h = tt

-- Every hidden stake and every hidden answer in a view is that of a player of the game who has made
-- it, and the view is that of the showman, or of this player, or the player is among the first
-- answerers, as many as are revealed.
pub question_view-Allowed :
    (role : Role) (person : String) (q : QuestionState) (g : Game)
    → All
        (Allowed role person q g.st (λ p. p.stake_made) (λ p. p.stake))
        ((question_view role person q g).hidden_stakes)
      × All
          (Allowed role person q g.st (λ p. p.answered) (λ p. p.answer))
          ((question_view role person q g).hidden_answers)
unfolding question_view
question_view-Allowed role person q g = (
  if-Allowed role person q g.st (λ p. p.stake_made) (λ p. p.stake) (q.hidden && q.hidden_all) _
      (visible_of-Allowed role person q g.st (λ p. p.stake_made) (λ p. p.stake) q.answerers),
  if-Allowed role person q g.st (λ p. p.answered) (λ p. p.answer) q.hidden _
      (visible_of-Allowed role person q g.st (λ p. p.answered) (λ p. p.answer) q.answerers),
)

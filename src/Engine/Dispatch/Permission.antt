-- ===== src/Engine/Dispatch/Permission.antt =====
-- internal/engine/engine.go, `requireShowman`: the commands that only the showman or the host may send.
use sigame_server.Prelude.{
  Bool, Bool-cases, [], ap, arith, false, if◌then◌else◌, inl, inr, not, refl, subst, sym, true,
  ◌||◌, ◌≡◌,
}
use sigame_server.Engine.Command.{Actor, CmdType, Command}
use sigame_server.Engine.Kinds.{Error}
use sigame_server.Engine.Tail.{Tail}
use sigame_server.Engine.Game.{Game}
use sigame_server.Engine.Monad.{M, Reply, guard, is_showman_or_host, require_showman, ◌>>◌}
use sigame_server.Engine.Flow.{on_start}
use sigame_server.Engine.Control.{on_move, on_next, on_pause}
use sigame_server.Engine.Showman.{on_change_score, on_set_chooser, on_set_options, on_toggle}
use sigame_server.Engine.Dispatch.{dispatch, dispatch_running, handle, is_seat_command, receive}

-- The commands of the showman's controls.
abbrev pub is_control : CmdType → Bool
is_control CmdType.start = true
is_control CmdType.showman_pause = true
is_control CmdType.move = true
is_control CmdType.toggle = true
is_control CmdType.change_score = true
is_control CmdType.set_chooser = true
is_control CmdType.set_options = true
is_control CmdType.next = true
is_control _ = false

-- The command is refused, and the game is as it was.
abbrev pub Denied : Game → Reply Tail → Type 0
Denied g (Reply.ok t g') = false ≡ true
Denied g (Reply.err e g') = g' ≡ g

Denied-showman :
    (a : Actor) (k : M Tail) (g : Game)
    → is_showman_or_host a ≡ false
    → Denied g ((require_showman a >> k) g)
unfolding require_showman
Denied-showman a k g h =
    subst
      (λ b. Denied g (elim (if b then Reply.ok tt g else Reply.err Error.not_allowed g) [
        | Reply.ok u g' ↦ k g'
        | Reply.err e g' ↦ Reply.err e g'
      ]))
      (sym h) refl

handle-Denied :
    (t : CmdType) (cmd : Command) (g : Game)
    → is_control t ≡ true
    → is_showman_or_host cmd.actor ≡ false
    → Denied g (handle t cmd g)
unfolding handle on_start on_pause on_move on_toggle on_change_score on_set_chooser on_set_options
    on_next
handle-Denied CmdType.start cmd g c h = Denied-showman cmd.actor _ g h
handle-Denied CmdType.showman_pause cmd g c h = Denied-showman cmd.actor _ g h
handle-Denied CmdType.move cmd g c h = Denied-showman cmd.actor _ g h
handle-Denied CmdType.toggle cmd g c h = Denied-showman cmd.actor _ g h
handle-Denied CmdType.change_score cmd g c h = Denied-showman cmd.actor _ g h
handle-Denied CmdType.set_chooser cmd g c h = Denied-showman cmd.actor _ g h
handle-Denied CmdType.set_options cmd g c h = Denied-showman cmd.actor _ g h
handle-Denied CmdType.next cmd g c h = Denied-showman cmd.actor _ g h
handle-Denied t cmd g c h = ground arith

Denied-guard :
    (b : Bool) (e : Error) (k : M Tail) (g : Game) → Denied g (k g) → Denied g ((guard b e >> k) g)
Denied-guard true e k g h = h
Denied-guard false e k g h = refl

-- A command of the showman's controls from an actor that is neither the showman nor the host is
-- refused, and nothing changes but the clock and the events, which are cleared.
pub receive-Denied :
    (cmd : Command) (g : Game)
    → is_control cmd.type ≡ true
    → is_showman_or_host cmd.actor ≡ false
    → Denied (record g { ev = []; now = cmd.at_ms }) (receive cmd g)
unfolding receive dispatch
receive-Denied cmd g c h =
    Denied-guard (not g.st.ended || is_seat_command cmd.type) Error.bad_state (handle cmd.type cmd)
      started (handle-Denied cmd.type cmd started c h)
  where
    started : Game
    started = record g { ev = []; now = cmd.at_ms }

-- The commands by which the players and the showman play a question.
abbrev pub is_play : CmdType → Bool
is_play CmdType.choose_question = true
is_play CmdType.pass = true
is_play CmdType.answer = true
is_play CmdType.answer_draft = true
is_play CmdType.validate = true
is_play CmdType.select_player = true
is_play CmdType.set_stake = true
is_play CmdType.delete_theme = true
is_play CmdType.appellate = true
is_play CmdType.vote_appeal = true
is_play _ = false

Denied-closed :
    (b : Bool) (e : Error) (k : M Tail) (g : Game) → b ≡ false → Denied g ((guard b e >> k) g)
Denied-closed true e k g h = ground arith
Denied-closed false e k g h = refl

handle-Held :
    (t : CmdType) (cmd : Command) (g : Game)
    → is_play t ≡ true
    → g.st.paused ≡ true
    → Denied g (handle t cmd g)
unfolding handle
handle-Held CmdType.choose_question cmd g c h =
    Denied-closed (not g.st.paused) Error.bad_state (dispatch_running CmdType.choose_question cmd) g
      (ap not h)
handle-Held CmdType.pass cmd g c h =
    Denied-closed (not g.st.paused) Error.bad_state (dispatch_running CmdType.pass cmd) g (ap not h)
handle-Held CmdType.answer cmd g c h =
    Denied-closed (not g.st.paused) Error.bad_state (dispatch_running CmdType.answer cmd) g
      (ap not h)
handle-Held CmdType.answer_draft cmd g c h =
    Denied-closed (not g.st.paused) Error.bad_state (dispatch_running CmdType.answer_draft cmd) g
      (ap not h)
handle-Held CmdType.validate cmd g c h =
    Denied-closed (not g.st.paused) Error.bad_state (dispatch_running CmdType.validate cmd) g
      (ap not h)
handle-Held CmdType.select_player cmd g c h =
    Denied-closed (not g.st.paused) Error.bad_state (dispatch_running CmdType.select_player cmd) g
      (ap not h)
handle-Held CmdType.set_stake cmd g c h =
    Denied-closed (not g.st.paused) Error.bad_state (dispatch_running CmdType.set_stake cmd) g
      (ap not h)
handle-Held CmdType.delete_theme cmd g c h =
    Denied-closed (not g.st.paused) Error.bad_state (dispatch_running CmdType.delete_theme cmd) g
      (ap not h)
handle-Held CmdType.appellate cmd g c h =
    Denied-closed (not g.st.paused) Error.bad_state (dispatch_running CmdType.appellate cmd) g
      (ap not h)
handle-Held CmdType.vote_appeal cmd g c h =
    Denied-closed (not g.st.paused) Error.bad_state (dispatch_running CmdType.vote_appeal cmd) g
      (ap not h)
handle-Held t cmd g c h = ground arith

play_no_seat : (t : CmdType) → is_play t ≡ true → is_seat_command t ≡ false
play_no_seat t h = ground arith

-- While the game is paused, and once it has ended, a command that plays a question is refused, and
-- nothing changes but the clock and the events, which are cleared.
pub receive-Held :
    (cmd : Command) (g : Game)
    → is_play cmd.type ≡ true
    → (g.st.ended || g.st.paused) ≡ true
    → Denied (record g { ev = []; now = cmd.at_ms }) (receive cmd g)
unfolding receive dispatch
receive-Held cmd g c h = elim (Bool-cases g.st.ended) [
  | inl e ↦
      Denied-closed (not g.st.ended || is_seat_command cmd.type) Error.bad_state
        (handle cmd.type cmd) started (ground (arith, e, play_no_seat cmd.type c))
  | inr e ↦
      Denied-guard (not g.st.ended || is_seat_command cmd.type) Error.bad_state
        (handle cmd.type cmd) started (handle-Held cmd.type cmd started c (ground (arith, e, h)))
]
  where
    started : Game
    started = record g { ev = []; now = cmd.at_ms }

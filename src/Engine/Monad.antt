-- ===== src/Engine/Monad.antt =====
-- A command handler of internal/engine: it changes the game and may refuse. On a refusal the game is
-- kept as the handler left it, so that what a failed command changes can be stated.
use sigame_server.Prelude.{
  Bool, Option, String, if◌then◌else◌, none, not, some, string_eq, ◌&&◌, ◌==◌, ◌||◌,
}
use sigame_server.Engine.Kinds.{Error, Role, role_eq}
use sigame_server.Engine.State.{Player, player}
use sigame_server.Engine.Command.{Actor, Command}
use sigame_server.Engine.Game.{Game}

pub data Reply (A : Type 0) : Type 0 where
  ok : A → Game → Reply A
  err : Error → Game → Reply A

abbrev pub M : Type 0 → Type 0
M A = Game → Reply A

infixl 5 ◌>>=◌ ◌>>◌
abbrev pub ◌>>=◌ : {A B : Type 0} → M A → (A → M B) → M B
◌>>=◌ m f g = elim (m g) [ Reply.ok a g' ↦ f a g' | Reply.err e g' ↦ Reply.err e g' ]

abbrev pub ◌>>◌ : {B : Type 0} → M (Unit {0}) → M B → M B
m >> k = m >>= λ _. k

abbrev pub pure : {A : Type 0} → A → M A
pure a g = Reply.ok a g

abbrev pub fail : {A : Type 0} → Error → M A
fail e g = Reply.err e g

abbrev pub get : M Game
get g = Reply.ok g g

-- A call of a method that cannot fail.
abbrev pub run : (Game → Game) → M (Unit {0})
run f g = Reply.ok tt (f g)

-- `if !b { return e }`
abbrev pub guard : Bool → Error → M (Unit {0})
guard b e g = if b then Reply.ok tt g else Reply.err e g

-- `if x == nil { return e }`
abbrev pub or_fail : {A : Type 0} → Option A → Error → M A
or_fail none e g = Reply.err e g
or_fail (some a) e g = Reply.ok a g

abbrev pub is_showman_or_host : Actor → Bool
is_showman_or_host a = a.role == Role.showman || a.is_host

unfoldable pub require_showman : Actor → M (Unit {0})
require_showman a g = if is_showman_or_host a then Reply.ok tt g else Reply.err Error.not_allowed g

unfoldable pub require_system : Actor → M (Unit {0})
require_system a g = if a.role == Role.system then Reply.ok tt g else Reply.err Error.not_allowed g

unfoldable pub player_actor : Actor → M Player
player_actor a = do
  guard (a.role == Role.player) Error.not_allowed
  g ← get
  p ← or_fail (player g.st a.person_id) Error.not_allowed
  guard (not p.kicked) Error.not_allowed
  pure p

-- The player that a command acts for: the sender, or, in an oral game, whom the showman names.
unfoldable pub acting_player : Command → String → M Player
unfolding player_actor
acting_player cmd expected = do
  g ← get
  if cmd.actor.role == Role.showman && g.st.rules.oral
      then or_fail (player g.st (if cmd.person_id == "" then expected else cmd.person_id))
          Error.bad_argument
      else player_actor cmd.actor

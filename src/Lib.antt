-- ===== src/Lib.antt =====
-- The game core of the SIGame server: a quiz game of a showman and up to twelve players.
--
-- The program. A room (internal/room) owns a game and feeds it commands; the game core
-- (internal/engine) is a deterministic state machine that turns a command into a new state and a list
-- of events; the room sends the events on, and starts and stops real timers by them. A pack
-- (internal/packs) holds the rounds, themes and questions that the core reads. The arbitration of
-- the button (internal/buzzer) decides which of the players who pressed was first: it measures the
-- delay of every connection, corrects the press times that clients claim, distrusts clients whose
-- claims do not fit, and draws lots where times are too close. This library models the whole of the
-- game core, the whole of the arbitration, and of the packs their checks, identifiers, canonical
-- form and summary.
--
-- The files.
--   Prelude          tests, lists, Go's 64-bit integers, maps
--   Pack             internal/packs/model.go: the pack
--   Engine/Rules, Kinds, State, Command, Event
--                    internal/engine/rules.go, state.go, command.go, event.go: the data
--   Engine/Game      engine.go: the game, emission, addScore, setChooser
--   Engine/Timers    engine.go: the timers
--   Engine/Table     engine.go: prices, cells, lowestScorePlayers
--   Engine/Monad     engine.go: requireShowman, playerActor, actingPlayer, and refusals
--   Engine/Tail      the calls by which a function hands over
--   Engine/Score, Content, Answer, Secret, Question, Judge
--                    question.go
--   Engine/Stake     stake.go: the auction
--   Engine/Hidden    hidden.go: questions for all
--   Engine/Final     final.go: the final round
--   Engine/Appeal    appeal.go: appeals
--   Engine/Flow      engine.go: rounds, selection, the end of the game
--   Engine/Control, Showman, Seats, Create, Input
--                    engine.go, question.go, stake.go: the handlers of commands
--   Engine/Dispatch  engine.go: onTimeout, dispatch, Apply
--   Engine/Snapshot  snapshot.go: what a role is shown of the game
--   Buzzer/Floats, Settings, Constants, Ring, Stats
--                    internal/buzzer/rng.go, settings.go, conn.go: numbers, settings, ring buffers
--   Buzzer/Conn, Trust, Clock, Sync
--                    conn.go: a connection, its trust and the clock of its client
--   Buzzer/Arm, Press, Collect, Decide, Run
--                    arm.go: an arm, the score of a press, the collection of presses, the decision,
--                    and all calls on an arm in any order
--   Packs/Model, Validate, Question, Rounds
--                    internal/packs/model.go, errors.go, validate.go: a pack as it comes in and its
--                    checks; Packs/Texts has the functions on texts that they call
--   Packs/Ids, Normalize, Summary
--                    ids.go, normalize.go, summary.go
-- Folders below these hold the rest of a part and what is proved of it: Answer/Button the button,
-- Appeal/Result an upheld appeal and the tally, Content/Reveal the end of a question, Hidden/Answers the hidden
-- answers, Stake/Bids the bids, Final/Deletion the deletions, Input/Replies answers and stakes, and
-- Flow/Ending the end of a round and of the game. Engine/Samples has a sample game, and
-- Engine/Tests applies the statements to it; Buzzer/Tests and Packs/Tests do so for the others.
--
-- How the code is read. A method that changes the game is a function from game to game; a name is
-- that of the source in snake case. A handler returns a reply: it goes on with a game, or refuses with
-- one of the three errors and the game as it left it; the texts of errors are left out. A player,
-- which the source holds by a pointer, is named by the id; ids are pairwise different. An `int` or
-- `int64` is a 64-bit integer that wraps around, and a count or index that is never negative a natural
-- number. A float64 is its bit pattern. Go's random generator, float64 arithmetic and Unicode functions
-- are the fields of a record, `Host`. A map is an association list. Where the source would fault
-- on a nil question, nothing is done. A timer's id is a pair, where the source joins the two in a
-- text. The arbitration is written over an interface, `Floats`, of the float64 operations and of the
-- keyed hash that lots are drawn by; its connections are a store that calls pass on; a stable sort
-- keeps the order of ties, and the unstable one is a field of `Floats`; flags and counters are
-- natural numbers; scratch buffers are left out. The checks and the canonical form of packs are
-- written over an interface, `Texts`, of functions on texts. The functions of the core call each other in circles, always as the last thing they do;
-- such a call is a value of `Tail`, which `perform` makes and `run_calls` repeats on fuel.
--
-- Fuel. The loop of stakeStep has 20 rounds, enough for every 64-bit price below a tenth of the
-- greatest integer. The loop of the secret prices is given the number of its steps. The loop over
-- the deleters of the final round is given the rounds that the source gives it. No bound is shown
-- for `run_calls`.
--
-- Not modelled: the room, its sessions and stores; the repository of packs, their import and export;
-- the automatic judge; the transport, the media store, the web client and the database. They are
-- input and output for the most part.
mod Prelude
pub mod Pack
pub mod Buzzer
pub mod Packs
pub mod Engine

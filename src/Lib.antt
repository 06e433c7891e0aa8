-- ===== src/Lib.antt =====
-- A model of rallish, a broker that lets coding agents share work, and theorems on it.
--
-- The parts that are modelled, and where:
--   * The ledger (pkg/contract/harness_ledger.go) is a list of entries, each with the hash of the
--     one before it. Contract/Ledger has the entries, Chain has ChainHash and VerifyChain,
--     Contract/Pins has PinGates and GatesTampered, which bind a cycle to its gate commands, and
--     Contract/Turns the entries made of gate reports and of agents' turns.
--     LedgerFile is internal/cycle/ledger.go, the file of lines that holds the ledger: Lines has the
--     reading of lines, Appends and Success one call of Append, History any sequence of calls.
--   * The Merkle tree over the ledger (pkg/contract/merkle.go): Merkle/Tree has the tree hash and
--     the root, Merkle/Inclusion has InclusionProof and VerifyInclusion,
--     Merkle/Consistency has ConsistencyProof. The other files of Merkle
--     are proofs: Powers and Split on the split point, Rfc6962 on the root, Paths on the length of audit paths, Fold
--     and Subtrees on the fold of a proof, Completeness and Soundness on the verifier.
--   * Rally mode: pkg/contract/rally.go and errors.go are Rally/Types; internal/broker/rally.go is
--     Rally/Session (a session, nextParticipant, generateRallyID, toPublic), Rally/Channels (Go
--     channels on a heap), Rally/Store (createRallySession, handleRallyBaton, cleanupStream),
--     Rally/Baton (advanceRallyBaton, handleRallyDone, interruptRallySession, CloseAllRallies) and
--     Rally/System, where the handlers are calls that may come in any order. Rally/Validity and
--     Lifecycle are on single sessions, Open, Uses, Sound, Ending, Joining, Passing and Progress on
--     the channels, Turns, Delivery, RoundRobin, Ids and Patterns on the protocol, Final, Staying and
--     Absorbing on the end of a session.
--   * The cycle: Cycle/Halt has the halt reasons of pkg/contract/cycle.go, Cycle/Reviver is
--     internal/cycle/reviver.go, which reads from the ledger whether a halted cycle may resume
--     (Cycle/Sealing has the proof), Cycle/Stuck is internal/cycle/stuck.go, with Alternation and PingPong on
--     its ping-pong run, and Cycle/Budget is internal/budget/budget.go, whose
--     lifetime ceiling is read from the same ledger. Contract/Phases, CycleState and Requests have the
--     types of pkg/contract/cycle.go and types.go. Cycle/State is internal/cycle/state.go (Violations is on
--     its merge of violations), Cycle/Outcome result.go, Cycle/Pipeline gate.go (Runs has the relation of
--     gates that run one after the other), Cycle/Driver the Step of driver.go (Steps, Reviving and Greens
--     are on it), StateFile is sync.go, and Cycle/Turn with Orchestrator is
--     orchestrator.go: Running and Termination are on
--     its loop, Agents on the choice of the agent, Halts on its halts. The driver and the orchestrator use
--     the interfaces of Cycle/Stores, which Orchestrator/Files fills with the two files.
-- Session/Records is internal/session/stuck.go with the record of session.go (Dryness and Progress are
-- on its dry turns),
-- Session/Store the store of internal/session/session.go (Replays is on its logs),
-- Session/Router internal/router/router.go (Routes is on its answers), and Session/Exit
-- internal/exit/exit.go (Conditions says what each condition means,
-- Decisions and Endings are on the answers). Runner is internal/runner/runner.go
-- (Answers is on what the broker has answered, Rounds on the rounds that keep the loop going).
-- Prelude has the shared notation and lemmas, Hex is encoding/hex, Digest is SHA-256 as an interface,
-- Tests has concrete ledgers, rallies and gate sets.
--
-- How the code is read: a Go string is a list of bytes, an `int` that is never negative is a natural
-- number and any other is an integer without wrap-around (sizes of lists and times in milliseconds
-- stay far below 2^63). A map is an association list. An error is a value of a sum; its message is
-- not kept. The clock, random bytes, the digest and encoding/json's Marshal are arguments. Of the
-- digest only its length is assumed: a theorem that needs more gives a collision among the texts that
-- the program has hashed instead.
-- The number of completed cycles is natural too: a state file with a negative one, which would stop
-- RunOnce with a panic, is left out.
-- A handler is split where the program releases the store's lock: the section under the lock, each
-- receive from a channel, the cleanup, and each close outside the lock are calls of their own, so
-- that a list of calls is an interleaving of the goroutines. `none` is a panic, or a send that waits
-- while the lock is held.
--
-- Each call of the operating system has its answer as an input (Io of LedgerFile and of StateFile). An
-- adapter, a gate and the clock belong to the environment of one iteration of the orchestrator (Env);
-- a gate's run has the context with its time-out in it, and the times of one iteration are three: the
-- first test of CanAdvance, the writes, and the last test.
--
-- Recursion that is not structural takes fuel. The recursion of the Merkle tree splits its leaves,
-- so their number is enough (Merkle/Split, Merkle/Paths); the loops on powers of two and on indices
-- take the bound itself; the loop of Run takes the cycles that are left, plus one
-- (Orchestrator/Termination); the digits of a number are at most as many as it counts.
--
-- Not modelled: HTTP and server-sent events, JSON text, the command line and the adapters of
-- agents, which are input and output; the check of consistency proofs, the driver's loop for one agent,
-- the decisions of the gates and of the action gate, the broker's cycles and tasks, and the replay of
-- a cycle from its ledger.
pub mod Prelude
pub mod Hex
pub mod Digest
pub mod Contract
pub mod Chain
pub mod LedgerFile
pub mod Merkle
pub mod Cycle
pub mod Session
pub mod Runner
pub mod StateFile
pub mod Orchestrator
pub mod Rally
pub mod Tests

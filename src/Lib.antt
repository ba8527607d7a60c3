-- ===== src/Lib.antt =====
-- The Safenet validator (validator/src): the state machine that takes part in the distributed key
-- generation and in the threshold signatures of its group, epoch by epoch.
--
-- Parts. `SafenetStateMachine` (validator/src/service/machine.ts) gets transitions from the chain: a
-- new block, or an event at a position in a block. For a new block it runs three checks (epoch
-- rollover, timeouts of the key generation, timeouts of the signing requests), for an event then its
-- handler (validator/src/machine). They read a local copy of the stored state and return differences,
-- which are stored, and the calls to the chain that they ask for, which are sent, once the transition
-- has succeeded. The handlers call the two clients (validator/src/consensus/keyGen and signing), which
-- keep keys, shares and nonces in the client storage and compute with the curve (validator/src/frost);
-- what is signed goes through the verification engine (validator/src/consensus/verify).
--
-- Files, and the code that they are about, below validator/src:
--   Data      machine/types.ts, machine/transitions/types.ts, consensus/protocol/types.ts, frost/types.ts
--             and the packet schemas; Data/External holds what third-party code provides
--   Store     consensus/storage/inmemory.ts, a function per method, by subject; Store/Defs has the
--             effects, Store/Ensures and Store/Leaves the rules to reason about them, Store/Calls the
--             writing methods as values; Linking and Completeness prove
--   Frost     frost/math.ts and frost/secret.ts (Math), frost/vss.ts and frost/hashes.ts (Vss)
--   Merkle    consensus/merkle.ts
--   Client    consensus/keyGen/client.ts (KeyGen), consensus/signing/nonces.ts (Nonces), shares.ts,
--             verify.ts and group.ts (Shares), client.ts (Signing); Burning, Reading, Keeping, Persistence
--             and Reuse prove about the use of nonces
--   Verify    consensus/verify/engine.ts, the two handlers and hashings
--   State     machine/state/diff.ts and machine/storage/inmemory.ts (Diff), machine/state/local.ts (Local)
--   Keygen, Signing, Consensus   the handlers and checks of machine/keygen, signing and consensus
--   Service   service/machine.ts; Order, Atomic, Settled and Deadlines prove
--   Rollover  the transition relation of the rollover states, independent of the handlers
--   Watcher   watcher/blocks.ts (Blocks, Pending), watcher/events.ts (Logs), utils/bloom.ts (Bloom),
--             watcher/index.ts and watcher/backoff.ts (Loop); the other modules prove: Chain, Stream, Start
--             and Updates about the order of blocks, Waiting about the wait for one, Sorting, Coverage, Warp
--             and Halving about the logs, Turns about the loop, Throttling about the delays;
--             machine/transitions/watcher.ts (Transitions)
--   Checks    consensus/verify/safeTx/checks (Defs, Multisend) and its config with service/checks.ts
--             (Allowed); Soundness, Accepted and Decoding prove
--   Protocol  consensus/protocol/base.ts (Base, Liveness), utils/queue.ts (Queue, Table, Rows), and
--             consensus/protocol/sqlite.ts with the storage's uses in onchain.ts (Transactions, Gaps)
--   Tests     concrete libraries, machines and transitions
-- A function of the code keeps its name, in snake case; a long function is several definitions, one
-- per stage, each with the name of what it does.
--
-- Representation. A hex string is its place in the order of all hex strings, by length and then
-- lexicographic, so that `===` and, for strings of one length, `<` are those of numbers. A `bigint` that
-- the code keeps non-negative is a natural number; the one difference that may be negative, the count
-- of available nonces, is a pair of what was gained and lost. Maps and objects are association lists. A
-- method that may throw is a function from the state (`World`) to a result and the state that it leaves,
-- also when it throws. Random bytes are numbered calls. Reads past the end of an array, which the types
-- of the code exclude, fail. The third-party libraries (viem, noble, zod), the injected transaction check and
-- at which of its calls the injected protocol throws are the record `External`, of which nothing is
-- assumed. The state machine's storage is the one in memory, whose `applyDiff` does not throw.
--
-- Fuel. The levels of a Merkle tree are built on as much fuel as there are leaves, which is enough since
-- each level is shorter than the one below it. The loop that counts the nonces of the chunks ends at
-- the first chunk that is not linked or has no nonces; it has fuel for each linked chunk and one more,
-- and fails where that runs out, which it does not when the chunks of a group have different ids.
--
-- The decoding of a batch has as much fuel as the data has characters, and one more; each transaction
-- takes 170 of them. The check for the next action has fuel for each that it may drop.
--
-- Watcher. A node is the sequence of its answers to the watcher's calls, each of which may be an error; a
-- function that runs out of answers is still waiting. The logs and blocks of an honest node are named
-- hypotheses of the theorems that need them.
--
-- Not modelled: the storages in SQLite, the conversion of logs to transitions, the protocol's calls of
-- the node, the queue in memory, the schemas that parse input, the assembly of the service,
-- logs and metrics; the contracts and the explorer.
pub mod Prelude
pub mod Data
pub mod Store
pub mod Frost
pub mod Merkle
pub mod Client
pub mod Verify
pub mod State
pub mod Keygen
pub mod Signing
pub mod Consensus
pub mod Service
pub mod Rollover
pub mod Tests
pub mod Watcher
pub mod Checks
pub mod Protocol

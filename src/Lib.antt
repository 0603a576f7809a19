-- ===== src/Lib.antt =====
-- Verification library of agent-comm-hub: the message hub, the class `AgentHub` of src/hub.ts,
-- over the wire types and statuses of src/protocol.ts; its token table, src/auth.ts; and the MCP
-- server around it, src/mcp-server.ts, with the tools of src/hub-tools.ts that claim a peer id.
--
-- The program. Agents register under a peer id and exchange messages through the hub: chats,
-- notices, tasks and acks. The hub routes each message to a waiting reader, or into the reader's
-- mailbox, which is bounded and ordered by priority; it hands mail out, for good or under a lease
-- that has to be committed; it keeps a ledger of tasks with a row for each assignee, a history
-- ring, a ring of operational events, group channels, profiles, and timers for task deadlines.
--
-- Clients reach the hub over HTTP: the server checks the origin and the token of a request, keeps a
-- registry of sessions with the peer and the identity of each, answers JSON-RPC calls of the tools,
-- and pushes events down the sessions' streams.
--
-- The files and the code they follow:
-- - Prelude: Boolean tests on the native ℕ and on strings, list functions, shared lemmas.
-- - Fixtures: test data for the Tests modules.
-- - Protocol (src/protocol.ts): messages, acks, task records. Protocol/Status: the statuses and
--   `nextTaskStatus`. Protocol/Aggregate: `aggregateTaskStatus`.
-- - Dict: the part of a `Map` that the hub uses, in insertion order.
-- - Mailbox (src/hub.ts): `priorityOf`, `insertByPriority`, `lowestPriorityIndex`, `drainFrom`.
-- - Timeline (src/hub.ts): `trimAcks`, `pushAckEvent`, `pushAssigneeAck`.
-- - Json: what `JSON.parse` returns. Auth (src/auth.ts): the token file, `loadTokenFile`, `addToken`,
--   `removeToken`, `readTokens`, `watchTokenFile`.
-- - Sessions (src/mcp-server.ts): `SessionRegistry`. Sessions/Uses: what the hub's tools may do to it,
--   the interface between the server and the tools.
-- - Server (src/mcp-server.ts): the state and the requests of `McpStreamableHttpServer`.
--   Server/Headers, Server/Origin: reading headers, the origin gate. Server/Handlers: `handleGet`,
--   `handlePost`. Server/Dispatch: `dispatch`. Server/Streams: `notify` and the end of a stream.
--   Server/Routes: the request listener. Server/Identity (src/index.ts): who a request is from.
--   Server/Invariant: what every step keeps, a request keeps; Server/Reach: the reachable states.
-- - Tools (src/hub-tools.ts): `bridge_register`, `bridge_unregister`, `autoRegisterPeer`,
--   `isManagerCaller`. Tools/Names: `sanitizePeerId`, `sanitizeAlias`.
-- - Hub/State: the options and the fields of `AgentHub`. Hub/Outcome: the result of a method.
-- - Hub/Events: `recordEvent`, `events`, `noteEvent`, `taskChanged`.
-- - Hub/Matching: `ackStatusOf`, `matchesWaiter`. Hub/Counters: `bumpTraffic`, `takeToken`,
--   `handOut`, `deliverToWaiter`, `countDrop`.
-- - Hub/Compose: `compose`, `remember`, `audience`, `dispatch`, `route`. Hub/Notes:
--   `markTaskDelivered`, `noteTaskDeliveryDropped`. Hub/Deliver: `deliver`, `send`.
-- - Hub/Timers, Hub/Failing: the deadline of a task, and how a task fails for a lost peer.
-- - Hub/Tasks: `sendTask`, `sendAck`, `ackForRunner`, `cancelTask`, `taskInput`. Hub/Tasks/Ledger:
--   `recordTask`, `applyAckToLedger`, `fireTaskTimeout`, `evictOverflowTasks`.
--   Hub/Tasks/Listing: `listTasks`.
-- - Hub/Leases: `requeue`, `reapLeases`, `deadLetter`, `commit`, `nack`. Hub/Polling:
--   `sweepExpired`, `poll`, `wait`.
-- - Hub/Renaming: `renamePeer` and `foldDuplicateAssignees`.
-- - Hub/Registry: `register`, `unregister`, `gcTick`, parking and profiles. Hub/Groups: the group
--   channels. Hub/History: the readers of the history ring.
--
-- How a method is modelled. A private field of `AgentHub` is a field of the record `AgentHub`. A
-- method is a function on it; one that may throw is in `M`, whose result `Outcome` keeps what the
-- method had changed before it threw. The clock, the options, `randomUUID()` and the test for a
-- live channel are the record `Env`, any value of which the theorems allow. A call of a callback
-- and the resolution of a waiter's promise are appended to the field `effects`. One method runs
-- at a time, as in the source, where no method of the class suspends.
--
-- Fuel. `deliver` calls itself through the notice to the sender of a task that a full mailbox gave
-- up. Each such call marks one more task of the ledger as warned about, so `deliver_now` takes one
-- unit more than there are unmarked tasks. `trim` takes one unit for each event of the timeline,
-- and each round removes one.
--
-- How the server is modelled. The hub behind it is any type, and its tools and `onInitialize` are
-- functions on the registry and the hub; a theorem that depends on them assumes that they change the
-- registry only by the operations of Sessions/Uses; Tools/Keeps is about the tools above. A
-- request holds what the parsers of URLs and JSON make of it. A tool runs to its end before the next
-- event, so a tool that waits is not interleaved with other requests.
--
-- Numbers are natural numbers: times, counters and limits. A clock that runs backwards counts as
-- no time passed. The tokens of a rate bucket are whole numbers of 1/60000 of a token.
--
-- Not modelled: the imports and exports of persisted state, and the roster and metrics
-- views of the hub; the administration API of the server and the other tools, which check arguments
-- and call one method of the hub; the persistence, the runner, the command line and the user
-- interfaces around it, which call the hub or present what it returns.
-- The wording of the hub's notices is left out: what a notice tells is a constructor of
-- `NoticeText`.
pub mod Prelude
pub mod Fixtures
pub mod Protocol
pub mod Dict
pub mod Json
pub mod Auth
pub mod Sessions
pub mod Server
pub mod Tools
pub mod Mailbox
pub mod Timeline
pub mod Hub

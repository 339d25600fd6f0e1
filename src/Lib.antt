-- ===== src/Lib.antt =====
-- DeeperSeek: humans (and AI personas, and a fallback model) answer requests in the place of a
-- model. This library models the state engine of the Go backend, backend/internal/core, the two
-- parts that answer through it by themselves, the persona manager and the fallback model, the
-- backend that keeps the same state in PostgreSQL and Redis, and of the HTTP layer in front of them
-- the rate limiter, the chat endpoint and the socket of the responders; and the checks of the load
-- simulator.
--
-- The parts, and the files that model them:
--   Core/Types          types.go: constants, enumerations, records
--   Core/State          service.go: the record `Service`, the errors, the small helpers
--   Core/Lifecycle      publishLocked, requeueLocked, abandonLocked, completeLocked
--   Core/Matching       compatiblePairLocked, tryAssignLocked
--   Core/Points         balanceLocked, authResultLocked, createSessionLocked
--   Core/Requests       CreateRequest, CreateTargetedRequest, AcquireFallbackAssignment,
--                       CancelBeforeFirstFragment, Subscribe, RequestSnapshot
--   Core/Responders     RegisterResponder, UnregisterResponder, MarkResponderAvailable,
--                       ResumeResponder, SubmitFragment, Finish, Skip
--   Core/Timeouts       SweepTimeouts
--   Core/Reactions      React
--   Core/Accounts       Register, Login, GuestSession, PersonaSession, Me, LedgerForUser
--   Core/Board          Board, QuestionCategory
--   Core/Conversations  conversations.go
--   Core/History        histories of calls of all these operations
--   Chunks              chunkRunes of backend/internal/persona/manager.go and splitFallbackChunk of
--                       backend/internal/httpapi/fallback.go
--   Persona             backend/internal/persona/manager.go: a tick of the control loop
--   Persona/Answering   the same file: how a persona answers, and the texts that it sends
--   Fallback            backend/internal/httpapi/fallback.go: the fallback model; FallbackStillWanted
--   Pgredis/Tables      backend/internal/pgredis: the tables of migrations/ and the SQL statements
--   Pgredis/Transactions, Pgredis/Creation
--                       lifecycle.go and requests_read.go: what responders and requesters do
--   Pgredis/Mirror      how the tables mirror the record of the in-memory engine
--   Pgredis/Departures  lifecycle.go: UnregisterResponder
--   Pgredis/Arrivals    lifecycle.go: MarkResponderAvailable and ResumeResponder
--   Pgredis/Stream      lifecycle.go: the goroutine of Subscribe, drainFragmentsAfter, terminalState
--   Pgredis/Accounts    auth.go of the same directory: accounts and sessions
--   Pgredis/Conversations
--                       conversations.go of the same directory: the stored conversations
--   Pgredis/Redis       coordinator.go, and drainAssignments and handlePair of lifecycle.go
--   Pgredis/Redis/Lease persona.go of the same directory: the lease of the persona leader
--   Ratelimit           backend/internal/httpapi/ratelimit.go: the token bucket
--   Clientip            the same file: the address that a request is counted under
--   Openai              backend/internal/httpapi/openai.go: the chat endpoint, streamed and blocking
--   Websocket           backend/internal/httpapi/websocket.go: the socket of a responder
--   Simload             backend/cmd/simload/invariants.go: what the load simulator checks
-- The theorems stand in the children of these modules, in Core/Valid (the invariant, operation by
-- operation), Core/Sessions and Core/Invariants. Tests holds sample runs and instances.
--
-- How state is modelled. Every exported method holds the service's mutex while it works, so an
-- operation is a function from a state to its result and the state that it leaves, errors included.
-- A Go map is an association list; where the code ranges over a map, the order is the list's, or an
-- argument (`order` of `sweep_timeouts`). A `*Request` is its record, and a write through it replaces
-- the record at its id, which is the only place where the code keeps it. `newID` takes the part behind
-- the prefix from `entropy`, a supply of texts; that random ids do not repeat is the hypothesis
-- `IsFresh` of the theorems that need it. A channel is the list of messages in its buffer, with the capacities
-- of the code. The clock's values are arguments, two where the code reads it twice. Texts are lists
-- of Unicode characters, so rune counts are their lengths; texts that are no valid UTF-8 are left out.
-- Integers are unbounded: points and counters stay far below 2^63 in any run of the program, and times
-- are nanoseconds that do not go back before the zero time. bcrypt is a parameter.
--
-- The PostgreSQL backend. A statement is a function of the tables; a transaction, which locks the rows
-- that it reads, is one step, and its statements succeed but for the refusals below. What it does in Redis after the commit is a
-- list of effects. Ids come from the same kind of supply as those of the engine. The assignment script
-- is a function of the keys, which Redis runs in one step; the loop that drains them is modelled at one
-- moment of the clock. The keys that expire are a parameter, `KeyStore`, with the laws of SET with EX.
--
-- A TIMESTAMPTZ column keeps whole microseconds of a time and a TEXT column refuses U+0000: SubmitFragment,
-- whose reply shows a time, and the calls on conversations write the time that `column` makes of the
-- clock's, and fail on a text with U+0000. The other operations take times that the columns keep, and
-- tokens and ids have no U+0000.
--
-- The rate limiter computes in float64. Its tokens are counted in units that make every float64 a whole
-- number of them. The sum of a refill rounds: it is the parameter `accrue`, of which the bound assumes
-- that it rounds up by at most some units. To take one token off, or cap at the burst, rounds nothing.
--
-- The personas and the fallback call the engine as humans do. What a model answers is a parameter, as
-- is whether a context has ended before each fragment; the cancel functions of the manager are the
-- list of the sessions that were told to stop.
--
-- The stream of an answer. Each wake-up of the goroutine comes with what its reads of the tables see, or
-- `none` for a query that fails; the requester's side is the number of events that it takes. The chat
-- endpoint is a function of the list of what its `select` gives it. The handler of the socket runs
-- over a list of turns, which are messages of the responder and calls of other clients.
--
-- Fuel. Cutting a text into chunks has as much fuel as the text has runes, and each round takes one or
-- more. `tryAssignLocked` loops until no compatible pair is left; the model gives it one more round
-- than there are available responders, and each round takes one of them off; `none` is a panic, or
-- fuel that ran out. `drainAssignments` has as much fuel as there are listed responders and queued
-- requests, and each round takes one of them out for good.
--
-- Not modelled: of the PostgreSQL and Redis backend LedgerForUser, the timeouts, the registration of
-- a responder and ListConversations, whose query leaves the order of rows with equal times open; of
-- the HTTP layer the decoding and encoding of JSON, the routes, the board and the conversations, and
-- the forwarding of assignments to a socket; the language model client, the load simulator but for
-- its checks, and the frontend; the unsubscribe function of Subscribe and the receiving side of
-- channels; RunTimeoutSweeper, a timer around SweepTimeouts; the goroutines of the persona manager
-- and the conversations that it goes on with after a posted question.
mod Prelude
pub mod Core
pub mod Chunks
pub mod Fallback
pub mod Persona
pub mod Pgredis
pub mod Ratelimit
pub mod Clientip
pub mod Openai
pub mod Websocket
pub mod Simload
mod Tests

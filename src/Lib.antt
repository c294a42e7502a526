-- ===== src/Lib.antt =====
-- OpenMOS: a gateway between a newsroom computer system (NCS) and devices that speak the MOS protocol.
-- Paths are from the repository's root.
--
-- The program receives MOS messages on a socket or a WebSocket (src/internal/server), parses and
-- validates them (src/internal/xml), answers a repeated message from its memory of answered ones,
-- and hands the others to MOSService (src/internal/service), which keeps running orders, stories and
-- items in repositories (src/internal/repository) and publishes events (src/internal/events). A
-- message that names something the device does not hold is answered with a request for the running
-- order, which a guard limits. What the program sends itself is numbered by a durable sequence
-- (src/internal/messageid).
--
-- Which module is about which part:
--   Text       Go strings as bytes, with what the program uses of strings and strconv: equality and
--              order of texts, TrimSpace (Text.Trim), ParseInt and Atoi (Text.Number), FormatInt
--              (Text.Format).
--   Outcome    Go's error results, wrapping, and errors.As for UnknownRunningOrderError.
--   Exec       methods as actions on a state: the state that is left beside the result, or the error.
--   Table      a Go map as an association list: lookup, put, remove, and the sorted listing of its
--              values (Table.Listing, Table.Selected).
--   Model      src/internal/model: Item, Story, RunningOrder and their parts.
--   Wire       src/internal/xml: the message types of running orders, element actions and status reports.
--   Repository src/internal/repository/memory.go: Create, Get, Update, Delete, DeleteMultiple, once for
--              any type with an identifier, and the three repositories with their listings.
--   Events     src/internal/events/bus.go.
--   Service    src/internal/service: MOSService as a record of tables and a bus. Service.Identity is
--              identity.go and the key functions of mos.go; Service.StoryActions, Service.ItemActions
--              and Service.ElementAction are element_action.go; Service.OnAir is onair.go;
--              Service.Timing is timing.go; Service.Messages and Service.Workflow are the running orders
--              of mos.go, and ApplyROList of resync.go. Service.StoryBodies and Service.StorySend are story.go
--              and the roStorySend of control.go, and Service.Control the rest of control.go;
--              Service.ObjectStore is the objects of mos.go.
--   Dedup      src/internal/server/dedup.go, and Dedup.File dedup_file.go.
--   ResyncGuard src/internal/server/resync.go.
--   MessageId  src/internal/messageid/sequence.go.
--   Envelope   src/internal/xml/envelope_validate.go.
--   Channel    src/internal/server/channel.go.
--   Scope      src/internal/xml/scope.go.
--   Discovery  src/internal/server/discovery.go: the walk over the running orders of a peer.
--   Dispatch   src/internal/server/dispatch_ro.go: the handlers of running-order messages, and what they
--              send. They call the service, the guard and the walk.
--   Cues       src/internal/xml/story_cues.go: the instructions in the text of a story body.
--   Tests      runs of these at concrete inputs.
--
-- How the program is modelled. A method of the source with a pointer receiver is a function from the
-- state to a result and the new state. The receipts in memory, the guard and the sequence hold a mutex
-- for the length of a method, so that concurrent calls of them are sequences of these steps. A method of
-- MOSService holds none across its calls of the repositories, and the Check and Remember of the durable
-- receipts lock the memory and the log one after the other: both are modelled as they run when no other
-- call comes between. Bytes are natural numbers below 256, though nothing depends on the bound.
-- Positions and counters are natural numbers: the source writes none below zero and they stay far
-- below the limits of int and int64. Integers that a message sets are integers of either sign. All
-- calls of time.Now in one method are one instant, an argument. Error texts stand as their fixed
-- part. The Go map of a repository is a list of entries in some order; its listing sorts, so that the
-- order does not matter. The loops of the source are recursion on the list they range over, and no
-- definition runs on fuel but the printing of a number, whose fuel is the number plus one, which is
-- above its count of digits.
--
-- What is a parameter: the digest of a message (crypto/sha256), strings.ToUpper and
-- strings.EqualFold, the printing of an instant (time.RFC3339), floating-point numbers, and the reading of a MOS time. The body of a story
-- holds the elements that its method OrderedSource reads from its XML. The theorems hold for every function in their place. What the disk does is a value that
-- an operation is given: whether a write succeeds, and how a compaction of the log ends.
--
-- What is not modelled: the MongoDB and checkpointed repositories, the source catalogue and its
-- synchronisation, the parsing and printing of XML,
-- sockets and WebSockets, configuration and logging. A line of the receipt log stands for the record it
-- holds; its JSON and base64, a line that a crash left unfinished, and a line longer than the reader's
-- buffer are not modelled. Reading a context's cancellation is not modelled, as
-- the memory repositories ignore it.
pub mod Prelude
pub mod Text
pub mod Outcome
pub mod Table
pub mod Model
pub mod Wire
pub mod Exec
pub mod Repository
pub mod Events
pub mod Service
pub mod Dedup
pub mod MessageId
pub mod ResyncGuard
pub mod Envelope
pub mod Channel
pub mod Scope
pub mod Discovery
pub mod Dispatch
pub mod Cues
mod Tests

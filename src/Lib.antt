-- ===== src/Lib.antt =====
-- Repowire's daemon (daemon-go): a broker between coding agents, and what it promises them.
--
-- The daemon keeps a registry of peers (daemon-go/peer), tracks the asks between them
-- (daemon-go/service/ask_tracker.go), and records tracked work in a database (daemon-go/state). A
-- message is addressed to a peer by id or display name; the registry resolves the address, checks
-- the circles of the two peers, and the ask tracker keeps the thread until it is answered, closed or
-- swept. A runner acquires work, updates its attempts, and is recovered after its lease ends.
--
-- The files:
--   * Prelude: the shared names, Boolean tests, lists by native numbers and maps with text keys.
--   * Json: decoded JSON documents, for metadata and the JSON columns.
--   * Proto: daemon-go/proto/proto.go, the enums, peers and mappings.
--   * Fsm: daemon-go/peer/fsm.go; Fsm/Reach runs histories of events.
--   * Ask: daemon-go/service/ask_tracker.go. Ask/Types is the state, Ask/Channel the answer channels,
--     Ask/Ops registration to capture, Ask/Replies the stashed replies, Ask/Sweep eviction, reminders
--     and the quiesce barrier, Ask/Wait the waits as two locked sections around a blocking receive.
--     Ask/Run has the calls as data and their histories; Ask/Inv, Ask/Step and Ask/Evict carry the
--     invariant and the steps; Ask/Guarantees, Threads, Wakes and Reminders are what follows.
--   * Registry: daemon-go/peer. Registry/Types is the state, Resolve is registry_read.go, Access is
--     registry_access.go, Role is claim_role.go; Lifecycle, Edits, Pane, Folder, Names, Allocate,
--     Reap and Evict are registry.go, registry_lifecycle_byname.go and part of reconcile.go: offline marks and status frames, edits of a peer,
--     pane ownership, display names, AllocateAndRegister, the maintenance passes. Addressing,
--     Circles, Claims, Latest, Duty, Orchestrators, Naming, Panes, Gates, Registrations and Lockstep reason about them;
--     Ops has the calls as data and their histories.
--   * Queue: daemon-go/state/queued_deliveries.go, and the replay in daemon-go/hub/ws.go. Store and Flush
--     have the operations; Rows, Order, View, Replay and History reason about them.
--   * Cron: daemon-go/service/cron.go. Text is what it uses of Go's strings, Field and Fire are the code;
--     Words, Normal, Steps, Values, Progress and Search reason about them.
--   * Scheduler: daemon-go/state/schedules.go is Store, daemon-go/service/scheduler.go is Round; Firing,
--     Earliest and Timing reason about them.
--   * Work: daemon-go/state/work.go and work_runner.go. Types, Create, Update, Cancel, Acquire,
--     Runner, Attempt and Recover have the operations; Stamps, Terminal and Attempts reason
--     about them.
--   * Samples: concrete functions for the parameters, and the Tests modules with runs of the code.
--
-- How code becomes definitions: a locked section is one step on the state, passed explicitly. The timer's
-- case of a wait, which locks twice, and the update of work, which reads and writes in two statements, are
-- one step each, so what another call does in between is not seen. A Go map
-- is an association list where the code ranges over it, in the list's order, and a function elsewhere;
-- an error is a value of a result type. Clocks, minted ids, the transport's connections, the process
-- probe, the printing of numbers, the database's order of texts, Go's calendar and the parser of times
-- are arguments. A time is a number of nanoseconds or, in the database, its text; a cron time is a number
-- of minutes. Recursion is structural, but for two loops with fuel: the search for a display name has a
-- round for each peer and two more, and the loop over a cron range as many rounds as its end and four
-- more; each is shown to end within them. The search for a cron time counts its minutes as the code does.
--
-- Not modelled: the database, sockets, processes and HTTP (I/O around these components), clones of
-- records (values here), the payloads of journal events and error messages, and the contradictions that
-- daemon-go/peer/reconcile.go reports; delivery and routing, the job runner, the calendar, the
-- relay, the hooks and the command line. The journal rows that a maintenance pass writes after its
-- section stand with the peer they are about.
pub mod Prelude
pub mod Json
pub mod Proto
pub mod Queue
pub mod Cron
pub mod Fsm
pub mod Ask
pub mod Registry
pub mod Samples
pub mod Scheduler
pub mod Work

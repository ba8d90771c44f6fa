-- ===== src/Lib.antt =====
-- rbs is a build server for cargo: a shim in the place of cargo sends a build to a remote or a local
-- server, which runs it when a slot is free, and a shared store keeps what the builds cache. This
-- library models the parts of its code that decide.
--
-- Prelude: what the modules share. Tests, Lists, Int (i64 and times, by their two parts), Texts (a
-- text is the list of its bytes), Maps (a BTreeMap is the list of its entries), Results and Decimal
-- (numbers as `format!` writes and `parse` reads them).
--
-- Proto: crates/rbs-proto. Job, Toolchain, Status and Message are the types of the wire protocol with
-- their methods, Proto/Base64 is `bytes_b64` of job.rs, and Proto/Frame the incremental decoder of
-- frame.rs. serde_json is a parameter (`to_vec`, `from_slice`); what the protocol needs of it is the
-- record `Json` of Client/Transport/Receive. The fuel of `next_frame` is one more than the length of
-- the buffer, from which each round takes at least a byte.
--
-- Config: crates/rbs-config. The sections with their defaults, Config/Env for the overrides and the
-- allowlist of env.rs, Config/Layers for the merge of layers.rs. The reading of TOML is the TOML
-- library's and is left out.
--
-- Server: crates/rbs-server. Server/Scheduler is scheduler.rs, one definition per method; a reading of
-- the memory is an argument (`Snapshot`). Server/Slots is what socket.rs does around it: each section
-- that runs under a lock, or touches a one-shot channel, is an action, and every order of the actions
-- of all connections and wakers is a run (`step`, `Reachable`). There a job ends at any time.
-- The counter of identifiers wraps at 64 bits: what needs the identifiers to be distinct bounds the
-- submissions of a run (Server/Slots/Numbers). A job is addressed by its identifier, so past the wrap an
-- older job of a reused identifier keeps its slot and does not act.
-- Server/Connection is the protocol of one client in socket.rs, from the handshake to the cleanup: what
-- the loop's select takes up is a turn, with what the scheduler, the runner and the socket answer in
-- it, and the effects are a list. Server/Runner is runner.rs: the checks, the command of a job in its
-- scope and environment (Server/Runner/Command), and the supervision of a process, whose pipes, end
-- and schedule of sends are given.
--
-- Client: crates/rbs-client. Client/Backend is the decision table of backend.rs, Client/Transport the
-- stream of messages of transport.rs, Client/Submit and Client/Shim the functions `submit` and `run`
-- of shim.rs. The hooks of `run` are a record of what they answer, and a run gives the exit code with
-- the list of its effects; what the select of `submit` gives is a list of turns, so that an interrupt
-- can come between any two messages.
--
-- Store: crates/rbs-store. Store/Planner is planner.rs: the grouping of a listing, the ranking and the
-- eviction loop. The ranking is an insertion sort, which as a stable sort gives what `sort_by` gives.
-- Sums of sizes wrap at 64 bits, and the theorem on a plan takes a listing whose sizes fit. Store/Touch
-- is touch.rs: the plan of a touch, and the requests of all touches in flight as steps on the store,
-- whose copy and delete are a parameter with the laws `IsStore` of Store/Touch/Keeps. Store/Collect is
-- `execute_plan` of gc.rs: which request in flight is answered next, and how, is a list of turns.
--
-- Toolchain: crates/rbs-toolchain. The fingerprint of a directory's toolchain over what the programs
-- print, the check of two of them, and the search for the toolchain file, which Toolchain/Nearest compares
-- with rustup's, as that is documented.
--
-- Setup: crates/rbs-setup, its toolchain_sync. Setup/Release is release.rs, Setup/Pin is pin.rs, and
-- Setup/Sync is mod.rs: a computation on the history of the programs that have run and the files that
-- have been written, in which an answer may depend on all that came before. Setup/Commands is
-- runner.rs, and Setup/Shell the quoting of bootstrap.rs.
--
-- Sync: crates/rbs-sync, the command line of rsync of plan.rs. Sync/Filters reads it as rsync documents
-- its filters: from the root down, the first rule that matches a directory or a file decides on it, what
-- no rule matches stays in, and nothing below an excluded directory is looked at. Which patterns match an
-- entry, and whether a `.gitignore` names it, are parameters.
--
-- Session puts a connection of the server and a submission of the client together: what the one writes
-- is what the other receives.
--
-- The parts meet in the types of Proto: the shim builds the JobRequest that a connection hands to the
-- scheduler, the settings of Config give the limits of the scheduler, the row of the decision table
-- and the cap of the planner, and the capacity that the scheduler reports decides that row.
--
-- Not modelled: sockets, ssh, processes, files and S3 (I/O); the setup commands but for the toolchain
-- sync; most texts of errors and all of logs.
pub mod Prelude
pub mod Proto
pub mod Server
pub mod Config
pub mod Client
pub mod Store
pub mod Toolchain
pub mod Sync
pub mod Setup
pub mod Session

-- ===== src/Lib.antt =====
-- iroh-nix: distributed Nix binary cache and builds between peers.
--
-- A requester keeps a queue of build jobs (iroh-nix/src/build.rs). Jobs come in through the control
-- socket of its daemon (control.rs), whose client is the build hook that nix-daemon runs
-- (build_hook.rs, in the wire format of nix_protocol.rs). Builders pull jobs from the queue over a
-- stream, keep their leases alive and report the outcome (builder.rs). What is exchanged between
-- peers are archives of store paths (nar.rs); who has them is announced by gossip (gossip.rs), and
-- network operations are tried again by retry.rs.
--
-- Support: lists, maps, words and text, as Rust's standard library has them. A `HashMap` is an
--   association list whose order is the order of iteration; `lookup`, `insert` and `erase` are `get`,
--   `insert` and `remove`. A string is the list of its bytes.
-- Error: error.rs. A result is a value, an error or a panic; `>>=` is the operator `?`.
-- Build: the queue of build.rs. Build.Types has its data, Build.Queue its operations, each a
--   function from the queue to the queue and what the method returns, Build.Logs its subscribers.
--   A call is one step, and a sequence of calls by any tasks is a list of Build.Queue.Calls. `push`
--   releases the lock of the ids before it locks the queue: what other tasks do between the two is not
--   modelled. The clock is an argument. The hash of a derivation path is a
--   parameter. Build.Signing has the signature of a result; Ed25519 is a parameter.
-- Builder: the handler of builder.rs with the messages of protocol.rs. Builder.Stream has its connection,
--   whose loop runs on fuel, one more than the bytes of the input, of which each request takes four at
--   least; the calls that other tasks make before each request, the response whose writing fails, and
--   postcard are parameters. Builder.Worker is the builder's side, over an exchange of a request and
--   a response with the requester; Builder.Leases puts the requester's handler there.
-- Control: the handler of control.rs. `PollBuild` locks the queue several times, so `poll` takes the
--   queue at each of its looks. Control.Frames has a turn of the connection's loop and what the client
--   reads, Control.Stream the whole connection and the client's calls; JSON is a parameter. The loop runs
--   on fuel, one more than the bytes of the input, of which each frame takes four at least.
-- NixProtocol: the readers and writers of nix_protocol.rs; a reader is the bytes it has yet to give.
-- BuildHook: build_hook.rs. The loop of `read_settings` runs on fuel, one more than the bytes of the
--   input, of which each round takes one at least. `poll_loop` goes over the daemon's answers.
-- Retry: retry.rs. What an operation gives at its attempts is a function of the attempt; the loop
--   goes down the attempts that are left. The arithmetic of f64 is a parameter (`Floats`), and an error
--   keeps no text that another library has written.
-- Gossip: the caches of gossip.rs, and the receiver's loop over the events in their order. The
--   encoding of a message, and the bytes of an endpoint id, are parameters. Gossip.Announce has what a
--   node sends.
-- Nar: the writer of nar.rs over a tree for what the file system shows, its failures too, into a
--   buffer that takes all it is given. The loop of `write_file`
--   runs on fuel, the size of the file, of which each turn takes one byte at least. Nar.Hashing has
--   the hashing writer; the writer under it and the two hashers are parameters.
--
-- HashIndex: hash_index.rs. The table is the list of its rows, and a function is what its SQL text says of
--   them; whether SQLite carries a statement out is an argument. HashIndex.Entries has the row of an
--   entry and the entry of a row, HashIndex.Schema the migrations.
-- Gc: the cleanup of gc.rs over that table; the file system is a parameter.
-- Nix32: the base 32 of hash_index.rs, with its decoders in nix_info.rs and http_cache.rs.
-- NixInfo: what nix_info.rs takes from the output of `nix path-info`.
-- Transfer: transfer.rs. Transfer.Server has the handlers, with what each has written when it ends, and
--   Transfer.Client the fetch, whose loop runs on fuel, the size that the header states, of which each
--   round takes one byte at least. postcard, BLAKE3 and the stream's reads are parameters.
-- HttpCache: http_cache.rs. HttpCache.NarInfos has the parser of a narinfo, HttpCache the client over a
--   parameter for the web, HttpCache.Export the export of a NAR.
-- Substituter: substituter.rs, from the bytes of a connection to the bytes of the reply. The loop over the
--   headers runs on fuel, one more than the bytes of the input, of which each line takes one at least.
--   Substituter.Parsed has its narinfo before the parser of HttpCache.
-- Node: what node.rs does to the index, when it indexes a store path and when it fetches one, and to the
--   queue (Node.Builds). Nix and the file system are parameters.
-- main.rs: Plan.Derivations has what is to be built, from what Nix shows, Plan sorts it, and Plan.Push
-- puts it into the
--   queue; Plan.Planned says what an order of the builds is. The loop of `topological_sort` runs on fuel,
--   one round for each path to build,
--   since a path is taken out of its queue once. Plan.Monitor has the loop that waits for the builds, over
--   a list of its wakes with the calls that other tasks make. JSON values and the processes of Nix are
--   parameters.
--
-- Not modelled: the QUIC, gossip and HTTP stacks, SQLite, JSON and postcard, which are foreign; the
-- processes of nix and nix-store; the accept loop of node.rs, cli.rs, and the commands of main.rs
-- but for the plan of a build and the wait for it.
pub mod Support
pub mod Error
pub mod Build
pub mod Builder
pub mod Control
pub mod NixProtocol
pub mod BuildHook
pub mod Nar
pub mod Gossip
pub mod Retry
pub mod HashIndex
pub mod Gc
pub mod Nix32
pub mod NixInfo
pub mod HttpCache
pub mod Substituter
pub mod Node
pub mod Transfer
pub mod Plan

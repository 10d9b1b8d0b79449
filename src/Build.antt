-- ===== src/Build.antt =====
-- iroh-nix/src/build.rs: the requester's build queue. The operations are in the children, each a
-- function from the state to the new state and the result; the proofs stand below them.
-- A call is one step of the model. In the code `push` takes its id under one lock and gives that
-- lock back before it takes the next, so that two pushes may enter the queue in the other order
-- than their ids; sequences of calls do not have that order. `Instant::now()` and the clock are
-- arguments, in nanoseconds. `EndpointId`, BLAKE3 and the channels are foreign: parameters.
pub mod Types
pub mod Queue
pub mod Logs
pub mod Signing
mod SigningTests

-- ===== src/OfAgent.antt =====
-- src/core/OFAgentImpl.cc, OFAgentImpl.hpp: the sessions that pair a switch's replies with the requests.
-- A promise is the `satisfied` flag of its session, and what it was given is an outcome in the answer
-- of the operation; what an operation did before it threw is kept, like the list it leaves.
pub mod Sessions
pub mod Visitors
pub mod Requests
pub mod Honest
pub mod Conserving
pub mod Running
pub mod Promises
pub mod Barriers
pub mod Answering
pub mod Replying
mod Examples

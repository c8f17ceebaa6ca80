-- ===== src/Session.antt =====
-- web/src/lib/api.ts: the session (access token and user) and requests with one retry after a
-- refresh. `State` has the session and its storage, `Request` the exchanges with the server.
pub mod State
pub mod Request
pub mod Clean
pub mod Storage
pub mod Paths
pub mod Retry
pub mod Shared
pub mod Moves
pub mod Flights
pub mod Single
pub mod Flight
mod SharedWitnesses
mod Witnesses

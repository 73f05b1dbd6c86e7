-- ===== src/Client.antt =====
-- ui/v1/src/lib/api/client.ts: the session of the web client.
--
-- `Defs` has the state and the operations; `Interceptor` the middleware that every authenticated
-- request passes; `Refresh` the requests that wait for one refresh, as a system of steps; `Pending` the memory
-- for invites and links; `Session` what lasts over a reload; `Pipeline` one request through the generated client.
mod Defs
pub mod Interceptor
pub mod Session
pub mod Refresh
pub mod Pending
pub mod Pipeline
mod Tests
unfoldable pub use Defs.*

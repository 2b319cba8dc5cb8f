-- ===== src/Kernel/Scheduler/Dispatch.antt =====
-- kernel/scheduler/scheduler.go: `dispatchOne`, `Resolve` and `accept`. `dispatchOne` gives up the lock
-- while the runtime works, so it is two calls: `begin_dispatch` up to there, and `finish_dispatch` from
-- there on; other calls may come between them.
mod Begin
mod Finish
unfoldable pub use Begin.*
unfoldable pub use Finish.*

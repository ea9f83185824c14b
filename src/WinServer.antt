-- ===== src/WinServer.antt =====
-- src/server/server-win.c: the server for Windows, around an IO completion port. `CommandLine` has
-- the command line of a process.
pub mod CommandLine
pub mod State
pub mod Messages
pub mod Jobs
pub mod Clients
pub mod Loop
pub mod Keys
pub mod Stuck
pub mod Flowing
pub mod Served
pub mod Handled
pub mod Writing

-- ===== src/Server.antt =====
-- src/server/server-unix.c and src/server/proc.c: the event loop of the server and its jobs.
-- `State` has the globals and the heap of clients, `Messages` the answers to clients, `Jobs` the
-- processes, `Exec` what a child runs, `Clients` the connections and their lines, `Startup` the
-- start and `Loop` the rounds. The others hold proofs: `Invariant` the good states, `Scheduled`
-- and `Scheduling` the start of processes, `Exits` their end, `Kills`, `Arguments`, `Framing` and
-- `Writes` the handlers of their names. `Start` is about the first state, `Calm` and
-- `CalmHandlers` say what no handler does; `Ready`, `Linked`, `Rounds`, `Steps` and `Alive` are
-- about rounds and about all the states that are reached.
pub mod State
pub mod Messages
pub mod Jobs
pub mod Clients
pub mod Invariant
pub mod Scheduled
pub mod Scheduling
pub mod Framing
pub mod Writes
pub mod Kills
pub mod Exits
pub mod Exec
pub mod Arguments
pub mod Startup
pub mod Ready
pub mod Intact
pub mod Linked
pub mod Calm
pub mod CalmHandlers
pub mod Rounds
pub mod Steps
pub mod Alive
pub mod Start
pub mod Secure
pub mod Loop

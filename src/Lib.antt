-- ===== src/Lib.antt =====
-- The server of Why3 that runs provers (src/server). Clients connect over a socket and send
-- requests, one a line; the server runs at most `parallel` processes at a time, keeps the other
-- requests in a queue, and tells a client when a process starts and when it ends. It is an event
-- loop of one thread around `poll`.
--
-- Parts, and the files that model them:
-- - `Base`: lists, blocks of memory, 32-bit words, and how a call ends (`Result`). `Base.Results`
--   lists the ways in which a run stops: a failed `assert`, `exit`, or undefined behaviour.
-- - `CString`: `strcmp`, `strncmp` and `atoi` of the C library. A string is the list of its bytes.
-- - `Queue` (src/server/queue.c): the ring. `Queue.Holds` says which sequence a ring holds,
--   `Queue.Push` is about growth, `Queue.Run` about sequences of calls.
-- - `ArrayList` (src/server/arraylist.c): elements under `int` keys, in two arrays.
-- - `ReadBuf` (src/server/readbuf.c) and `WriteBuf` (src/server/writebuf.c): the buffers of a
--   client. `WriteBuf.Stream` is about all that a client receives.
-- - `Request` (src/server/request.c): the parser of lines, and the removal of requests.
-- - `PollList`, `Server` (src/server/server-unix.c, src/server/proc.c): the descriptors, the
--   globals as one record with the clients on a heap, and the handlers of events. `PollList.Remove`
--   and `PollList.Clean` are about the removal of descriptors, `Server.Scheduled` and
--   `Server.Scheduling` about the start of processes, `Server.Exits` about their end. `Server.Framing`
--   is about lines, `Server.Exec` and `Server.Arguments` about what a child runs.
--   `Server.Startup` is the start, `Server.Loop` the rounds of `main` in steps: the start of a round,
--   `poll`, and a visit of one entry. `Server.Start` is about the first state, `Server.Rounds` about
--   the end of a round, and `Server.Steps` and `Server.Alive` about all states that are reached.
--   `Server.Intact` is the state in which every structure holds what it stands for, and
--   `Server.Secure` says that `main` stays in its memory.
-- - `WinServer` (src/server/server-win.c): the server around a completion port, in rounds of one event
--   (`WinServer.Loop`). `WinServer.CommandLine` is the command line of a process;
--   `WinServer.Flowing`, `WinServer.Served`, `WinServer.Handled` and `WinServer.Writing` are about the
--   writes under way.
-- - `CpuLimit` (src/server/cpulimit-unix.c) and `CpuLimit.Windows` (src/server/cpulimit-win.c): the
--   program that runs a command under limits.
-- - `Options` (src/server/options.c): the command line.
-- - `Uint64Gmp` (examples/multiprecision/overlays/uint64gmp.h): sums, differences, products, quotients and
--   shifts of 64-bit words, which the C code extracted from the multiprecision library calls.
-- - `Tests`: the definitions on concrete inputs.
--
-- A function of C has its own name here. One that changes an object through a pointer returns the
-- new object; one that changes globals takes the record `Server` and returns it. A loop is its own
-- function, on the number of rounds that are left where C counts, and otherwise on fuel: the length
-- of the queue or of the input, since each round takes at least one element off. A cell of memory
-- is `none` until it is written, and an access out of bounds, a read of an unwritten cell, a copy
-- between overlapping areas and a signed overflow stop the run. `unsigned int` arithmetic wraps at
-- 2^32 and `size_t` at 2^64. Allocation succeeds; most of the code does not test for its failure.
--
-- The operating system is a parameter: `fork` and `mkstemp` are the functions of `System`, which
-- may depend on all that was done before, and what `accept`, `read`, `write` and `wait3` return is
-- an argument of the handler that calls them. The answers of `getopt_long` and `strtol` are arguments
-- of `parse_options`. A step of the loop takes a record of such answers (`Startup`, `Answer`, and
-- `System` and `Event` for Windows), and may get any.
--
-- Not modelled: the release of memory and the closing of handles before an exit, the log and other
-- texts that are printed, the handlers of signals (that of SIGCHLD is an answer of `poll` here), and the
-- names of pipes and sockets on Windows.
pub mod Base
pub mod Queue
pub mod ArrayList
pub mod ReadBuf
pub mod Uint64Gmp
pub mod WriteBuf
pub mod CString
pub mod Request
pub mod PollList
pub mod Options
pub mod Server
pub mod CpuLimit
pub mod WinServer
pub mod Tests

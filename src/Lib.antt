-- ===== src/Lib.antt =====
-- A model of the server and client of mini_redis, a Redis-like key-value store over TCP: its wire
-- format, its connections, its commands with their database, the loop that serves a client, and the
-- client's requests.
--
-- A client's `Requester` writes a command as a frame. `Connection` frames both directions: it reads
-- into a bounded buffer until `Frame::parse` finds a frame at its front, and encodes frames onto a
-- buffered stream. `Handler::run` reads a frame, takes it for a `Command` by way of `Parse`, applies
-- that to the shared `Database`, counts in the shared `Metrics`, and writes the reply.
--
-- The files and the code that they model:
--   Prelude, Text: names and lemmas that the parts share; bytes, strings, UTF-8 and decimals.
--   Config: the limits of src/config.rs.
--   Buf: `std::io::Cursor` and the calls of the crate `bytes`, a parameter with its laws.
--   Frame and its modules: src/frame.rs. Frame.Line is `get_line`, Frame.Number `get_decimal`,
--     Frame.Check `check` and `check_with_depth`, Frame.Parse `parse` and `parse_data`. Frame.Grammar
--     is the wire format as a relation, Frame.Encode the bytes of a frame.
--   Stream: tokio's buffered stream, a parameter with its laws. Connection.Memory is an instance.
--   Connection: src/connection.rs, with `read_frame`, `parse_frame`, `write_frame`, `write_data`.
--   Command, Command.Parse: src/command.rs and src/parse.rs.
--   Database: src/database.rs. Metrics: src/metrics.rs.
--   Handler: src/handler.rs, with `run` over a list of the choices that `select!` makes.
--     Handler.Shared: several handlers, each by the steps between its accesses to what they share.
--   Requester: src/requester.rs.
--   Acceptor: src/acceptor.rs, the accept loop and its tasks as steps, with the drops of the permit
--     and of the completion sender that a task holds (the fields of `Handler`) one by one.
--   Server: src/bin/server.rs, its `select!`, the shutdown that `main` sends, what it drops and waits
--     for, and its result, over the steps of the acceptor.
--   Tests, below Frame, Connection, Command, Database and Handler: the tests in the files of src/, as
--     runs of the definitions; those that wait for a timeout are left out.
--   Session: a requester and a handler, joined by a connection on which reads do not fail.
--   Client: `main` of src/bin/client.rs, behind its parsed arguments.
--
-- Streams that fail are part of the model. The theorems on whole exchanges take it as a hypothesis
-- that reads, or writes, do not fail (`IsReliable` and `IsOpen` of Stream), with the bytes that the
-- peer sends before it closes, in pieces of any size.
--
-- A byte is a number, a `String` the list of its UTF-8 bytes, an `i64` an integer whose arithmetic
-- is checked where the code checks it, and `usize` has 64 bits. A call that may panic or fail has an
-- outcome for that. The literals of the code are ASCII, so their code points are their bytes.
--
-- Recursion of the code on nested arrays takes one unit of fuel for each level. The depth limit is
-- 32, and 33 units are given. The loop of `read_frame` takes one unit for each round; a round that
-- does not end the loop adds a byte to a buffer of at most 65536 bytes, and one unit more than that
-- is given. An outcome of its own stands for want of fuel.
--
-- Methods of the database and of the metrics are atomic steps. `run` takes the values that it finds
-- at each turn; in Handler.Shared, any steps of other handlers come between two accesses, and the
-- network is left out but for whether a reply could be written. The steps of the acceptor count its
-- tasks by where they are and what they hold, and leave out what their handlers read and write; any
-- order of the steps is allowed, but the shutdown is received only once it was sent, and only in a
-- `select!`. A write that never ends is a task that takes no step.
--
-- Allocation, time (a timeout is a choice), logging, and what a cancelled call leaves of a connection
-- that is not used again are not modelled, nor are the command line of the client and the set-up of
-- sockets and channels.
pub mod Prelude
pub mod Text
pub mod Config
pub mod Buf
pub mod Frame
pub mod Stream
pub mod Connection
pub mod Database
pub mod Command
pub mod Metrics
pub mod Handler
pub mod Requester
pub mod Session
pub mod Client
pub mod Acceptor
pub mod Server

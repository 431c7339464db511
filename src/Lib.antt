-- ===== src/Lib.antt =====
-- acppsrv: an HTTP server with database queries.
--
-- The program (src/ of the repository) reads a configuration, starts pools of threads, listens for
-- HTTP connections, and gives every request to the handler of its path. The handler db runs named
-- SQL queries of SQLite databases on a pool of its own, echo returns the request's body, and stat
-- reports and resets counters. The models follow this structure.
--
--   Log (src/log.hpp, src/log.cpp): levels and their names; a message as the list of the pieces that
--     are written to it, each of which may throw. `log_line` is constructor, pieces and destructor.
--     Log.Stamp is the time stamp with its microseconds, from what `strftime` has printed.
--   Finally (src/finally.hpp): the scope guard; a scope is a function of the state that ends normally or
--     by an exception.
--   Config (src/configuration.cpp, src/configuration.proto): the messages are records; `load` is the
--     constructor, with the JSON parser as an argument. 32-bit conversions are written out. A float
--     is an interface with the tests and conversions that the code uses.
--   Sqlite (src/sqlite3.cpp): the wrapper over the record `Driver` of the SQLite functions, each of
--     which gives a status and the next state of the library. An exception is a value.
--     Sqlite.Handles has the destructors, and a library that counts the handles it gives and takes.
--   Db (src/db_server.cpp): Db.Setup.run opens the databases of each thread, `run_query` answers a
--     request. Maps are lists of entries, whose order has no meaning.
--     The state is the library's and the flags of the shared `db_sync_t`. `fetch` takes fuel, one
--     unit for each call of `next_row`: with a bound on the rows of an attempt, the product of
--     retries and rows is enough, because each lock uses up a retry.
--   Db.Threads (src/db_server.cpp, src/db_server.hpp): `execute_query` in several threads that share a
--     `db_sync_t`, as a transition system: the calls of the library, the locking of the mutex, the
--     wait and the notification are steps, and the state of the library may change between any two.
--     Db.Threads.Sequential relates it to the model `fetch` of one thread.
--   Db.Lifetime (src/db_server.hpp): what the destructor of the databases releases, in a library that
--     counts its open handles.
--   Http.Server: the constructor and `run` of src/http_server.cpp.
--   Http.Accept: the connection limit. The state is that of the acceptor and of the mutex, and the
--     steps of the accept loop and of ending connections interleave in any order. An exception of the
--     loop ends it.
--   Http.Handler, Http.Routes (src/http_server_impl.hpp, src/http_hnd_*.cpp): content negotiation,
--     the handlers, and the counters. Codecs are an interface.
--   Http.Connection: `handle_connection` of src/http_server.cpp. A run is given the result of every
--     read and write, request by request; the model records what the connection does.
--     Http.Connection.End is the message that its guard `at_end` leaves.
--   Bench.Keys, Bench.Create (benchmark/benchmark.cpp): the keys and their file, and the tasks of the
--     command create as a transition system over an interface of the database; the tasks run in any
--     order, so a run of several threads is one sequence of steps.
--   Bench.Record (benchmark/benchmark.cpp): the buffers of the record that keys and values are made of,
--     byte for byte.
--   Bench.Partition (benchmark/benchmark.cpp): the constructor and destructor of a partition over the
--     wrapper Sqlite, with the destructors of its temporaries and members written out, and the loop
--     that makes all partitions. Files and `double` are interfaces.
--   Bench.Args (benchmark/benchmark.cpp): the command line, with `std::from_chars` as an interface; the
--     arguments of requests are read by a reader over the list of arguments, and in Bench.Args.Iterator
--     by the iterator of the source.
--   Bench.Run (benchmark/benchmark.cpp): the commands create and requests from their arguments to the
--     start of their threads, composed of Bench.Args, Bench.Partition and the mapping of the keys,
--     whose descriptor a scope guard closes.
--   Bench.Main (benchmark/benchmark.cpp): from the start of the threads to the exit code.
--   Bench.Requests, Bench.Handlers (benchmark/benchmark.cpp): the flow of the requests, with a step for
--     each access of `is_done` to a counter or the clock, and the handlers over the wrapper Sqlite; the loop of `handle_update`
--     takes fuel, as many units as an update can deliver rows.
--   App.Pool (src/worker.cpp): a pool of threads as a transition system over an interface of io_context.
--   App.Shutdown (src/application.cpp): the main thread and the signal handler as a transition system.
--     A wait returns once its pool is stopped: that the handlers which run then end is assumed, as it
--     is by the interface of io_context in App.Pool.
--   App.Main (src/acppsrv.cpp, src/application.cpp): the start, composed of Config, Db.Setup and
--     Http.Server, and the exit code. What comes of the part between, from the start of the pools to the
--     end of the waits, is an argument.
--
-- Not modelled: the posting of a request from a connection to the database pool and of its answer back
-- (src/db_server_impl.hpp, src/http_hnd_db.cpp), where the answer is an argument; the order in which the lines of several threads reach standard error, which is that of
-- `osyncstream`, the texts of the usage messages, and the names of threads. Boost, SQLite, Protobuf,
-- OpenSSL and the conversions of the standard library are arguments. A call that may fail is given
-- its result; time is a counter of nanoseconds where it is computed with.
pub mod Prelude
pub mod Log
pub mod Config
pub mod Sqlite
pub mod Db
pub mod Http
pub mod App
pub mod Bench
pub mod Finally

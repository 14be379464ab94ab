-- ===== src/Lib.antt =====
-- zproc: a state server that client processes share, and a swarm of workers that map functions.
--
-- The program. The server process runs the loop of `main` (zproc/server/main.py) around a
-- `StateServer` (zproc/state/server.py), which keeps a dict for each namespace, runs the requests of
-- clients on them one at a time, logs each change, and sends the changes to the watchers that wait
-- for one. A client has a `State` (zproc/state/state.py), whose `StateWatcher` asks for one change
-- after the other. A `Swarm` (zproc/task/swarm.py) cuts a mapping into chunks and pushes them to the
-- workers (zproc/task/worker.py), whose results come to the `TaskResultServer` (zproc/task/server.py);
-- a `SequenceTaskResult` (zproc/task/result.py) reads them from there, by the chunk ids of
-- zproc/util.py. A `Context` (zproc/context.py) starts the server (zproc/server/tools.py) and makes
-- processes; a `Process` (zproc/process.py) runs a `ChildProcess` (zproc/child.py) and waits for its
-- value.
--
-- The files. Each folder beside a file holds its proofs, and Prelude what all share.
--   State/Server: the state of `StateServer`, `resolve_watcher` and `resolve_pending`.
--     Server/Bisect is `bisect` of the standard library. State/Handlers: `mutate_safely` and the
--     handlers, with the exceptions that the loop of `main` sends back. State/Loop: `recv_request`,
--     `recv_watcher`, `tick` and the loop. Server/Contract: the contract, a dict for each namespace.
--     Server/Objects, Atomic, Replies, Answers, Queries, Ends, History, Log, Runs, Slots, Times, Watchers
--     and Unseen: proofs. Server/Idents, Delivery, Delivered, Answered and RunAnswer: how a watcher is
--     answered in the course of a run.
--   State/Client: `strict_request_reply`, and the requests of `State`, with proofs in Client/Order and
--     Client/Calls. Client/Namespaces: the constructor, the `namespace` setter and `fork` of `State`, and
--     `Context.create_state`; Client/Named: the states there can be. Client/Views: `keys`, `values` and
--     `items`. Client/Ping: `ping`. Counters: `increase`, `decrease` and `append` of
--     zproc/__init__.py.
--   State/Watcher: `StateWatcher.__next__` and an iteration, with proofs in Watcher/Buffered, Turns,
--     Limits, Iteration and Prefix. Watcher/Served joins it to a server that has run, and
--     Watcher/SinceTime to `State.time`. State/When: the callbacks of `when_change`, `when` and the tests
--     of `when_truthy` to `when_available`. State/Start: how these methods make their watchers, and
--     Start/Changes: what an iteration over `when_change` gives.
--   Task/Ids: task and chunk ids. Task/Chunks: `make_chunks`. Task/MapPlus: `map_plus`.
--     Task/Swarm: `run` and `map_lazy`. Task/Worker: the worker, and in Worker/Simple `_get_chunk` and
--     `SimpleTaskResult.value`. Task/Workers: the count of workers, and `Context.create_swarm`.
--     Task/Server: the `TaskResultServer`. Task/Result: `SequenceTaskResult`. Task/Map: `Swarm.map`, which
--     joins the last ones.
--   Process/Child: the loop of retries. Process/Handle: `Process.wait` and `ProcessList.wait`;
--     Handle/Timed: the loop of a wait with a timeout. Process/Outcome: the child and the wait for it.
--     Process/Tree: `clean_process_tree`. Process/Group: `start` and `stop` of a process and of a list.
--     Process/Spawn: `Context.spawn`. Process/Context: the constructors of `Process` and `Context`,
--     and `Context.spawn_map`.
--   Startup: how `main`, `start_server` and the task servers bind their sockets and tell the addresses.
--   Serializer: zproc/serializer.py. Exceptions: zproc/exceptions.py.
--   Examples: the theorems on concrete inputs.
--
-- How it is modelled. A handler takes the state of its object and gives the state back, beside its
-- result or exception; what it sends is kept as a list. `self.identity`, `self.namespace` and
-- `self.state` of the state server are arguments, as they are reset after each tick. Its dicts are
-- objects on a heap, since `self.state` and the entry of `state_map` may be one object or two. Dicts of
-- the state, methods, functions and results are parameters (`Env`), with what the server uses of
-- them: `deepcopy`, `==` and pickling, each of which may fail. A dict that cannot be copied is not
-- changed. An exception that cannot be pickled ends the loop of `main` (`is_running`), and no request is
-- read from then on. So are the targets of tasks, `loads_fn`, and the answers to a `SequenceTaskResult` or a
-- `StateWatcher`. pickle and cloudpickle (`Pickler`), multiprocessing's processes (`Backend`), psutil
-- (`Psutil`) and the binding of sockets (`Network`) are records of functions. Times are natural numbers;
-- random bytes, the clock and the number of CPUs are arguments. zmq's `select` gives the watcher's
-- socket before the state's, and one message each.
--
-- Bounds. Chunk indices are signed and shapes unsigned 32-bit integers, and packing fails beyond. Fuel
-- stands in six places: the interval of `bisect` is enough, one call more than chunks for `as_list`,
-- one more than items for the iteration of a result, one more than updates for that of a watcher,
-- one more than `max_retries` for a child, and one more than the timeout for the loop of a wait, whose
-- rounds take some time each; the theorems say so.
--
-- Not modelled: sockets and their closing, exit handlers, the forwarding of the task proxy,
-- KeyboardInterrupt, logging and texts for printing, which are I/O; pickling, except where the state
-- server may fail in it (results, dicts and exceptions); what an exception of `spawn_map` leaves in `process_list`.
-- A request on the state comes with its namespace, as `State` sends it. After a signal's default handler
-- is back, the signal ends the child, which is not an outcome of the model.

pub mod Prelude
pub mod Serializer
pub mod Counters
pub mod Startup
pub mod Exceptions
pub mod Task
pub mod State
pub mod Process
pub mod Examples

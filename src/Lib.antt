-- ===== src/Lib.antt =====
-- kubecast records what is written to the terminals of a cluster and plays it back in a web page.
--
-- The parts. A BPF probe (bpf/bpf_tty.c) hands each write to a tty to the client (cmd/client), which
-- uploads it to the server (cmd/server). The server keeps one asciinema file for each session, and
-- sends the page a list of the sessions every second. The page is an Elm program; ui/dist/Main.js is
-- what the browser runs: the page's own modules, compiled from ui/src, and the Elm packages that they
-- use. The page subscribes to the server's list through the WebSocket effect manager, which keeps its
-- connections, queues and subscriptions in Elm dictionaries, and plays a session by handing its path
-- to the player through a port.
--
-- What models what.
--   Dict/      ui/dist/Main.js, _elm_lang$core$Dict: the red-black tree. Dict.antt and Dict/Ops.antt
--              are its data and `update`; Dict/Derived.antt what is built on that. `insert` is called
--              `put` and `remove` `discard`, since those names are constructors of `Flag`.
--              Dict/Sorted.antt is the abstract view, a sorted association list; Dict/RedBlack.antt
--              the invariant, Dict/Rebalance, Bubble, Removal and Total that `update` keeps it,
--              Dict/Laws.antt what a client uses.
--   WebSocket/ ui/dist/Main.js, _elm_lang$websocket$WebSocket: `onEffects` and `onSelfMsg` with all
--              that they call. A task is a function of the world that records its effects
--              (WebSocket/Tasks.antt).
--   Array/     ui/dist/Main.js, _elm_lang$core$Native_Array: `fromList` and `get`, the folds in
--              Array/Folds.antt, and `push`, `set`, `map` and `filter` in Array/Push, Set, Map and
--              Operations. Array.antt is the code, Array/Wellformed.antt the invariant of a
--              tree, Array/Chain.antt that of the nodes which `fromList` fills.
--   Text/      Strings as lists of code units, with `split` and `trim`.
--   App/       ui/dist/Main.js, _dippynark$elm: the page's helpers, model, `update`, address and
--              subscription, and the view (App/View.antt, with `toString` of a string and `unquote`).
--              App/Listing.antt, App/Selection.antt and App/Options.antt relate them to the server's
--              message, App/Served.antt to its disk, and App/Connected.antt the subscription to the
--              effect manager.
--   Server/    cmd/server/main.go and pkg/asciinema. Server/Handler.antt is `listHandler` and
--              Server.antt the message that it makes; Server/Upload.antt is `uploadHandler` with
--              `Init` and `Append`, Server/Hash.antt the key of a session and its labels.
--              Server/Refine.antt says what the files mean, as a table of sessions.
--              Server/Names.antt is the names of the files and the hash that is parsed from one.
--              Server/Wire.antt is a record on the wire, Server/Wire/Stream.antt the handler on the bytes
--              of a connection, Server/Interleaved.antt several handlers on the same files.
--   Client/    Client/Probe.antt is bpf/bpf_tty.c, Client.antt pkg/kubecast and cmd/client/main.go, and
--              Client/Delivery.antt the way from the probe to the server's files, over connections of
--              which any part may arrive (Client/Arrival.antt).
--   Scheduler/ ui/dist/Main.js, _elm_lang$core$Native_Scheduler. Scheduler.antt is `step` with the
--              operations on processes, Scheduler/Work.antt `work` and what the browser does.
--              Scheduler/Serving.antt is a relation that names the processes which a call of `work`
--              runs, Scheduler/Throwing.antt says when `step` throws, Scheduler/Meaning.antt is the
--              meaning of tasks apart from stacks and steps.
--   Platform/  ui/dist/Main.js, _elm_lang$core$Native_Platform: `spawnLoop`, `gatherEffects` and
--              `dispatchEffects`, and the ports in Platform/Ports.antt, where a function that is
--              subscribed to a port may subscribe and unsubscribe functions while it is called.
--   Common, Ord  Shared names, lists over the native numbers, and Elm's `compare`.
--   Tests/     Each theorem at a concrete input.
--
-- Conventions. `none` is an exception of the JavaScript code (`Debug.crash`, or a read outside a
-- table) or the server's `glog.Fatal`; in a round of `uploadHandler` it is also the panic of a slice,
-- from which `net/http` recovers, and which is `panicked` in Server/Wire/Stream.antt. Keys of
-- dictionaries are any type with a total order, as Elm's `comparable` documents.
--
-- Bounds and fuel. `balance` calls itself only at a black root, where it makes no further call, so its
-- model nests two calls; `balance_unfold` is the source's recursive equation. The last loop of
-- `fromList` runs on one more unit of fuel than there are nodes, since a push adds at most one level.
-- The digits of a 64-bit number are computed on a fuel of 20, the most that it has; the hash is kept
-- below 2 ^ 32. The backoff is a number of milliseconds that is not bounded, as in the source's
-- floating point up to 2 ^ 53. `step` recurs on the steps that are left below MAX_STEPS; `work` runs on
-- fuel, three for each of these steps and one for each process in the queue, which is enough, since a
-- step adds two processes to the queue at most. `uploadHandler` runs on more fuel than there are bytes.
-- The loop of a port over its functions runs on more fuel than there are functions, which is enough when
-- these subscribe no others.
-- `scanner.Scan` takes lines that are shorter than 64 KiB (`max_scan_token_size`), and drops a carriage
-- return at their end.
-- `i >> (5 * h)` is a division, which it is for indices below 2 ^ 31.
--
-- Tasks are data: a callback is an element of a type of function objects that a parameter applies, and
-- the native bindings are those of the scheduler (`spawn`, `send`, `kill`, `sleep`). Callbacks do not
-- throw. The processes are a function of their ids; an id that is not in use names a dead process.
--
-- Not modelled. The browser (sockets, DOM, the moment at which a timer fires) and the native bindings of
-- other modules, Json, virtual DOM and navigation; the page's start, and the decoding of a port's
-- values; the asciinema player and other projects' packages; errors of the server's disk, a
-- read from a connection that fails otherwise than by the end of its stream, and connections that fail
-- while a list is sent; the loading of the probe and the client's table of containers, which is not
-- used; the tasks of gulp; `append` of arrays, and `slice`, which makes trees whose children have
-- different heights. The handlers of a client's connections run one after the other in
-- Client/Delivery.antt; Server/Interleaved.antt and Server/Overlap.antt have handlers that are at work
-- on the same files at once. A round of `uploadHandler` is one step of an interleaving. JSON is a parameter of Server/Upload.antt with
-- the laws that a header is read back and holds no newline or carriage return.
pub mod Common
pub mod Ord
pub mod Dict
pub mod WebSocket
pub mod Text
pub mod App
pub mod Server
pub mod Tests
pub mod Array
pub mod Scheduler
pub mod Platform
pub mod Client

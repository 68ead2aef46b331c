-- ===== src/Lib.antt =====
-- kenojs is a web framework for Node.js: an HTTP router and server, a WebSocket server without
-- dependencies, and worker threads for tasks and for whole servers. This library models the parts
-- that keep state of their own.
--
-- Websocket/Frame.antt models src/internal/websocket/frame.ts: buildFrameHeader and buildFrame are
-- build_frame_header and build_frame, tryParseFrame is try_parse_frame, in the parts read_length
-- and parse_body. Bytes are numbers, a Buffer is a list. The addon bufferutil, which may unmask
-- instead of the code, is a parameter. The word loop of unmaskPayload is unmask_words, on the
-- payload itself.
--
-- Websocket/Connection models src/internal/websocket/connection.ts, the class KenoWebSocket. State
-- is its state, with a log of what was written to the raw socket, set as a timer or emitted, the
-- newest entry first. Outgoing has the calls of the application, Incoming the handlers of the raw
-- socket's events, and Steps is one event or call of any kind. handleChunk's loop (parse_frames) is
-- on fuel, the length of its buffer, which is enough since a frame takes two bytes or more. The
-- asynchronous flush of compressed messages is cut at its awaits; what the compressor returns is an
-- input. Inflation, UTF-8, and whether the socket has cork are fields of Env. Listeners are called
-- after a handler and not inside it, and template values in messages are left out.
--
-- Websocket/Rooms.antt models src/internal/websocket/rooms.ts (KenoWebSocketRooms): rooms and
-- socketRooms are lists of entries, a socket is a number, a Set is a map to Unit. A join that
-- throws returns none. roomNames and roomsOf, which only sort keys, are not modelled.
--
-- Websocket/Heartbeat.antt models src/internal/websocket/heartbeat.ts (KenoWebSocketHeartbeat). The
-- timer is a call of tick at a time; whether a socket is open, and whether its ping or close
-- throws, is a parameter of that tick. The rooms call track and untrack, which their log records.
--
-- Concurrency/WorkerPool.antt models src/internal/concurrency/worker-pool.ts (KenoWorkerPool). A
-- promise is known by its task's id, what is done to promises, timers and workers is a log, and
-- what Node.js reports is an input of step. A call of run says whether postMessage will take its
-- message; where it throws, the task stays started and its worker busy. A worker is told to shut
-- down whether or not its thread is gone already, and the wait for the workers in close ends with
-- the input closed_down.
--
-- Concurrency/ThreadCluster.antt models the class KenoThreadCluster of
-- src/internal/concurrency/thread-cluster.ts: workerSnapshots and the promise of ready, with the
-- same kind of log and inputs; resolveReady and rejectReady settle the promise once. Whether
-- "error" has a listener is a field: without one emit throws, and rejectReady is not reached.
--
-- Http/Paths.antt and Http/Matching.antt model src/internal/http/path.ts, the latter compilePath
-- and matchPath: a regular expression is the list of its tokens with its end, and matching
-- backtracks. Http/RouteTree.antt models src/internal/http/route-tree.ts (RouteTree): add_segments
-- is the loop of add over the segments, and resolve_node is resolveNode, on the segments that are
-- left. Texts are lists of UTF-16 code units, and decodeComponent is a parameter.
--
-- Http/Router models src/internal/http/router.ts (KenoRouter). Router has its layers and its tree
-- with the operations that register layers; a call that throws a SyntaxError returns none.
-- Router/Dispatching has dispatch, dispatchLayer, dispatchDirectRoute and invokeHandler: what
-- follows a layer, and done, are functions, and a run has the scope of the request, the world of
-- the handlers and a log of their calls, the oldest first. A handler is a parameter that returns,
-- calls next as its last act, or throws; the code lets a handler call next again, and act or throw
-- after it, which is not modelled. Router/Traces has the calls that a router may make, as data.
--
-- Http/Body.antt models buffer, text and json of src/internal/http/request.ts (KenoRequest) with
-- their cache. The events of the raw request are inputs, and a call is cut where it awaits.
--
-- Http/Response.antt models src/internal/http/response.ts (KenoResponse): a raw response is its
-- status, headers and end, an operation that throws is none, a payload after the end leaves an
-- error, and calls is what a handler does with it. JSON and the lengths of texts are parameters;
-- sendFile and the helpers for types are left out. Http/Application.antt models handleNodeRequest
-- and sendError of src/internal/http/application.ts (KenoApplication), with the dispatch of the
-- router; Http/Application/Upgrading.antt has handleUpgrade and handleHttp2Stream, with the routes
-- of the router and the handshake; a handler fulfils or rejects its promise, or throws before there
-- is one. Its other methods, which read the stack of the caller and the environment, are left out.
--
-- Http/Static.antt models src/internal/http/static-service.ts: the file system and paths of Node.js
-- are parameters, and requests come one after the other.
--
-- Shared/SafeJson.antt models src/internal/shared/safe-json.ts. The walk over the pending values is
-- on fuel, the number of values in what was parsed, which is enough as each value is visited once.
--
-- Shared/Cookies.antt models src/internal/shared/cookies.ts, with encoding and decoding as
-- parameters; the object of the cookies is a map that ignores the key "__proto__".
-- Shared/Sizes.antt models parseSize of src/internal/shared/utils.ts.
--
-- Websocket/Handshake models src/internal/websocket/handshake.ts (Upgrading has the answers) and
-- the negotiation in src/internal/websocket/permessage-deflate.ts: hooks, hashes and the tables of
-- Node.js are functions, and lower case is that of ASCII. The maximal payload is parsed after the
-- answer (open_socket), and may throw there. Websocket/Compression.antt models the rest of that
-- file: the class ZlibConcurrencyGate, cut at its await, and PerMessageDeflateCompressor, where
-- what the stream of node:zlib emits is an input and its calls are a log; the table that shares
-- gates is left out.
--
-- Client models src/internal/client. Retry, Execution, Urls and Signals are of http.ts
-- (HttpClient): the options and delays of retries, the attempts of execute with runMiddlewares, the
-- paths, queries and bodies of requests, and createRequestSignal with waitForRetry. What fetch
-- answers, what createRequest throws, and which timers and aborts there are, is a function of the
-- attempt; attempt_from has as many attempts left as the options allow, as the loop has. Sockets is
-- websocket.ts (KenoWebSocketClient) as a machine whose inputs are calls and the events of its
-- sockets and timers, the oldest effect first in its log; Retry/Reconnects has its options and
-- delays. Numbers of both are natural.
--
-- Prelude has the shared helpers: tests, lists measured by native numbers, JavaScript maps as lists
-- of entries, texts, and the bitwise operations on bytes and words.
--
-- Not modelled: the rest of requests, media types; servers, certificates and worker bootstrap,
-- which are input and output of Node.js; and re-exports and type declarations.
pub mod Prelude
pub mod Shared
pub mod Websocket
pub mod Concurrency
pub mod Http
pub mod Client

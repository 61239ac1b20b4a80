-- ===== src/Lib.antt =====
-- rsproxy is an intercepting HTTP proxy. This library models four parts of it that carry its own
-- state and logic, and proves what makes them correct.
--
-- The trace collector, crates/rsproxy-trace/src. Producers submit events of sessions through
-- `TraceStore` to a bounded channel; one thread, the collector, owns the pending sessions and the
-- completed ones, and answers queries. Everything that the store keeps is charged to a memory budget.
--   Trace/Model.antt     model.rs: sessions and their parts, with the capacities of their buffers
--   Trace/Size.antt      store/memory.rs, event.rs: what a session is charged for
--   Trace/Event.antt     event.rs: the events, `from_session`, `continuation_from_session`
--   Trace/Memory.antt    store/memory.rs: `MemoryStore` (`insert`, `evict_to_budget`, `list`,
--                        `list_after`, `get`, `clear`)
--   Trace/Pending.antt   store/pending.rs: `PendingSessions` (`apply`, `expire_stale`, `update`,
--                        `abort_for_budget`, `clear`)
--   Trace/Config.antt    store/config.rs: `memory_partitions`
--   Trace/Counters.antt  store/counters.rs, `submit` of store.rs; Counters/Channel.antt has the
--                        interleaved steps of the producers and the collector
--   Trace/Worker.antt    store/worker.rs: `TraceWorker`; Worker/Run.antt has its loop
--   Trace/Store.antt     store.rs: `TraceStore` and its collector as steps on one state
-- WebSocket frames, crates/rsproxy-engine/src/proxy/websocket_frame.rs and websocket.rs. A tunnel
-- reads frames, forwards their bytes and records them for the trace.
--   WebSocket/Frame.antt    `parse_ws_frame_prefix`, in its stages
--   WebSocket/Decoder.antt  `WsFrameDecoder`
--   WebSocket/Read.antt     `read_ws_frame`
--   WebSocket/Record.antt   `record_ws_frame`, `update_ws_trace_state`
--   WebSocket/Tunnel.antt   websocket/nonblocking.rs: the tunnel that one thread runs
--   WebSocket/Copy.antt     websocket/concurrent.rs: the copying loop of the tunnel on two threads
--   WebSocket/Wire.antt     the format of RFC 6455 that frames have, as a definition of its own
-- The rule engine, crates/rsproxy-rules/src. A snapshot of parsed rules is indexed by host and by the
-- literals of its regexes; for a request the candidates of its URL are evaluated in order of priority
-- and give actions. The proxy asks first whether it has to read the request's body.
--   Rules/Text.antt        the string methods of the standard library that the crate calls
--   Rules/Url.antt         matcher/url.rs: `UrlParts`
--   Rules/Action.antt      action.rs and action/: the actions
--   Rules/Family.antt      matcher/action.rs: the families of actions; Rules/Classify.antt has those
--                          of each action
--   Rules/FamilySet.antt   `ActionFamilySet`, and family.rs: `SkipState`; Rules/Bits.antt has its flags
--   Rules/Model.antt       model.rs: rules, matchers, conditions, requests, results
--   Rules/Engine.antt      what is called outside of the crate, as the parameter `Engines`, and what
--                          is relied on of it, `Lawful`
--   Rules/Glob.antt        matching.rs: `CompiledGlobSet`; Rules/GlobMatch.antt has the matching of
--                          hosts and addresses
--   Rules/Literals.antt    index.rs: `CompiledBodyContainsSet`
--   Rules/Match.antt       matcher/pattern.rs: `Matcher::matches_compiled`
--   Rules/Conditions.antt  binding of conditions, and which parts of an exchange they depend on
--   Rules/Evaluate.antt    matcher/condition.rs, planning.rs: `matches_with_compiled`,
--                          `may_match_before_request_body`
--   Rules/Index.antt       index.rs: the building of `RuleIndex`, with its keys in
--                          Rules/IndexKey.antt
--   Rules/Candidates.antt  index.rs and resolve.rs: `candidate_rule_indices`
--   Rules/Resolve.antt     `resolve_inner` of resolve.rs, `request_body_required` of
--                          resolution_api.rs
-- The pool of upstream HTTP/2 connections, crates/rsproxy-net/src. Threads that forward requests
-- share it under a lock: a stream is admitted within the limit of its key, and takes a connection
-- from the pool or claims the making of one.
--   Pool/Activity.antt     upstream_pool.rs: `KeyedActivity`, `acquire_slot`
--   Pool/Http2.antt        upstream_h2/pool.rs: `H2Pool` and what is done under its lock
--   Pool/Steps.antt        the threads as interleaved steps (upstream_h2.rs,
--                          upstream_h2/connection.rs)
-- Base.antt and the modules below it have the shared tests, lists, machine words, bytes and
-- association lists. The child modules of a part are named for what they prove, and Tests modules
-- run the definitions on concrete inputs.
--
-- State is passed explicitly: a method is a function from the state to the new state and its result,
-- a `HashMap` is an association list with unique keys, a `VecDeque` and a `Vec` are lists, and a `Vec`
-- or `String` whose allocation is charged has its capacity. Numbers are natural numbers, with the
-- saturation or the wrap-around of 64-bit words written out where the source has it. Sizes of types,
-- which the compiler chooses, are a parameter (`Layout`), and so are the spill files (`SpillOps`).
-- A method reads the monotonic clock once, the collector once for a batch of events.
-- A pool's key is known by a number. A string is the list of its UTF-8 bytes; a panic of the rule
-- engine is `none`. The regex engines, the automaton for many texts, the environment and the
-- address parsers are the parameter `Engines`.
--
-- Bounds and fuel. The loops of `insert` and `evict_to_budget` run on the number of sessions, since
-- every round takes one out; `WsFrameDecoder::push` runs on one more than the bytes of its buffer,
-- since every frame has two bytes or more. The loops of the tunnel run over what its sockets
-- answer, which the model is given as lists. The copying loop runs on one more than the frames of
-- its stream, and answers `none` when its fuel is over. The loop of `try_reserve` runs over the attempts that it meets, and that of
-- `acquire_slot` over its waits. `H2Pool::insert` makes room along the order of use. Budgets are
-- less than 2^64 - 1 where a theorem says so: at the largest word saturating sums can no longer be
-- told from exact ones.
--
-- Not modelled: spill files and their formats, JSON, threads and their creation and shutdown, the
-- receiving end of a follower, the spare capacity of a cloned buffer, the modes and the
-- half-closing of the tunnels' sockets, the handshakes, the parser of rules with its limits, templates
-- and bounded replacement, the linter, explanations and migration of rules, the rest of the
-- network crate and of the engine, and the other crates (control, platform, command line).
pub mod Base
pub mod Trace
pub mod Pool
pub mod Rules
pub mod WebSocket

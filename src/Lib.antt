-- ===== src/Lib.antt =====
-- A verification of the WebSocket server (Rust, in src/).
--
-- The program admits websocket connections (`ws_handler`) through an IP limiter, a global
-- semaphore, a login and a cap for each tenant; registers each connection under its tenant and
-- client name; takes in its messages under a rate limit and a tenant's rate limit; and passes them
-- on, to the subscribers of a topic or to one client. An HTTP API does the latter two as well.
--
-- The files and the source:
--   Bucket, IpLimiter       src/ip_limiter.rs: `TokenBucket`, `IpLimiter`, `IpPermit`.
--   RateLimiter             src/server.rs: `RateLimiter`.
--   Topic                   src/server.rs: `normalize_topic`, `extract_topic`; src/state.rs:
--                           `tenant_topic`.
--   Auth                    src/auth.rs: `AuthVerifier`.
--   State                   src/state.rs: `AppState` and its methods. Children: Clients (direct
--                           messages, registrations), Topics (publishing), Tenants (caps).
--   Handshake               src/server.rs: `ws_handler`, `resolve_client_ip`. Children:
--                           Login, Permits, Tenants.
--   Messages                src/server.rs: `handle_text`, `handle_binary`, `handle_client_event`,
--                           `send_error`, `send_encoded`; in Reader a turn of the reader task of
--                           `connection_loop`. Children: Frame, Isolation, Rate (its loop),
--                           Effects, Turns and Queues (what a turn can do to the shared state),
--                           TenantRate (what it does to the tenants' buckets).
--   Connection              src/server.rs: `handle_socket` and `connection_loop`, how a connection
--                           begins and, in Closing, what it gives back when it ends; in Tasks the
--                           writer and the fan-out, and in Tasks.Session the steps of the three
--                           tasks, `select!` and the aborts as a relation. Children of Tasks:
--                           Order, Wire, Delivery, Greeting, Ending, and Listening (what the
--                           fan-out hears of what is published to its topic).
--   Server                  src/server.rs, src/state.rs, src/api.rs: requests, beginnings, turns
--                           and ends of connections as a relation on the whole server. Children:
--                           Core, Calls, Handshakes, IpCap, Ends, Counting, Admission, Limits,
--                           Tenants, TenantRate, and Registry (who is registered, under which id).
--   Router                  src/server.rs: `router` and the health routes, with the handlers behind
--                           them. Guarded: requests without an accepted token.
--   Mint                    examples/mint-token.rs. Login: the server accepts what it makes.
--   Api                     src/api.rs: `api_publish`, `api_direct`. Children: Effects, Direct,
--                           Counting (the count of outbound messages).
--   Protocol, Config, Metrics, Net
--                           src/protocol.rs, src/config.rs, src/metrics.rs, and socket addresses.
--   External                the crates that the program calls: tokio's semaphore, mpsc and
--                           broadcast, jsonwebtoken, serde and the parser of addresses, as records
--                           of operations and documented laws; Receiver is the receiving end of a
--                           broadcast channel. Model, Tokens and Log have plain values.
--   Metrics.Render          src/metrics.rs: `render_prometheus`. Decimal prints and reads numbers,
--                           Scrape is a reader of the exposition format.
--   Str, Base               Rust's `str` methods on code points; tests, lists, maps and counting.
--
-- How the code is modelled:
--   * A method takes the state and returns the new one. A handler is one function of the whole
--     path, with a helper for what follows each test, in the order of the source.
--   * A call reads the clock once: `now` is its argument, in nanoseconds. Tokens are counted
--     exactly, in units of 10⁻⁹ token, where the source has f64; its rounding is not modelled.
--   * Counters of 32 and 64 bits wrap around as they do in the source.
--   * A DashMap is an association list, and one operation of it is atomic. Where a method takes two
--     of them (`unregister_client`) both are definitions, and a theorem puts a call between them.
--   * A permit that the source drops goes back by an explicit call where the source returns.
--   * An mpsc queue is kept in the state by number, and a sender is that number.
--   * A task of a connection runs one turn at a time. A task that is aborted in the middle of a
--     write counts as one that was not written. That a channel of a topic loses a receiver is part
--     of Connection/Tasks only; Server leaves the receivers be.
--   * In Server the beginning and the end of a connection run without interruption. What others may
--     do between a registration and the `Ready` event is part of Connection/Tasks/Greeting, and what
--     they may do between the test and the removal of `unregister_client` is left open in
--     Server/Registry/Ids. A capacity of zero, with which tokio's channels panic, is not modelled.
--   * An i64 is an integer, and where it does not fit the debug build panics, which is `none`.
--   * Loops are structural recursions over lists or numbers. Fuel is used only to print a number,
--     twenty digits, which no word of 64 bits exceeds.
--
-- Not modelled: how a path finds its route, serving and shutdown, logging, and the command line.
pub mod Api
pub mod Auth
pub mod Base
pub mod Bucket
pub mod Config
pub mod Connection
pub mod External
pub mod Handshake
pub mod IpLimiter
pub mod Messages
pub mod Metrics
pub mod Mint
pub mod Net
pub mod Protocol
pub mod RateLimiter
pub mod Router
pub mod Server
pub mod State
pub mod Str
pub mod Topic

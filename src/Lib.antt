-- ===== src/Lib.antt =====
-- cordn-rs: the coordinator of end-to-end encrypted groups, and the server in front of it.
--
-- The coordinator core (crates/cordn-core/src) keeps, for clients that cannot all be online, the MLS key
-- packages that let an identity be added to a group, the welcomes that wait for it, the requests to join a
-- group, and the numbered log of each group's opaque messages. The server (crates/cordn-server/src) puts an
-- adapter in front of it: it limits the rate of a caller, checks what is published, and enforces a quota.
--
-- The files and the code they model:
--   Common, Common/*       no code: lists, maps, i64 and results as Rust has them, and their lemmas
--   Types                  types.rs, and the errors and helpers of storage/mod.rs
--   Storage                the trait CoordinatorStorage (storage/mod.rs) as an interface of state and calls,
--                          and the two backends as its instances; Storage/Calls has the calls as data
--                          and their runs, Storage/Atomic what a failed call on SQLite leaves, and
--                          Storage/UniqueRefs what any run on it keeps
--   Memory, Memory/*       storage/in_memory.rs: State is InMemoryInner; KeyPackages, Welcomes, JoinRequests
--                          and Messages have its methods under their own names, with proofs below them
--   Sqlite, Sqlite/*       storage/sqlite.rs: the tables, the statements and transactions (Sqlite), and the
--                          methods in files of the same names as those of Memory; Schema is the opening of
--                          a database, on the columns of its tables
--   Parity, Parity/*       no code: the relation between the tables of the one backend and the maps of the
--                          other, and that each method keeps it and answers alike
--   Coordinator/*          coordinator.rs: Subscriber, Registry (SubscriberRegistry and its helpers) and
--                          Service (struct Coordinator and its methods, over any CoordinatorStorage)
--   MlsParse, MlsParse/*   mls_parse.rs: Cursor, read_var_bytes, parse_key_package, detect_last_resort
--   RateLimit, RateLimit/* ratelimit.rs: TokenBucketRateLimiter
--   Config, Config/*       crates/cordn-server/src/config.rs: Env is the environment files, Read is
--                          read_server_config and its helpers
--   Contracts              contracts.rs: the wire shapes
--   Adapter, Adapter/*     crates/cordn-server/src/adapter.rs: the guards and the quota (Adapter), what is
--                          read and written of the wire (Mapping), the methods (Methods), and the loop
--                          of a subscription's stream (Streaming)
--   Tests, Tests/*         concrete states, and the theorems applied to them
--
-- How it is modelled. A method on &self takes the state behind its lock and gives its outcome (a value, an
-- error or a panic) and the state it leaves; where the code takes two locks in turn, as in
-- subscribe_many_group_messages, the two halves are functions of their own. Maps are association lists in
-- insertion order, for HashMap and IndexMap alike; strings are lists of UTF-8 bytes. An i64 is an integer,
-- and an operation that may overflow wraps (Common/Int), while a usize is a natural number. Clock readings
-- are arguments. A channel is the list of what was sent on it, and tokio's select in the streaming loop is
-- the list of what it comes to in each round.
--
-- SQLite. A table is the list of its rows in the order of their ids, and each SQL statement of the source
-- is a function of the tables, with the unique columns and indexes as the schema has them. The driver may
-- fail at any statement: what it makes of the statements to come is a list in the connection, and a
-- transaction that does not commit leaves the tables that it found. serde_json, and the texts of the errors
-- of the driver, are the record Driver, a parameter of the methods.
--
-- Fuel. The two loops of the parser over tagged fields run on a fuel of the length of their slice plus one;
-- each round reads three bytes or more. All other loops follow the structure of a list.
--
-- Not modelled: f64 rounding in the rate limiter (tokens are whole numbers of 1/60000 token, exact for the
-- whole configuration values that the server passes), the transport glue and start-up (methods.rs,
-- main.rs), tokio's channel, select and tasks, and what tracing does with a warning. base64 and serde_json
-- are the record Codec, a parameter of the adapter.
pub mod Common
pub mod Types
pub mod Memory
pub mod Sqlite
pub mod Storage
pub mod Parity
pub mod Coordinator
pub mod MlsParse
pub mod RateLimit
pub mod Contracts
pub mod Config
pub mod Adapter
pub mod Tests

-- ===== src/Lib.antt =====
-- jetrun: a self-hosted build server. This library models its core, proves it correct, and runs
-- its definitions on examples. Paths are from the repository's root.
--
-- The parts and the files that model them:
-- * crates/jet-core, values that every crate shares: Core.Id (src/id.rs, typed identifiers),
--   Core.Digest (src/digest.rs, the texts and routing of digests), Core.Permission and Core.Role
--   (src/authz.rs, the catalogue of permissions and the built-in roles) and Core.Scope
--   (src/authz.rs, principals, scopes and their lineage).
-- * crates/jet-proto, the wire protocol. Proto.Frame (src/frame.rs): the header with
--   FrameHeader::encode as encode and FrameHeader::decode as decode, MsgType in Proto.Frame.Kind.
--   Proto.Msg (src/msg.rs): the messages, their limits, and each Validate as validate_ and the
--   message. Proto.Conn (src/conn.rs): stream identifiers, send and recv in Proto.Conn.Transport,
--   server_handshake in Proto.Conn.Handshake, client_handshake and ping in Proto.Conn.Client, as
--   what is sent and the reading of what comes back.
-- * crates/jet-cas, the content-addressed store. Cas.Name and Cas.Tree (src/tree.rs): a Tree is
--   the list of a BTreeMap's entries, and Cas.Tree.Cursor the bounds-checked reader of its decoder.
--   Cas.Store (src/store.rs): the objects are a list, and gc is mark and then sweep. Cas.Link
--   (src/link.rs) is materialize for one file, and Cas.Store.Materialize (src/store.rs) is
--   materialize_tree, with a log of what it did to the disk; Cas.Store.Put is put_file with the
--   staging of objects, and Cas.Store.Ingest is ingest_dir, over a directory as data.
-- * crates/jet-authz/src/lib.rs, permission checks. Authz.Tables has the tables and the SQL
--   queries as functions of their rows, Authz.Cache the decision cache, Authz.Decision authorize
--   and effective_permissions. Authz.Coherence is the cache under concurrency: a step relation of
--   calls, commits and invalidations. It asks of Core.Scope what a scope's ancestors are.
-- * crates/jet-store/src/bootstrap.rs, the built-in roles: Store.Bootstrap, with one turn of the
--   loop as reconcile. The tables are lists of rows, as in Authz.Tables, and the keys and
--   references of migrations/0002_authz.sql are tests.
-- * crates/jet-server, the two listeners. Server.Verify (src/webhook/verify.rs, signatures),
--   Server.Dedupe (src/webhook/dedupe.rs, the replay guard), Server.Event (src/webhook/mod.rs:
--   payloads in Server.Event.Payload over the JSON of Server.Event.Json, parse in
--   Server.Event.Parse), Server.State (src/state.rs, what handlers share), Server.Http
--   (src/http.rs: the handlers webhook, dispatch and trigger, and the router as respond) and
--   Server.Session (src/jrp.rs: handle, with its loop as run and one turn of it as turn).
-- Prelude has what they share: Boolean tests and what they decide (Reflects), members of lists,
-- maps by key, Rust's Result with `?` as a bind, and bytes with little-endian integers.
--
-- The listeners compose the other parts: a webhook is verified, checked against the guard, parsed
-- and enqueued, in this order; a session starts with the handshake, takes frames as the transport
-- cuts them, and validates a message before it is acted on.
--
-- State is passed on by the functions that change it: a call takes the cache, the guard, the
-- server's state or the objects and returns them with its answer. Errors are values of Result.
-- Clocks are read before a call and given to it, in milliseconds; a difference of times stops at
-- zero, as Rust's does. The identifier of a new run is given too. What a peer sends is a list: of
-- bytes for the transport, of what recv returned for a session, and of requests for the HTTP
-- listener, in the order in which they take the guard's lock.
--
-- Parameters stand for code that is not the repository's: the type of ULIDs with its printer,
-- parser and equality, the keyed hash of manifests, HMAC, the crate `hex`, the archives of rkyv
-- (Codec), the JSON reader of serde_json, the text of header values, and the texts that thiserror
-- and Debug derive. What a theorem needs of them is a hypothesis. A hash map is an association
-- list. How a system call ends is a parameter too (Calls, Kernel, Staging), and what a read of a
-- file gives (Reads).
--
-- Fuel: the mark loop has one unit for each root and for each directory entry of each stored
-- manifest, and one more. An entry is pushed only when the manifest that lists it is first
-- marked, so this is enough. The loop of trim_start_matches has the length of the text, and
-- Server.Event.Trim proves that enough. The directories under a manifest are opened on fuel, 129
-- levels, where the source bounds its depth at 128 and fails in the same way. The other loops are
-- structural.
--
-- Not modelled: file and socket I/O (crates/jet-proto/src/tuning.rs, crates/jet-store/src/db.rs),
-- failures of a session's own sends, the accept loop and its shutdown, poisoned locks, serde, and
-- what a crash leaves in the staging area.
pub mod Prelude
pub mod Core
pub mod Proto
pub mod Cas
pub mod Authz
pub mod Server
pub mod Store

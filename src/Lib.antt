-- ===== src/Lib.antt =====
-- ZaoP2P: the core of a peer-to-peer messenger with file transfer (core/src, in Rust).
--
-- The program. Two devices find each other (core/src/discovery.rs), connect over QUIC with a Noise_XX
-- handshake (core/src/connection_manager.rs, core/src/noise_session.rs), and exchange encrypted
-- messages (core/src/protocol.rs). A file is offered, accepted, and sent in chunks of 8 MiB that
-- arrive in any order (core/src/transfer.rs). What must survive a restart is in SQLite
-- (core/src/storage.rs). Devices that do not share a network use STUN (core/src/stun_client.rs) and a
-- signaling server (core/src/signaling.rs, core/src/signaling_client.rs). The user interface calls the
-- functions of core/src/ffi.rs and polls its queue of events.
--
-- The files.
--   CoreError, Float    the error type and `Result`; floating point, a parameter
--   Stream, Stream/     `read_exact`; `write_framed` and `read_framed` of the connection manager
--   Transfer, Transfer/ `ChunkFrame`, `TransferHandle` (state passed on instead of an `Arc`), and the
--                       chunks of files on a disk that maps paths to bytes
--                       (Files), and `run_sender_workers`, which nothing calls (Workers)
--   Stun, Stun/         the binding request, the parser of responses, the order of servers
--   Identity, Identity/ `DeviceIdentity` and `sealed_box`, over a record of the crypto crates
--   Sql, Storage/       the tables as lists of rows, and each query of `Storage` as a function
--   Discovery, Discovery/ the table of peers, what a datagram or an mDNS answer does to it, and the
--                       start and the threads of `Discovery` (Service)
--   Transport           `QuicTransport`, over a record of quinn, rustls and rcgen
--   Protocol, Signaling the messages, the reader of the signaling client, its tracker of sessions
--   Noise, Noise/       `NoiseSession`, over a record of the operations of the crate snow
--   Events              `AppEvent` and `QueueSink`
--   Manager, Manager/   `ConnectionManager`: its tables as one state, and the operations on it:
--                       Transfers (decisions, cancelling), Offers, Chunks (`handle_incoming_chunk`),
--                       Dispatch (`dispatch_incoming`), Sessions (handshakes, the accept
--                       loop), Authentic (whose session each is), Sending
--                       (`run_outgoing_transfer`), Streams (the tasks that write and read one),
--                       Resume (`auto_resume_transfers_to_peer`), Relay (the handshake over a relay,
--                       Signals: the signaling server's events), Folder (`send_folder`,
--                       `collect_files_recursive`)
--   Ffi, Ffi/           the functions that both shells call: the session and the identity, Network,
--                       Chat, Files, Mesh (`ble_seal_message`, `ble_open_message`), and NativeBridge,
--                       the JNI functions
--   Windows, Windows/   windows/src-tauri/src/main.rs: the key of the database (Windows), the commands
--                       (Commands), and sequences of them (Calls, Invoke)
--   Prelude, Prelude/   numbers, lists, maps and bytes for all of these
--   Tests/              the theorems at concrete inputs
--
-- How the code corresponds. A method that changes shared state takes the state and returns the new
-- one; an `async` function runs to its end, and what it spawns is an operation of its own. A
-- `HashMap` is an association list, a `HashSet<u64>` a list of numbers. Numbers are naturals; where
-- `u64` or `u32` wraps around, the remainder is written out. Clocks, ids and keys that the source
-- draws are arguments. The records World, Crypto, Snow, Codec, Float, Network, Quinn, Mdns and
-- Shelled stand for crates and for the system;
-- their laws are those that the crates document.
--
-- A run of `run_outgoing_transfer` is a list of moves: of its loop, of the worker of a chunk, of the
-- user (pause, resume, cancel) and of the connection. Every order of them is a schedule, and a move
-- that is not possible changes nothing. The handle that the run shares with the table of transfers
-- is the one of the run. Over a relay each chunk has a channel and a forwarder of its own: such a run
-- has no move of the stream's writer or of the connection.
--
-- Fuel. The loop over STUN attributes has the length of the data, as a round reads four bytes at
-- least. The walk of a folder has fuel for each directory; one for each of a finite tree is enough.
-- The reader of a stream has fuel for each frame.
--
-- Not modelled: the order in which the forwarders of the chunks of one relayed transfer take their
-- turns, tasks that share a Noise state at the same time, Tauri and the build script of the Windows
-- shell, and the Android shell, which is Kotlin.
-- Errors of a disk that is full or of a database that cannot be read are not modelled either.
pub mod Prelude
pub mod CoreError
pub mod Float
pub mod Stream
pub mod Transfer
pub mod Windows
pub mod Transport
pub mod Stun
pub mod Identity
pub mod Discovery
pub mod Protocol
pub mod Signaling
pub mod Noise
pub mod Sql
pub mod Storage
pub mod Events
pub mod Manager
pub mod Ffi
pub mod Tests

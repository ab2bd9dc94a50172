-- ===== src/Lib.antt =====
-- The docker-mobile agent: what stands between a phone and a Docker daemon.
--
-- The agent (agent/internal) lets phones reach a Docker daemon over HTTP. An operator starts a pairing,
-- which gives a one-time code; a phone proves that it holds the code and is given a token of its own;
-- every later request carries the token. The parts that decide who gets in are modelled here, with the
-- state they keep passed explicitly. What a method of the source changes it changes under a lock, so a
-- method is a function from a state to a state, and several goroutines are a sequence of calls; where a
-- method gives its lock up between two steps, they are two functions.
--
-- Throttle (agent/internal/throttle/throttle.go) counts wrong guesses by address and blocks an address
-- that failed too often: `fail` is Fail, `blocked` is Blocked, `evict` is evictLocked. Times are natural
-- numbers, in nanoseconds. Throttle/Penalty, Block, Table, Evict and Uncapped hold the proofs.
--
-- Conns (agent/internal/conns/conns.go) is the registry of open requests: `track`, `release`,
-- `close_device` and `close_all`. What these end is listed in the state: the source calls the cancel
-- functions right after it has given its lock up. Conns/History makes a history of calls out of them; Held, Accounts and
-- Close hold the proofs. A request is numbered by a 64-bit counter that wraps around.
--
-- State/Dir (agent/internal/state/dir.go) writes a file of the state folder, step by step, where each
-- step may fail. State/Names, Sort, Tokens and Devices (agent/internal/state/devices.go) are the list of
-- paired devices: `add`, `authenticate`, `remove`, `list_devices`, `save` and `load_devices`. The
-- proofs below State/Devices are about what an operation stores (Store), access (Access), a restart
-- (Restart) and well-formed lists (Valid).
--
-- Pairing/Code and Pairing/Proof (agent/internal/pairing/code.go) are the codes, the proofs of the two
-- sides and the link; Pairing/Manager (agent/internal/pairing/manager.go) is the one pending pairing:
-- `start`, `cancel`, `expire` and `redeem`. The proofs below it are about redeeming (Redeem), guesses
-- (Guesses) and results (Channels).
--
-- Auth (agent/internal/auth/authenticator.go) decides who sent a request: `require` is Require, over the
-- limiter, the list of devices and the registry. Other goroutines run between its steps; they are
-- functions on the shared state that a theorem leaves open.
--
-- Policy (agent/internal/policy/policy.go) decides what a read-only device may send:
-- `allowed_read_only` is AllowedReadOnly, with the regular expressions as patterns and a matcher. Its
-- proofs are Policy/Clear, Version and Allowed.
--
-- Server (agent/internal/server/middleware.go) is what stands in front of the handlers: `role_gate` with
-- `drop_upgrade`, `reject_browsers`, `full_only`, the failure log (`note`) and the status writer.
-- Server/Tokens, Gates and Failures hold the proofs. Server/Pair (agent/internal/server/pair.go) is the
-- endpoint that a stranger may call: `handle_pair` is handlePair, and Server/Pair/Granting its proof.
--
-- State/Open (agent/internal/state/dir.go and os_unix.go) opens the state folder: `open_folder` is Open,
-- with the checks of mode, owner and content in the order of the source, and what others do to the
-- folder between two of them left open. Its proofs are State/Open/Looks,
-- Private and Own.
--
-- Config (agent/internal/config) reads the settings: Config/Address and Config/Advertised are
-- advertise.go (`split_address`, `with_host`, `parse_advertise`), with their proofs in Config/Address/Split
-- and Hosts and in Config/Advertised/Reach; Config/Load is config.go (`load`).
-- Tlsid (agent/internal/tlsid/tlsid.go) keeps the certificate that phones pin: `load_or_create`. Exec
-- (agent/internal/exec/bridge.go) starts a terminal: `valid_exec_id`, `exec_request`, `read_answer` and
-- the copying loops. Qr (agent/internal/qr/qr.go) draws a code: `render`.
--
-- Admin (agent/internal/admin/admin.go) serves the command line over the manager, the devices and the
-- registry: `handle_pair`, `handle_devices`, `handle_revoke`. Its `select` is an argument that says which
-- case woke it. Admin/Socket is Listen and Close for any number of agents on one folder; Admin/Client
-- (agent/internal/admin/client.go) the other end of the socket; Command (agent/cmd/agent) what the
-- commands make of it. Admin/Race takes the steps of Require's serve and of handleRevoke in turns, with
-- other calls between them. In it no device is added while the revoked one is gone: the ids that Add
-- draws are random, and a new device with the old id would have another token.
--
-- State/Devices/Book states what the list of devices promises without its map and its file;
-- State/Devices/Durable is about its file along a history of calls.
--
-- Base and the modules below it hold what the parts share: tests on numbers and texts, lists,
-- association lists for Go's maps, errors as values, and the functions of Go's strings package.
--
-- Every loop is structural recursion on a list or on a number that the source counts, so no fuel is
-- chosen. The loop of Add that draws an id until one is free reads its random bytes from a list, and
-- ends with an error when they run out. encoding/json, SHA-256, HMAC, PBKDF2, the unicode tables and the
-- trimming of white space from bytes that need not be UTF-8 are parameters; where a theorem relies on one of them, it says so as a hypothesis.
--
-- Not modelled: the text of error messages beyond what tells errors apart, the life of the process and
-- the order in which it stops, the routing of net/http, the flags and the output of the commands,
-- deadlines, the proxy itself, the phone app (app) and the scripts.
pub mod Base
pub mod Throttle
pub mod Conns
pub mod State
pub mod Pairing
pub mod Auth
pub mod Policy
pub mod Server
pub mod Config
pub mod Exec
pub mod Tlsid
pub mod Qr
pub mod Admin
pub mod Command

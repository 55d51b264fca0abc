-- ===== src/Lib.antt =====
-- The agent of Leo-One: the program that runs on each managed machine, keeps one connection to the
-- backend, and carries out the commands that come over it (agent/ of the repository).
--
-- The parts, and how they interact. A thread of agent/src/connection.c owns the WebSocket: it connects,
-- reconnects, writes out the send queue, and hands every message to `_on_message` of agent/src/agent.c.
-- That reads the envelope (agent/src/protocol.c) and dispatches: it changes settings, answers a ping,
-- starts or stops the one remote desktop session, or starts a detached thread for a command, in one of
-- four execution slots. Before all this agent/src/enroll.c registers the machine once and writes the
-- agent.conf that agent/src/config.c reads at each start. A detached thread runs its command, queues a
-- CMD_RESULT and frees its slot. Three periodic threads queue heartbeats, metrics and patch inventories.
--
-- The files:
--   Prelude    shared helpers: lists, bytes and C strings, integers, doubles, decimal numbers
--   Types      agent/include/leo_agent.h: constants, records, message types, error codes
--   Protocol   agent/src/protocol.c: the builders, `_serialize`, `_gen_uuid`, `leo_proto_parse`
--   Url        agent/src/http_url.c, `_parse_endpoint` of connection.c, `_parse_ws_url` of
--              remote_desktop.c
--   Pinning    the fingerprints of agent/platform/linux/crypto_linux.c and the certificate check of
--              `_lws_callback`; Files the reading and writing of the certificate and its key
--   Settings   agent/src/config.c: agent.conf, read and written
--   LinuxExec  agent/platform/linux/executor_linux.c: the loop of `_run_child`; Process the rest of it,
--              and Script `leo_exec_script` and `leo_exec_argv`
--   LinuxMetrics  agent/platform/linux/metrics_linux.c: the load of the processors, memory; Totals the
--              disks and the network; Collect `leo_metrics_collect`, whose division in floating
--              point is an argument
--   LinuxPatches  agent/platform/linux/patches_linux.c: Lines the lines of apt and dnf, Collect
--              `leo_patches_collect`, Install `leo_patches_install`
--   LinuxInventory  agent/platform/linux/inventory_linux.c: `leo_inventory_collect_hw`; Software
--              `leo_inventory_collect_sw`
--   LinuxLines  the loop over a program's lines that patches_linux.c and inventory_linux.c share
--   LinuxInput  agent/platform/linux/input_linux.c: what a client's input sends to the display; Keys
--              `_keysym_for`
--   WinExec    agent/platform/windows/executor_win.c: Cmdline the command line of an argument vector,
--              Environment its environment, Child `_run_child`, Script `leo_exec_script` and
--              `leo_exec_argv`
--   Enroll     agent/src/enroll.c: Bootstrap, Machine, Http (`_enroll_lws_callback`, `_http_post_json`),
--              Response, and Flow with `leo_enroll`; Flow/Credentials the disk behind an enrollment
--   Conn       agent/src/connection.c: `leo_conn_send` and the send queue, each case of
--              `_lws_callback`, the moves of `_lws_thread`
--   FileTransfer  agent/src/file_transfer.c: `_dl_lws_callback` and its progress messages; Run is
--              `leo_file_transfer_run`
--   Desktop    agent/src/remote_desktop.c: `leo_rd_start`, `leo_rd_stop`, the end of the session thread;
--              Life the threads, the locks that they and a START take, and the waits
--              for them; Repack `leo_rd_repack_scale`; Stream the callbacks and the thread of a session
--   Agent      agent/src/agent.c: slots and threads; Agent/Dispatch the `_dispatch_*` functions and
--              `_on_message`; Agent/Exec the commands of `_exec_thread`; Agent/Threads the ends of the
--              threads and the rounds of the periodic ones; Agent/Threads/Stop the stages of `leo_agent_stop`;
--              Agent/Reach the whole as a step relation
-- A name is the source's in snake case without its prefix: `_reserve_exec_slot` is reserve_exec_slot.
--
-- How code becomes definitions. A C string is the list of its bytes; a struct is a record; shared state
-- is passed on explicitly, and what a lock makes atomic is one function. One call of a handler is one
-- step, and threads interleave as sequences of such steps. An `int` that may be negative is ℤ; unsigned
-- counters wrap where the source lets them; a double is NaN, an infinity, or a fraction with a power of
-- two below. Snapshots of the system (time, randomness, whether memory and threads are to be had, what
-- was measured) are arguments of the step. `Conn` has three fields that connection.c leaves to
-- libwebsockets: `armed` (a writeable callback was asked for), `cancelled` (a wake-up of the event loop
-- is pending) and `wire` (the payloads that lws_write took).
--
-- Code that is not the agent's is a parameter: cJSON as the record Cjson, with the results of casts that
-- C leaves undefined; i2d_X509, EVP_Digest and PEM reading in Pinning, stdio and the disk as the record
-- Disk; the platform's programs, leo_patches_install and leo_file_transfer_run as the record Executor.
--
-- The calls of a file transfer on the disk, the network and the clock are its arguments Setup, Round and
-- Ending: one Round is one lws_service with the callbacks it makes. In the same way the enrollment takes
-- the files, the machine and the server as a World, a remote desktop session takes its connection as a
-- Link, and the executor takes the operating system as a Kernel, with a Round for each turn of the loop
-- around select; on Windows it is the record Windows, and Reader of WinExec/Cmdline states the rules by
-- which a program there reads its command line. What the source does not look at is an argument too: how
-- much of a text reaches agent.conf, what fclose leaves of a download or of a script, whether remove and
-- DeleteFileA succeed, whether lws_write takes a frame, and whether a child is ever reaped.
--
-- Bounds and fuel: buffers keep the sizes of the source, the queue its 32 places and messages their
-- 65536 bytes. The wait between two connection attempts runs on fuel, of which one round for every
-- 100 ms of the delay and one more are enough. The loop of a file transfer runs over the rounds given;
-- a round behind the deadline ends it. The loops of an enrollment and of a child process run over their
-- turns alike. A file is read with one round for each byte, which is enough since a line takes a byte.
--
-- Not modelled: logging; the pointers and their life (calloc and free); the condition variables, of
-- which a wait only tells whether it ended in time; the sleep between rounds of the periodic threads; the
-- `.part` file's path and the making of the working directory; the progress messages that a file
-- transfer queues on the agent's own connection while other threads run; the platform code but for the
-- cryptography, the executor, the metrics, the patches, the inventory and the input of Linux and the
-- executor of Windows; the branches of enroll.c for Windows.
pub mod Prelude
pub mod Types
pub mod Protocol
pub mod Url
pub mod Pinning
pub mod Settings
pub mod LinuxExec
pub mod LinuxMetrics
pub mod LinuxLines
pub mod LinuxPatches
pub mod LinuxInventory
pub mod WinExec
pub mod Enroll
pub mod Conn
pub mod Desktop
pub mod LinuxInput
pub mod FileTransfer
pub mod Agent

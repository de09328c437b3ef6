-- ===== src/Lib.antt =====
-- ghidra-rpc: a daemon that holds Ghidra projects open, and a command line that drives it by JSON
-- requests over a local endpoint.
--
-- The parts, and the files that model them (paths from the repository's root):
--
-- Common: lists, text, dicts in insertion order, exceptions as values (Common/Exec), shared by all.
-- Json: JSON values, and a text format for them as a parameter with its round trip as a law.
-- Session (ghidra_rpc/session.py, endpoint paths of ghidra_rpc/transport.py): the session file of a
--   project and, in Session/Registry, the global registry. The file system is a dict from paths to
--   texts; a path is its string, joined as on POSIX; resolving a path and hashing it are parameters
--   (Session.Host). The registry's lock makes each action one function; directories are not modelled.
-- Rpc: the newline protocol; a reading loop runs over the list of what `recv` returns, so it needs no
--   fuel.
-- Server (ghidra_rpc/server/main.py): one connection, from its bytes to its response, and in
--   Server/Threads the accept loop of `run_server` with the threads of its connections and the handler
--   lock, as a step relation: any thread may take the next step, so an interleaving is a sequence of
--   steps.
-- Client (ghidra_rpc/client.py): the socket timeout, one request, the request that restarts the
--   daemon. Times are whole seconds; the daemons, their endpoints and saved sessions are an interface
--   (Client.Daemons).
-- Daemon (ghidra_rpc/daemon.py): the ping, the wait for a started daemon over the list of its rounds,
--   and what a blocking start does with the session file and the registry, where what others make of the
--   files while its server runs is a parameter.
-- Search (ghidra_rpc/server/tools/search.py): byte patterns, from the user's text to the regex that
--   Ghidra searches for. Characters are below 256, digits are ASCII.
-- Context (ghidra_rpc/server/context.py): the lookup of programs, analysis with a timeout, saving in
--   GUI mode, and in Context/Loading the loading and closing of the headless context. The Ghidra
--   project is an interface (Context.Loading.Project). Keys are POSIX paths.
-- Memory (ghidra_rpc/server/tools/memory.py): hexadecimal texts, the hex dump (as many rounds as there
--   are bytes, which is enough since each round takes at least one), and in Memory/Handlers the reading
--   and writing of bytes over an interface of Ghidra's memory (Memory.Handlers.Ghidra).
-- Listing: the loop that bookmarks and tags share, over a list, so it needs no fuel.
-- Bookmarks (ghidra_rpc/server/tools/bookmarks.py): the three handlers over an interface of Ghidra's
--   bookmark manager (Bookmarks.Manager).
-- Functions (ghidra_rpc/server/tools/decompiler.py, modifications.py): _find_function and
--   ghidra_transaction over an interface of Ghidra's functions (Functions.FunctionManager).
-- Tags (ghidra_rpc/server/tools/tags.py): the four handlers over that interface and one of the tags
--   (Tags.TagManager).
-- Pool (DecompilerPool of ghidra_rpc/server/context.py): the acts of threads on the pool, in any order.
-- Instances (_discover_instances of ghidra_rpc/cli.py): candidates, pings and the pruning of the
--   registry, over Session/Registry and the replies of Client.
-- VersionTracking (ghidra_rpc/server/tools/version_tracking.py): the report of a comparison from the
--   matches of a session; in VersionTracking/Handles the daemon's handles of the two programs, which
--   are closed for the session and opened again, over the project of Context/Loading and an interface
--   of Ghidra's sessions (VersionTracking.Handles.Tracker); in VersionTracking/Tracking version_track
--   as a whole; in VersionTracking/Bulk decompile_all; in VersionTracking/Normalise the replacement of
--   the names and numbers that its patterns match before a diff. Scores are natural numbers of a fine unit, and the rounding is a
--   parameter.
-- DataTypes (ghidra_rpc/server/tools/modifications.py and data_types.py): the texts of types, read with
--   the length of the text as fuel, which is enough since each call takes a character off; and in
--   DataTypes/Range clearing and stamping a range, with one round for each byte, which is enough since
--   a type has at least one; in DataTypes/Creating creating structs, unions and enums,
--   and in DataTypes/Listings the listings of types, labels and equates.
-- Cli (ghidra_rpc/cli.py): the requests of the commands; in Cli/Handlers the handlers that
--   ghidra_rpc/server/tools registers, each with the keys that it reads and refuses to miss; in Cli/Printing what
--   `_rpc_command` prints and its exit code, over the replies of Client.
--
-- Not modelled: the commands that start, restart and stop daemons, those that read fields, JSON or
-- integers themselves (for structs, unions, enums, setting equates and batches), the GUI context,
-- match_function and the diff of function_diff, changing structs and enums, setting equates, and the
-- handlers of the other tools, which mostly call Ghidra.
--
-- Handlers take their arguments one by one where the source takes them from a dict; a number in a
-- request is a natural number. Error messages keep their fixed parts.
pub mod Common
pub mod Json
pub mod Session
pub mod Rpc
pub mod Server
pub mod Client
pub mod Daemon
pub mod Search
pub mod Context
pub mod Memory
pub mod Listing
pub mod Bookmarks
pub mod Functions
pub mod Tags
pub mod Pool
pub mod Instances
pub mod VersionTracking
pub mod DataTypes
pub mod Cli
mod Tests

-- ===== src/Lib.antt =====
-- octet: a store of UTF-8 strings under identifiers, with a journal that is written ahead, snapshots,
-- and three modes: a single command, an interactive one and a server on a Unix socket.
--
-- The parts and their files. A string goes from a client through Connection (app/cli/server/
-- connection.cpp) or Commands (app/cli/interactive/commands.cpp) to Storage (src/storage/
-- storage_manager.cpp), which writes it to the Journal (src/storage/journal_manager.cpp) before it
-- changes its map; both write files through Files (src/utils/file_utils.cpp).
--   Map: std::unordered_map as far as it is used: an association list.
--   Escape, Entry, Lines: escapeString and unescapeString, JournalEntry with serialize and deserialize,
--     readLineFromJournalContent with the loops that call it.
--   Disk, FileChecks, Files: the file system, and atomicFileWrite, safeFileRead, safeFileAppend,
--     createFileBackup and the checks on directories. Files/Replace, Files/Append and Files/Effects are
--     about what they leave on the disk.
--   Journal: JournalManager. Journal/Text is the text of a list of entries, Journal/Effects what
--     entries do to a map, Journal/Checkpoints and Journal/Recovery the replay, Journal/Found says
--     both of a journal's contents, Journal/Opening is the constructor, Journal/Writing the writes. Truncation: the functions that shorten a journal and
--     count its entries; Truncation/Rewriting is about what they read and write.
--   Snapshot: serializeMap and deserializeMap.
--   Storage: StorageManager. Storage/Contract compares it with a map, Storage/Logged has the
--     invariant that ties memory to disk, Storage/Durable, Storage/Kept and Storage/Snapshots keep
--     it, Storage/Recovery is loadFromDisk, Storage/Runs puts them together, Storage/Lifecycle has
--     the constructor, the destructor, the thread and the thresholds, Storage/Lives is about the
--     constructor over the files of an earlier manager, Storage/Unchanged about what a snapshot
--     leaves as it is, Storage/Thresholds says when a snapshot is asked for. Storage/Paths and
--     Storage/Evolution are about the files that the operations work on, and about the maps that
--     they lead to. Storage/Overtaken is about calls that come between the two halves of a
--     snapshot.
--   Uuid: generateUuid and isValidUuid (src/storage/uuid_generator.cpp); Uuid/Valid is about how they
--     agree, Uuid/Unique about what two identifiers with the same text have in common.
--   Protocol, Connection: app/cli/server/protocol.cpp and connection.cpp. Protocol/Frames is about
--     frames on a stream, Connection/Messages about the loop over them,
--     Connection/Bounds about the buffer, Connection/Queue about the
--     order of the answers, Connection/Requests about the answers.
--   Server: app/cli/server/server.cpp, with the connections and the storage that its loop works on.
--     Server/Lifetime is about its start and its end, Server/Keeping about what it keeps, Server/Restart
--     and Connection/Durable about what the clients' requests leave on the disk.
--   Locks: src/utils/file_lock_guard.cpp, the locks of the threads of one process. Locks/Counts and
--     Locks/Safety have the invariant of the counters, Locks/Holders counts who holds what, which
--     Locks/Acquiring and Locks/Releasing use as the contract, Locks/Ending is about the time-out, and
--     Locks/Guard is FileLockGuard.
--   Logger, Logger/Settings, Logger/Macros: src/logger.cpp and the macros of include/logger.hpp.
--     Logger/Gates is about what is written when, Logger/Calls about sequences of calls.
--   Words, Commands: commands.cpp, the text of a line and the commands. Args: the arguments of main,
--     Help: the texts of help, greeting and farewell. Commands/Beside: the interactive mode with the storage's thread beside
--     it. Commands/Spec: what commands and sessions promise, said of a map alone; Commands/Names,
--     Commands/Lines: the table of commands.
--   Program: main from its arguments to its exit code, which puts the other parts together;
--     Program/Single, Program/Interactive and Program/Beside hold commands, lines and sessions against
--     their specification, Program/Running and Program/Histories whole runs with a command or a
--     session, one and many;
--     Program/Thresholds, Program/Rounds and Program/Runs are about smaller parts of a run.
--   Prelude: names and lemmas that all share. Examples: the theorems at concrete inputs.
--
-- State and its changes. A C++ object is a record, a method that changes it a function from the old
-- state to the new one; the disk is passed along. A method holds its lock from its first access to its
-- last, so that it is one step. What the program draws from outside is an argument: the answers of the
-- system calls (Answers), the identifiers, the text of the clock, the steady clock, the result of
-- std::stoul, nlohmann::json (JsonLibrary) and, where a constructor leaves a member unset, the value
-- that the memory held. The handlers that Boost.Asio calls are steps on the connection and the server.
-- A call that takes a lock gives up the mutex of the map while it pauses: it is cut there into steps,
-- and the steps of all threads come in any order.
--
-- Bounds. A string is the list of its bytes. The counter of operations wraps at 2^64, the lengths in
-- frames and snapshots at 2^32. The loops over the lines of a journal, over the messages of a buffer and
-- over the words of a line run on fuel: each turn takes a byte at least, so that the length of the text
-- is enough. The counter of a shared lock wraps at 2^64; the theorems on it are for fewer steps.
--
-- Not modelled: what the lock functions answer to the file functions (whether a lock is taken is an
-- answer there), the Windows branches, the text in a lock file, the rounds of the storage's thread
-- beside the server of a whole run (Server/Restart has them beside the server's loop), calls that come between the two halves of a snapshot outside Storage/Overtaken,
-- what follows a signal to the server, whose handler destroys the context that runs it, and exceptions
-- of the file system and of memory; what a call of the storage throws is an argument of a request. The
-- assertions of the journal that a checkpoint is unique are conditions of the theorems.
pub mod Prelude
pub mod Map
pub mod Escape
pub mod Entry
pub mod Lines
pub mod Disk
pub mod FileChecks
pub mod Files
pub mod Journal
pub mod Truncation
pub mod Server
pub mod Snapshot
pub mod Storage
pub mod Protocol
pub mod Connection
pub mod Locks
pub mod Logger
pub mod Uuid
pub mod Words
pub mod Commands
pub mod Help
pub mod Args
pub mod Program
pub mod Examples

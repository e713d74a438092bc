-- ===== src/Lib.antt =====
-- Verification library for AsynLogSystem, a cloud storage service on top of an asynchronous logging
-- system.
--
-- The program has two parts. The logging system (logSystem/logsCode) makes a line of each message
-- (Message.hpp), pushes it into a double-buffered worker (AsyncBuffer.hpp, AsyncWorker.hpp), whose
-- thread hands the bytes to the logger's flushers (AsyncLogger.hpp, LogFlush.hpp); lines of the
-- levels ERROR and FATAL also go, as tasks of a thread pool (ThreadPoll.hpp), to a backup server
-- (logSystem/backlog). Loggers are found by name (Manager.hpp). The storage service (src/server)
-- stores uploaded files, packed or as they are, and sends them back (Service.hpp); a table of the
-- stored files is kept in memory and in a JSON file (DataManager.hpp), over the file operations of
-- Util.hpp and the settings of Config.hpp.
--
-- Prelude: shared names, lists, results with an error, texts as lists of bytes, association lists
-- for std::unordered_map, decimal numbers.
-- LogSystem/Config, Buffer, Worker: Config.hpp, AsyncBuffer.hpp and AsyncWorker.hpp. `Buffer.push`,
-- `to_be_enough`, `swap` and so on are the methods; `consume` is one step of ThreadEntry, `push`
-- and `request_stop` are Push and the first line of Stop, and `Reach` are the interleavings of their
-- steps, in which a wait is a guard, so that they are more than the notifications bring about.
-- Worker/Wait has the consumer's wait in detail: `move` is one step of its thread, which may be
-- about to block (`dozing`) or blocked (`asleep`), and `set_stop` and `notify` are the two lines of
-- Stop before its join. Children: Buffer/Contents, Buffer/Growth, Buffer/Views; Worker/Invariant,
-- Worker/Shutdown, Worker/Producers, Worker/Refine, Worker/Open, Worker/Wait, Worker/Pushing with one
-- producer's pushes, Worker/Turns with its whole runs and Worker/Delivered with the calls of the
-- callback in runs.
-- LogSystem/ThreadPool: ThreadPoll.hpp; `work` is one step of a worker's loop, `enqueue` the
-- method, `begin_join` the critical section of the destructor, and `Reach` their interleavings.
-- Children: ThreadPool/Steps, ThreadPool/Join.
-- LogSystem/Flush: LogFlush.hpp; `flush_file` and `flush_roll` are the two Flush methods,
-- `init_log_file` is InitLogFile and Flush/Names has CreateFilename. Children: Flush/Streams,
-- Flush/Rolling, Flush/Chunks with a reference for how flushes are cut into files, Flush/Opening,
-- Flush/Files, and Flush/Create with the constructors.
-- LogSystem/Message: Level.hpp and Message.hpp. LogSystem/Logger: AsyncLogger.hpp, with
-- `serialize`, `real_flush` and `build`, the methods for the levels in Logger/Levels, and the way
-- of a message to the backup server in Logger/Backup. LogSystem/Manager: Manager.hpp.
-- LogSystem/Util: logSystem/logsCode/Util.hpp, with CreateDirectory's proof in Util/Directories.
-- LogSystem/MyLog: GetLogger, DefaultLogger and the macros of MyLog.hpp.
-- LogSystem/Config/Read: what is read of config.conf. LogSystem/Start: log_system_module_inti of
-- src/server/Test.cpp, in Start/Ready and Start/Missing with and without a config.conf; the loggers
-- that there are then are in Start/Loggers, and the way of the service's messages to its log files
-- in Start/Delivery, from the first message to the last file in Start/Whole, over Logger/Calls.
-- LogSystem/Example: src/examples/test.cpp, with its two kinds of log files in Logger/Beside and
-- Example/Files, and its whole run in Example/Whole.
-- LogSystem/Backlog: `start_backup` of CliBackupLog.hpp, `start_service`, `service`, `serve_all`
-- (threadRoutine) and `backup_log` of ServerBackupLog.hpp and ServerBackupLog.cpp; Backlog/Listen
-- has `init_service` and `main`, with proofs in Backlog/Listening.
-- Json: the JSON library as a parameter and JsonUtil of src/server/Util.hpp; objects are in
-- Json/Objects, and Json/Sample is an instance for the tests. Server/Disk, Server/Url: FileUtil and
-- UrlDecode of the same file.
-- Server/Config: src/server/Config.hpp, with ReadConfig, whose proofs are in Config/Read.
-- Config/Instance has GetInstance as steps of threads, `advance`, and their interleavings, `Reach`,
-- with proofs in Instance/Kept and Instance/Once.
-- Server/DataManager: DataManager.hpp, with its lock in DataManager/RwLock, StorageInfo in
-- DataManager/Entry, and proofs in DataManager/Access, DataManager/Items, DataManager/Order and
-- DataManager/Reload.
-- Server/Service: Upload and Download of Service.hpp, the tests that they make on paths in
-- Service/Paths, and proofs in Service/Effects, Service/Downloads, Service/Stores,
-- Service/RoundTrip, Service/Misses and Service/Replies.
-- Server/Listing: ListShow and its page, with FormatSize in Listing/Size and std::regex_replace in
-- Listing/Template; proofs in Listing/Page, Size/Bounds and Template/Replace. Server/Handler:
-- GenHandler. Server/Store: the service as a map from storage types and names to contents, with the
-- requests that make calls of the map; when the two agree is said in Store/Coheres, and the proof
-- is in Store/Served (downloads of packed files), Store/Steps (one request) and Store/Refine.
-- Server/Runs: a service over time, `run`, with requests, restarts and a clock, beside the entries
-- that it should keep; when it keeps them is said in Runs/Kept, with proofs in Runs/Entries,
-- Runs/Restart, Runs/Uploads and Runs/Durable. Server/Program: the constructor of Service and RunModule of
-- Service.hpp, service_module and main of src/server/Test.cpp, with proofs in Program/Whole.
-- Tests modules hold runs and the theorems at concrete inputs.
--
-- State is passed explicitly; exceptions, failed asserts, reads and writes out of bounds and waits
-- that nobody can end are values of a result type. A size_t is a number below 2 ^ 64, with the
-- wrap-around written out; a vector holds at most 2 ^ 63 - 1 bytes. Loops are structural recursion;
-- the only fuel is that of decimal numbers (a number has fewer digits than its successor is large),
-- that of `to_double` (a 64-bit number has at most 11 bits more than a double keeps), and the numbers
-- of steps in `drain` and `moves`, for which seven is shown to be enough, and in `push_within`, for
-- which five is. The loop of FormatSize counts the
-- divisions that are still allowed.
--
-- Parameters stand for the JSON library (Json, with the laws that its documentation gives), the
-- compression library, base64_decode, the operating system (which opens succeed, how many bytes of
-- a write find room), the C library's streams, sockets, and the value of numbers that are not
-- initialised.
--
-- Not modelled: the copies of base64 and bundle in src/server; libevent and the sockets, whose
-- results are parameters (LibEvent, Network); what the lines say that the service itself logs, but
-- for the first one (`main` takes them as a parameter and pushes them); access times, which a read
-- may change; links and detours in paths, and paths with a 0 byte (Server/Disk); which of several
-- waiting producers is notified; a pthread_create that fails; an exception in the first use of
-- Config while other threads wait for it; the end of the static objects after main; ScanDirectory,
-- which nobody calls.
-- An std::unordered_map is an association list; the order in which a loop goes through one is that
-- of a parameter, which may be any order of the entries.
pub mod Prelude
pub mod Json
pub mod LogSystem
pub mod Server

-- ===== src/Lib.antt =====
-- A verification library for the ROKIT Locator QR add-on (src/main_logic.cpp and the files that it
-- uses): the main loop, which counts the sightings of QR codes, and what it is given by the threads.
--
-- The program. A customer's camera sends a package with the id of a code that it sees and its own
-- place relative to the code. `recCustomerPack` (src/thread_pool.cpp) takes it and wakes `dmTrigger`,
-- which asks ROKIT for the pose of the vehicle, by `BinaryInterfaceClient::read`
-- (include/binary_interface_client.h). `listenMode` follows the operating mode of ROKIT. The main loop
-- then looks the code up in the user database, counts the sighting, stores it in the self database,
-- and for a code that is enabled sends an observation or a seed to the server by JSON-RPC
-- (src/rpc_client.cpp); what is unusual goes to a diagnostics client. src/database_controller.cpp has
-- the databases, and decides at the start whether a backup is due.
--
-- The files, with what they model:
--   Base, Double       shared names, the list functions and integers over the native numbers, chains of
--                      optional results (Base/Options), and the arithmetic of `double`, which is a
--                      parameter;
--   Mode               the modes, `listenMode`;
--   Binary             `BinaryInterfaceClient::read`; Binary/Connect has `Connect`;
--   Wire               the bytes of ROKIT's messages (include/binary_interface_pose_struct.h,
--                      include/binary_interface_recording_vis_structs.h), and the reads that
--                      `dmTrigger` makes of them;
--   Customer           the loop of `recCustomerPack`;
--   Handover           the mutex and the condition variable between `recCustomerPack` and the main loop,
--                      as a step relation on the two threads; Handover/Order has the order of the
--                      packages, which Main/Loop/Announced joins to the counts of the loop;
--   Trigger            `dmTrigger`, from the moment that it is woken;
--   Dm                 `DM`, `DmInfo`, `Config` and `CustomerPackage` of include/main_logic.h, and
--                      `computeSloppy`;
--   Db                 SQLite as a parameter, with the statements that the program sends; Db/User has
--                      `UserDbController` (Db/User/Refines its specification, a map from ids to rows),
--                      Db/Self `SelfDbController`, Db/Files the opening and the creation of the
--                      tables, with what goes to the log, and Db/Memory an SQLite of its own for the
--                      tests;
--   Backup             `BackupDbController::checkDate`;
--   Settings           `Config::getConfig` (include/main_logic.h), and the entry of the same file that
--                      `checkDate` writes;
--   Server             the set-up of the two servers of src/thread_pool.cpp, and the loop of
--                      `diagSocket` beside `sendDiagMessage`;
--   Command            `execUserCommand`, and `sigHandler` of src/user_command_processing.cpp;
--   Rpc                the requests (Rpc/Requests, with the calls of the JSON writer in Rpc/Writer), the
--                      replies (Rpc/Replies), `getSessionId` and `inputAccount` (Rpc/Session), and the
--                      options of curl (Rpc/Curl);
--   Main               the steps of `main` and `sendDiagMessage`; Main/Round has one round of its
--                      loop, Main/Loop the loop, Main/Start the opening of the databases before it,
--                      Main/Program all of `main`. A module Sample has what the tests run on.
-- Each function of the source is one of the same name in snake case. State that the source changes in
-- place is passed on: the variables of `main` are the record `World`, those of the receiving loop
-- `Receiver`. What a loop reads is a list of the results of its reads.
--
-- Bounds. A number of `uint32_t` or `uint64_t` is a native number with its wrap-around written out
-- where the code counts (`% 2 ^ 64`); the columns of the user database come back through `atoi`
-- with 32 bits. `Connect` counts the rounds that are left, at most 100 after the first one. `read`
-- runs on fuel, one round more than the bytes that it is asked for, which is enough as each round
-- reads one byte at least. All other loops go over the list of what they read, and the loop of
-- `main` over a list of turns, each with what the other threads and ROKIT bring it.
--
-- Parameters. `Double` is the arithmetic of `double`; `Sqlite` an engine that keeps to `IsSqlite`:
-- a statement that succeeds does to the table what it says, one that fails does nothing, and a
-- `select` delivers rows that match, in any order; `IsReliable` says besides that it fails only on
-- a primary key. `Os` is `::read`, with `IsPosix`; `IsDelivering` says besides that it neither
-- fails nor ends while bytes are to come, and `IsEnding` that it is at its end afterwards.
-- `Network` is the operating system under `Connect`, and `Calls` the results of the calls that set
-- a server up. `Yaml` is a loaded file and yaml-cpp's conversions; `IsYaml` says that these keep to
-- the widths of their types. `Disk` is what SQLite does when the databases are opened. `Bytes`
-- makes a double of eight bytes; integers are little-endian, as on the machines of ROKIT. `Curl` is
-- curl, with `IsCurl`: it sends the request that the last setting of each option asks for; `Http`
-- is the server behind it, whose answer is the list of the pieces that go to the write callback, as
-- rapidjson parses them; a failed assertion of rapidjson ends the program, and is `none`.
--
-- Not modelled: the files of the log, the form of a YAML file, what SQLite does when it opens and
-- copies a database (the results are arguments), the pause between the rounds of `Connect`, and the
-- creation of the threads: they are calls of libraries and of the operating system. The threads are
-- interleaved in Handover only, whose steps leave out what a turn does; the other files have what
-- one thread does with what the others have left.
pub mod Base
pub mod Double
pub mod Mode
pub mod Binary
pub mod Backup
pub mod Dm
pub mod Customer
pub mod Handover
pub mod Db
pub mod Rpc
pub mod Trigger
pub mod Wire
pub mod Server
pub mod Command
pub mod Settings
pub mod Main

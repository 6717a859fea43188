-- ===== src/Lib.antt =====
-- A verification library for NexFile, a file server with a client for it, written in C.
--
-- The client (NexFile/client) logs in with a name and the hash of a password, reads command lines,
-- cuts each into a packet (`packetCmd_t`), sends it and waits for a signal (`cmdSignal_t`). The
-- server (NexFile/server) puts each accepted connection into a task queue; a worker thread takes
-- it out, checks the login against the shadow file, and then handles packets until the client
-- leaves. Both sides move bytes by loops around `recv` and `send`, and share
-- NexFile/shared/protocol.h.
--
-- Which file models which part:
--   Base          numbers, lists, strings of bytes, and `Io`: a call on a state that returns,
--                 blocks, is undefined, or has called `exit`
--   Protocol      NexFile/shared/protocol.h: codes, packets, str_to_cmdcode. Protocol/Wire is the
--                 layout in memory: an `int` is four bytes, the lowest first, two's complement;
--                 Protocol/Packet is a `packetCmd_t` as its 1036 bytes
--   Net           a connected socket: the bytes on their way, and a schedule for each of `recv` and
--                 `send` that says what every call will do. Net/Schedule names kinds of schedule
--   Client/CmdOpt     cmdCut, cmdVeri, cmdCheck of NexFile/client/cmdOpt.c
--   Client/Transfer   recvn of NexFile/client/clientsendMessage.c
--   Client/Login      sendPassword of the same file, and handlePassword and handle_authentication
--                     of NexFile/client/encryption.c
--   Client/Train      the receipt of a `train_t` by the client
--   Client/Signal     recvSignal of NexFile/client/fileOpt.c
--   Client/FileOpt    cmdParse, sendCmd and the handlers of the same file
--   Client/Main       NexFile/client/client.c: the login, the handling of a line and of the socket,
--                     and the loop around epoll_wait
--   Client/Status     NexFile/client/status.c
--   Client/Config     NexFile/client/config.c, without printClientConfig
--   Server/Config     NexFile/server/configParser.c
--   Server/FileHandle  NexFile/server/fileHandle.c
--   Server/FilePath   NexFile/server/filePath.c
--   Server/TaskQueue  NexFile/server/taskQueue.c, on an explicit heap
--   Server/ThreadPool  workerFunc of NexFile/server/worker.c, NexFile/server/threadPool.c and the
--                     events of `main` in NexFile/server/server.c, as a step relation;
--                     ThreadPool/Main is the loop of `main` over the ready descriptors, and
--                     ThreadPool/Create is tidArrInit, makeWorker and threadPoolInit
--   Server/Start      `main` of NexFile/server/server.c up to its loop, NexFile/server/tcpInit.c and
--                     the two files epoll.c, as the list of the system calls that they make
--   Server/Transfer   recvn and sendn of NexFile/server/sendMessage.c (the client has the same sendn)
--   Server/Train      the receipt of a `train_t` and the copy out of it
--   Server/Auth       authenticateUser of NexFile/server/authen.c and UserAuthen of
--                     NexFile/server/sendMessage.c; Auth/Steps is the same function's writes to
--                     `clientPath`, statement by statement
--   Server/Signal     sendSignal of NexFile/server/cmdHandle.c
--   Server/Files      GetFile and PutFile of the same file
--   Server/Command    cmdParse and the other handlers of the same file
--   Server/Session    recvCmd of NexFile/server/recvCmd.c, and handle_authen_event and handleClient of
--                     NexFile/server/clientHandle.c
--   Server/Workers    workers that serve at the same time: `clientPath` and the files are shared, and
--                     calls of different workers follow each other in an explicit order
--   Server/UserStatus  NexFile/server/userStatus.c
--   Server/State      what the functions of a server thread share: the connection, the global
--                     `clientPath` and the file system
--   System        the client and the server joined: what one end has sent is what the other
--                 receives. System/Session is a whole session, from `main` of the client to
--                 handleClient of the server; System/Silent the commands that are not answered
--   Tests         runs on concrete inputs, and each theorem at an input that meets its hypotheses
--
-- Conventions. A function of the source keeps its name in snake case. A null pointer is `none`;
-- the result -1 is `minus_one`. `malloc` and `calloc` are Boolean or pointer arguments, `getspnam`
-- and `crypt`, `strtol`, `sscanf` and `inet_pton` are function arguments, and the file system is a
-- record of calls on a state that is left open (`Os` of Server/Files, `LocalOs` of Client/FileOpt,
-- `Disk` of Server/FileHandle). What epoll_wait and the standard input give is a list of events,
-- and what the calls that set up the server return is an argument. A call that reads the standard
-- input takes no more than its buffer holds (63, 127 or 1023 bytes); what stays behind is a text
-- of a later event. Lines are typed one by one: that stdio reads ahead is not modelled. Writing or
-- reading outside an object is the outcome `undefined`; ERROR_CHECK is `exited`. Texts that the
-- program only prints are left out.
--
-- Bounds. The loops recurse on the list of words, bytes, events or schedule entries, so they need
-- no fuel, but for the login loop of the server (Server/Session, handle_authen_event), whose
-- rounds are counted down. Each round that returns has used up a call of `recv`, so that one round
-- more than the schedule has calls is enough (Server/Session/Ends). A schedule that is too short
-- blocks, as a silent peer does; the theorems that promise a result ask for as many deliveries or
-- acceptances as there are bytes, which is the least that helps when each call moves one byte. A
-- count that the source returns as an `int` is taken modulo 2 ^ 32.
--
-- Not modelled: the macros of NexFile/shared/logger.h, which print, but for the exit of ERROR_CHECK;
-- sigchld_handler of NexFile/server/server.c, which is never installed; pthread_join and the calls
-- of `close` behind the loop of `main`; the functions that only print; and databases/user.sql, which
-- no code uses.
mod Base
pub mod Protocol
pub mod Net
pub mod Client
pub mod Server
pub mod System
mod Tests

-- ===== src/Lib.antt =====
-- The server of IOMessage, a chat program in C for Windows: verification of its own logic.
--
-- The program. server/src/main.c accepts connections and starts a communicator thread for each. A
-- communicator (server/src/CommunicationManager.c) reads raw requests from its connection
-- (server/src/win/NetworkManager_win_imp.c), has them parsed (server/src/request.c) and puts what the
-- server is to handle into a queue that all communicators share (server/src/shared_queue.c). Requests
-- live in arenas (server/src/arena.c); texts are cut, escaped and searched by server/src/utils.c.
--
-- The modules.
-- Prelude: names, tests and lists over machine-sized numbers, shared by all.
-- Text: the text helpers of server/src/utils.c. A text is the list of its bytes, a buffer the list of
--   the bytes of its block; a pointer into a text is a Cursor, which knows the byte in front of it.
-- Memory: `malloc`, `realloc` and `free`. What they answer is a parameter of the state (Os), for each
--   call; a failed assert is an outcome of its own. That an allocation failed always means one of those
--   that the call in question asked for, by their numbers (Memory.Runs.Failed).
-- Arena: server/src/arena.c. An arena is its pages in the order of `next_region`, and the place of the
--   page that the head's `prev_region` points to. `Arena.arena_alloc` is `arena_alloc` with the
--   compiler's MAX_ALIGN as a parameter.
-- Queue: server/src/shared_queue.c, the ring and each call; Queue.Monitor runs any number of threads
--   over it, one step for each stretch under the mutex, with waits that may wake for no reason.
-- Request: server/src/request.c. Types is the table of types, Params the list of parameters, Parse
--   the way from the raw text to the struct.
-- CommList: the list of communicators in server/src/main.c, and what a new connection changes;
--   CommList.Loop is the accept loop of `main` and the removal of the threads behind it.
-- Network: sending and receiving of server/src/win/NetworkManager_win_imp.c; what the sockets answer
--   is a parameter of the connection.
-- RecvBuf: the receive buffer and `recv_req` of server/src/CommunicationManager.c; RecvBuf.Deliver sets
--   it against the stream of the client's bytes.
-- Response: server/src/response.c; Response.Decimal is `%d`.
-- Config: the properties and their file, of server/src/utils.c. Config.Lines is what a file of lines
--   means, Config.Load the loop that reads it, Config.Numbers the getter of numbers.
-- Communicator: the rest of server/src/CommunicationManager.c. What each access of the two shared queues
--   and of the exit flag finds is a parameter (World), by its number, since other threads change them.
--   Communicator.Run has the rounds and `communicator_main`. Communicator.Next cuts the client's
--   stream into requests, Communicator.Serves follows one to the queue, Communicator.Silent is the
--   client that sends nothing.
-- Setup: the contexts and the accepting of server/src/win/NetworkManager_win_imp.c, by the resources that
--   are held (System); a handle is the number of the call that gave it. Setup.Copies is the client's
--   copy of the file, client/src/win/NetworkManager_win_imp.c.
-- Main: the command line of server/src/main.c; Main.Sessions is the life of a communicator's resources,
--   its receive buffer included.
-- Logging: `src_and_replace` of server/src/utils.c, by which the log marks each line.
-- Threads: the life of a thread, of server/src/win/ThreadManager_win_imp.c.
--
-- Bounds and fuel. `size_t` is 64 bits wide and wraps where the code lets it. `escaped_strchr` takes a
-- round more than the bytes of the text, the walk over an arena three more than its pages, the loop of
-- `format_params` one more than the bytes, that of `recv_req` one more than the largest message, that of
-- `init_properties_by_file` one more than the bytes of the file: each is proved to be enough.
-- `NM_send_all` needs a round for each byte, except where the system interrupts `send` without end,
-- which the code does not bound either. The loop of `communicator_main` runs as long as a client keeps
-- it going; its fuel is proved to be enough for a client that sends nothing. Texts are shorter than
-- 2^31 bytes where the code counts them in an `int`. A `long` has 32 bits, as on Windows.
--
-- Not modelled: logging itself (output only; Logging is the replacement behind it), the wrappers of
-- single calls of the system in server/src/win/ThreadManager_win_imp.c, what `main` obtains before its
-- accept loop, and the client's own main program (input and output). The timeouts of the sockets are left out of
-- Network, since the code only logs when setting them fails. Session resources are counted for a queue
-- that holds no element.
pub mod Prelude
pub mod Text
pub mod Queue
pub mod Memory
pub mod Arena
pub mod Request
pub mod CommList
pub mod Network
pub mod RecvBuf
pub mod Response
pub mod Config
pub mod Communicator
pub mod Setup
pub mod Main
pub mod Threads
pub mod Logging

-- ===== src/Lib.antt =====
-- The RC 2021 chat server: a verification library for code/server and code/client.
--
-- The server keeps three lists in trees (accounts, sessions, multicast groups) and serves two
-- sockets. On a TCP connection an administrator adds, deletes and lists accounts, which are also
-- kept in a records file. On a UDP socket clients log in, send messages to each other, ask for
-- addresses of other clients, and create and look up multicast groups.
--
-- The client logs in, and then sends messages through the server or straight to another client,
-- makes multicast groups and joins them, as its user chooses from a menu; a thread prints the
-- messages that arrive.
--
-- Which file models what:
--   Base and its children: tests on numbers, lists over the native numbers, signed integers, and
--     `Run`, a result or a fault (undefined behaviour of C, by its kind, an exit, or a hang).
--   Memory: the heap. A pointer is a number, 0 for NULL; there is one heap for each type of object.
--     A read through a pointer to no block in use is a fault.
--   Text: strings and code/server/src/utils/string.c. Text/Scan and Text/Decimal are the conversions
--     of sscanf and printf that the sources use, with an overflow fault where a word does not fit
--     its array.
--   Avl: code/server/src/data_structures/avl_tree.c, the static functions on trees as values, with
--     the heights and rotations as written. Avl/Handle: the exported functions, `struct avl_tree`
--     and the records file; a comparison, a write or an output of a record whose block is not in
--     use is a fault. Avl/Order has the specification, sorted lists.
--   Queue: code/server/src/data_structures/queue.c on a heap of nodes, as lists in Queue/Chain. The
--     fuel of the loops of remove_queue and print_queue is the size, which is enough.
--   Server: the structures, the globals, the comparisons of code/server/src/main.c, and the sending
--     functions of code/server/src/utils/functions.c. A function that changes the globals takes and
--     returns a `Server`; what is sent is kept in order in `sent`.
--   Server/Boot: code/server/src/main.c up to the start of the threads, with utils/numeric.c.
--   Server/Admin: code/server/src/admin/commands/admin_commands.c, and the loop of
--     code/server/src/admin/admin_server.c over what `accept` and `read` return.
--   Server/Network: code/server/src/network/server.c. Server/Main: main of code/server/src/main.c,
--     with the starts of the two servers, up to their loops. Server/Records: code/server/src/admin/
--     admin.c and the rest of client/client.c. Server/Output: error and center_text of
--     utils/functions.c, and the banners of the two servers.
--   Server/Connect: init_client_session of code/server/src/client/client.c.
--   Server/Commands: code/server/src/client/commands/client_commands.c.
--   Server/Listen: the loop of code/server/src/client/client_server.c over what `recvfrom` returns.
--   Server/Users, Server/Groups, Server/Sessions, Server/Commands/Outcome and
--     Server/Commands/Delivery: what the commands make of the accounts, the groups and the sessions.
--   Server/Groups/Get: GETMULTICAST. Server/Safety: the state of the server between two commands,
--     with one module for each kind of input: Datagrams, which uses Logins, Targets and Multicast,
--     and Administration. Runs has sequences of both, Start puts main in front of them; Lasting and
--     GroupRuns are about the groups in them, Answers and Liveness about what is sent. Meeting: a
--     login, and what another client then asks for or sends. Uninitialised: a
--     field of a new session that the code does not set.
--   ThreadPool: code/server/src/tools/thread_pool.c, which nothing in the server calls. A pool is a
--     state, `Step` has the steps of its workers and of its user, and `Reach` the sequences of
--     steps. Start: the states that the pool of new_thread_pool reaches. Jobs: add_thread_job.
--   ClientProgram: the globals of code/client/src/main.c, the constants of config/config.h, and
--     the calls of scanf, sendto and recvfrom; a local array is the list of its bytes. Actions:
--     the entries of the menu. Menu: the menu and the login. Start: main. Threads: read_msg and
--     read_multicast. The fuel of the menu is one more than the bytes left to read, which is
--     enough since every round reads a line (Ends, Rounds). Leaving: numbers that are typed. Outcome, Login, Inbox: what the
--     client makes of its input; Multicast: its groups. Protocol and Datagrams: what each program
--     reads of what the other one sends.
--   Tests: a run of the whole server, and the theorems at concrete inputs.
--
-- Widths: `size_t size` wraps at 2 ^ 64, ports have 16 bits, so that their difference does not
-- overflow; a number that `%d` reads outside of 32 bits is a fault. Every loop is recursion on a
-- string, a list, a tree or the sequence of inputs, but for those of the queue and of the menu.
-- What memory holds before it is written is a parameter, named `junk`. Files are lists of whole
-- records, and writes succeed.
--
-- Not modelled: interleavings of the two threads of the server (a command runs as a whole) and of
-- the steps of queue_push with those of a worker of the pool, the log on standard output, signals,
-- the creation and join of threads, the closing of sockets and files, an error of recvfrom in the
-- server, what error prints in the client, and the emulated network (GNS3).
mod Base
pub mod ClientProgram
pub mod Memory
pub mod Text
pub mod Avl
pub mod Queue
pub mod Server
pub mod ThreadPool
pub mod Tests

-- ===== src/Lib.antt =====
-- Programs of LinuxNote, a collection of C and C++ programs on sockets, processes and threads, with the
-- theorems that make them correct.
--
-- The parts. The wrappers of LinuxC/socket/TCP/wrap.c stand between the programs of LinuxC/socket and the
-- kernel. Two servers in LinuxC/socket/TCP/server.c call them: `main` waits for all connections with
-- `select`, `main2` forks a process for each. LinuxC/socket/UDP has a server and a client without
-- connections, LinuxC/socket/Webserver a server of files, and LinuxC/socket/UNIXDomainSocketIPC the end
-- points of local connections. bite/socket has a class for each kind of socket, with a server that
-- answers one message of each connection, one that forks a process and one that creates a thread for each
-- connection, and their clients. bite/pctrl has three shells, and a program that decodes how its child
-- ended. LinuxC/pthread and bite/pthread are programs on threads that share a counter, a ring of numbers,
-- a list of messages, a number of tickets, a bowl, five chopsticks, a queue of limited length or a queue
-- of tasks.
--
-- The files.
-- * Base and its children: names of the library passed on, tests on numbers, lists, text in buffers, and
--   reads and writes that fault out of bounds.
-- * Wrap (LinuxC/socket/TCP/wrap.c): `perr_exit`, `Accept`, `Bind`, `Connect`, `Listen`, `Socket`,
--   `Read`, `Write` and `Close` by their names in small letters; Wrap/Transfer: `Readn` and `Writen`;
--   Wrap/Lines: `my_read` with its static variables as the record Buffer, and `Readline`. What the kernel
--   answers is a list of replies, taken one by each call; a call for which none is left waits.
-- * Select (LinuxC/socket/TCP/server.c, `main`): the record Server is `client`, `allset`, `maxfd` and
--   `maxi + 1`; `step` is a round of the loop, `connect` the part for a new client, `check` the loop over
--   the array. Select/Invariant, Select/Loop and Select/Steps carry the invariant, Select/Served what
--   each connection gets.
-- * Echo (LinuxC/socket/TCP/server.c, `main2`; LinuxC/socket/UDP/server.c and client.c): `round` and
--   `rounds` are the parent of `main2`, `child` its child; `udp_serve` and `udp_ask` are rounds of the
--   two loops.
-- * Client (LinuxC/socket/TCP/client.c; `main1` of server.c there): `ask` and `ask_once` are a round of
--   the client's `main` and its `main1`, `serve_once` is a round of the server's.
-- * Local (LinuxC/socket/UNIXDomainSocketIPC/server.c): the parent, over the functions of Ipc;
--   Local/Child is its child, Local/Asking the client.c there.
-- * Sockets (bite/socket/TCPsocket.hpp): the methods of `TCPsocket`, each with what the system call in it
--   returns, as the call made and the result; Sockets/Programs (servTCP.cpp, processServTCP.cpp,
--   cliTCP.cpp): `open_server` and `open_client` up to the loops, `serve`, `session` and `chat` the
--   loops, `sig_chld` the handler; Sockets/Programs/Shared (threadServTCP.cpp): the variables that `main`
--   and `thr_start` share, by steps; Sockets/Datagrams (UDPsocket.hpp, servUDP.cpp, cliUDP.cpp; its child
--   Plain is servUDP.c). A descriptor of -1 is none, and a C string that ends behind its buffer is a
--   fault.
-- * Web (LinuxC/socket/Webserver/Webserver.c, `server`; the request of Webclient.c): the record Arrays is
--   the arrays of `server`, `parse_request` the parser, `answer` the rest of a round; Web/Rounds is
--   `main`.
-- * Ipc (LinuxC/socket/UNIXDomainSocketIPC/serv_listen.c, serv_accept.c, cli_conn.c): the record World is
--   the open descriptors, `errno` and the paths unlinked.
-- * Shell (bite/pctrl/shell.c and Myshell.c) and MiniShell (bite/pctrl/mini_shell.c): `parse` cuts the
--   line in place, `shell_turn`, `my_shell_turn` and `child` are what follows. ExitStatus
--   (bite/pctrl/pc_wait.c): `report`.
-- * Threads/Counter (LinuxC/pthread/mutex), Threads/Buffer (LinuxC/pthread/semaphore/pth_sem.c, and its
--   sem_test.c in Threads/Buffer/Late), Threads/Messages
--   (LinuxC/pthread/conditionVariable/pth_cond_test.c and pth_cond.c), Threads/Tickets
--   (bite/pthread/tout.c), Threads/Delicacy (bite/pthread/cond.c), Threads/BlockQueue
--   (bite/pthread/pro_con.cpp), Threads/RingQueue (bite/pthread/con_pro.cpp), Threads/Pool
--   (bite/pthread/threadPool.cpp), Threads/Philosophers
--   (LinuxC/pthread/TheDinningPhilosophersProblem/phil_pro_mutex.c): a thread is a point of its program
--   with its variables, a step takes it to the next point or waits, and a run is any order of steps.
--   Threads/Crew has the lemmas on lists of threads, Threads/Picks the choice of one of them by a signal,
--   Threads/Entries what productors put in and consumers take out. Reads and writes of one variable are
--   one step each; the decrement of `tickets`, which the lock protects, is one step.
--
-- Bounds and fuel. Sizes are 64-bit (`size_t`), the tickets 32-bit; `sub_size` and `sell` wrap round; the
-- counts of the productors in bite/pthread are numbers that do not overflow. Loops over a buffer have the
-- length of the buffer, plus one where they test an index first, as fuel: the index grows in each round,
-- so it is enough, and running out would show as a fault. `Readline` has `maxlen - 1` rounds, and none
-- for a `maxlen` that is negative as a `ssize_t`. Loops that wait for the kernel or for users go by the
-- list of what comes. A set of descriptors holds those below `FD_SETSIZE`; an `FD_SET` of another one is
-- a fault.
--
-- Not modelled: what is printed where no theorem speaks of it, the set-up of addresses, the programs that
-- only show a call of the system (signals, pipes, shared memory, files), the semaphores of
-- LinuxC/pthread/semaphore/sem_by_mutex and phil_pro.c beside phil_pro_mutex.c, the make tutorial, and
-- LinuxC/socket/UDP/wrap.c, a copy of the file in TCP.
pub mod Base
pub mod Wrap
pub mod Shell
pub mod MiniShell
pub mod ExitStatus
pub mod Web
pub mod Select
pub mod Sockets
pub mod Ipc
pub mod Echo
pub mod Local
pub mod Client
pub mod Threads

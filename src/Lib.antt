-- ===== src/Lib.antt =====
-- Models of the programs of the laboratory course: processes that share memory under System V
-- semaphores (os_lab_4), servers of remote procedures whose requests run in threads (os_lab_rpc),
-- a daemon (os_lab_3), threads under Windows (lab_win), and programs over pipes and numbers
-- (os_lab_2), with the theorems about them.
--
-- Posix: what the programs call. Semop is semop(2) and SETVAL of semctl(2): a call is atomic, its
-- operations are taken in the order of the array, and it sleeps where one of them cannot go
-- through. Script runs a main as the list of its calls, each of which may fail, and then main
-- exits with status 1; a server's main, which calls svc_run at its end, exits with status 1 in any
-- case. Script/Leaks is about scripts that stop in the middle, and Script/Registration about the
-- calls that offer a service. The calls are those that POSIX and the RPC library document; the
-- values of a set that semget finds, the failures and the reports of waitpid are parameters.
--
-- ReadersWriters: os_lab_4/wr/src/wr.c (Wr), wr_old.c (WrOld), tmp.c (Hoare), tmp_wr.c (TmpWr) and
-- tmp_pc.c (Counter). Lock is the lock of many readers or one writer that a set of semaphores has
-- to be, Program the arrays and constants in which the programs differ, Process the interleavings
-- of any number of processes: a step is one shared access or one call of semop, a call may be
-- interrupted at any time, and a signal clears the flag of a process. Each program's reader and
-- writer are step functions with the names of the source; Behaviour compares them with one common
-- function, Invariant, Held and Safety prove what all share, and Main has the mains as scripts.
-- The number of tmp_pc.c is an int, which Counter/Runs interleaves. The letter is a char and wraps
-- at 256.
--
-- ProducerConsumer: os_lab_rpc/pc (RpcRing), pc_old (OldRing), pc_last (PcLast), pc2 (Pc2), rpc_pc
-- (RpcPc), os_lab_4/les_pc.c (Lesson) and os_lab_4/pc/src/pc.c (PcProgram). Slots is the contract
-- of the three semaphores, Threads the interleavings of any number of threads, Counts and
-- Invariant the counters against the locations, Safety the consequences: for every program whose
-- sections keep a ring, and, up to the first access outside the buffer, for those that walk
-- through it once, which Straight has in common. Statements has the sections statement by
-- statement, which the modules Lines spell out, and its Simulation shows that under the lock they
-- do what they do where a section is one step; the sections of les_pc.c, pc.c and rpc_pc are such
-- steps. Alone is a request that no other thread interrupts; the modules Service have serv_request
-- of pc_svc.c on top of it, and main as a script. Buffers are lists and pointers are offsets into
-- them, and an access out of range is none; in Lesson and PcProgram the addresses are those that
-- the source computes, from the start of the cells. The number of bytes that the system maps for
-- the segment of pc.c is a parameter.
--
-- ProducerConsumer/Clients: pc_client.c of os_lab_rpc/pc, pc2, rpc_pc and pc_last, each with the
-- calls that it makes one after the other at its own server, while no other client makes one; how
-- the calls end is a parameter, and a client that waits for a place goes on waiting.
--
-- Dictionary: os_lab_rpc/threads_rpc/dict_server.c (Table, with Counting and Contract on how often
-- a word is kept), the request thread of dict_svc.c (Request) and its main (Service), nextin, with
-- what stands in memory behind the command as a parameter, of dict_client.c (Input), and its loop
-- over the commands against the server (Session), where every call comes through; Lost has insertw
-- in threads of their own, where a step is the copy of the word or one access to nwords. A C
-- string is the list of its characters. The outcomes of the RPC library and the function isspace
-- are parameters.
--
-- Bakery: os_lab_rpc/bakery/bakery_server.c, with the two calls of a client of bakery_client.c. A
-- round of the search for the greatest number is a step, and the store of a number and process
-- number another one; a test of the waiting loop is one step. The operations on floats are
-- parameters; Obakery is the older server, with the num that stays in its static result. Orderly
-- has the runs in which the numbers are given one at a time. Request has the requests of
-- bakery_svc.c and Visit the two calls of bakery_prog_1 of bakery_client.c, while no other thread
-- runs. Obakery is os_lab_rpc/obakery, whose server handles one request after the other, so that
-- each wait of its loop lasts its second; a wait for the own flag, which nothing could end, has no
-- result.
--
-- Calculator: os_lab_rpc/calc, the server, its request and its client. The operations on floats
-- are parameters.
--
-- Daemon: os_lab_3/src/daemon.c, with daemonize on the descriptors of a process (Descriptors), and
-- the daemon behind it as any number of processes over one file system, where a step is one call
-- that may fail (Instance, Single); Closing is the same of daemon_test.c. Terminal and Early are
-- daemon_get_tty.c: the terminals of a session are those that Linux documents, and of the
-- functions that its main does not call, daemonize and already_running. A lock of a file is given
-- back when its process exits or closes a descriptor of the file.
--
-- WinEvents: lab_win/winwr.c. A step is one access to what the threads share, or one call; a wait
-- for an event that resets itself takes it. Arrays has the loops of main that fill the arrays of
-- the threads; the model of the threads leaves out what the store past one of them may change.
--
-- Pipes: os_lab_2/pipe.c, prog4.c, prog5.c and signal.c. The children may write in either order,
-- and the texts, the old contents of the buffer and the children that have seen the signal are
-- parameters.
--
-- Processes: programs of os_lab_2 that fork and wait, as steps of the parent and its children.
-- ForkWait has two loops, one that forks and one that waits: prog3.c, exec.c, and the main of
-- os_lab_rpc/bakery/bakery_client.c. Serial is prog2.c, which waits in the loop that forks,
-- Orphans prog1.c, which does not wait, and Reports wait_man.c, on the reports of waitpid. How the
-- programs that are executed end is a parameter, and any child may be killed.
--
-- Vectors: os_lab_2/sum_vectors.c, scalar_prod.c, old/sum.c and old/concat_nums.c, on the results
-- of scanf. An overflow of int has no result.
--
-- Prelude: names of the libraries, tests on numbers, integers of both signs, lists by index, and
-- sums over families of processes.
--
-- Fuel is used for the loop of concat_nums.c, where nine rounds are enough, for the commands of a
-- session, where one more than the characters of the input is enough, and for serve_1_svc of the
-- bakery in a thread alone, where seven moves are enough and a thread that has to wait never
-- returns. All other loops that do not end are step relations, and the rest go down a list or a
-- count. Not modelled: output, delays and random numbers, SEM_UNDO at the end of a process, the
-- limits of semaphore values, file modes and keys, the exit of a whole server after a failed call
-- of semop in a thread, the creation of the threads of requests, generated stubs, the time limits
-- and repetitions of remote calls, the clients of pc_old and pc_4, os_lab_4/pc/prod_cons.c, which
-- no program calls, os_lab_4/shmop, which is the example of a manual page, os_lab_3/src/apue.c,
-- thr_fn and reread of daemon_get_tty.c, execve.c, myecho.c and tmp2.c of os_lab_2, and the drafts
-- that do not compile.
pub mod Prelude
pub mod Posix
pub mod ReadersWriters
pub mod Dictionary
pub mod ProducerConsumer
pub mod Bakery
pub mod Daemon
pub mod WinEvents
pub mod Pipes
pub mod Processes
pub mod Vectors
pub mod Calculator

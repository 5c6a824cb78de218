-- ===== src/Lib.antt =====
-- Verification library of the exercises on operating systems: C programs in the directories cw01 to
-- cw10, one program or a few that talk to each other in each. They share no code but a handful of
-- helpers that are copied from file to file; the library has a module for each program, and the
-- programs that talk to each other meet in theorems about both.
--
-- The parts that are modelled, and where:
--
-- Prelude     what all modules share: the names of the libraries, Boolean tests on the native numbers
--             (Prelude/Tests), list operations on positions (Prelude/Lists, Prelude/Segments), Option
--             as a monad (Prelude/Maybe) and signed integers (Prelude/Int).
-- CText       C strings as lists of bytes, and int: stringToInt, which stands word for word in a dozen
--             programs, with strtok and sprintf("%d") as the C library documents them (Tokens, Decimal)
--             and strings among other bytes (Strings). A result outside the range of int is none.
-- MsgServer   cw06/zad1/server.c and ipcutil.h. The local variables of main are the record Server; each
--             case of the switch is a function, handle is the body of the main loop, serve the loop over
--             the rounds that msgrcv and the signal handler offer. Slots: the search for a free slot.
--             Mirror: the swapping loop. Registry: the slots as a map from clients to queues. Invariant,
--             Requests, Session: what messages do to it.
-- MqServer    cw06/zad2/server.c, the same server over POSIX queues: the slots, the search and the texts
--             of the answers are those of MsgServer, since the code is the same.
-- MsgClient   cw06/zad1/client.c: step is a round of its loop, run all messages that it sends. Lines
--             joins it to MsgServer.
-- MqClient    cw06/zad2/client.c, which makes the same messages and sends them with a priority. Whole
--             joins it to MqServer.
-- Blocks      cw01/zad1/library.c. Static: the operations on StaticArray, as one run of bytes (Bytes), so
--             that a write behind a block lands in the next one. Dynamic: the operations on the array of
--             pointers, with the blocks on a heap of allocated addresses; Array relates it to a list of
--             texts. Nearest: the two searches for the nearest sum.
-- Search      the search for files by date. Walk: cw02/zad2a/zad2a.c, through the tree that opendir and
--             readdir give, with searchOlder, searchNewer and searchDate, and Dates what main prints. For a
--             directory that cannot be opened the programs call closedir(NULL): whether this returns, as
--             it does in the GNU library, is a parameter. Visits: cw02/zad2b/zad2b.c,
--             callbacks of nftw. Forked: cw03/zad1/zad1.c, a process for each directory, with the lines
--             that have been written and those that wait in a buffer.
-- Records     cw02/zad1/zad1.c: generate, the sort of records in a file by seek, read and write, and
--             copy. The bound of the loop over the records, their number times their size, is an int; offsets
--             are those of lseek. The inner loop of the sort runs on fuel: the position falls by a record in each
--             round, so that a round for each byte before it is enough. Order is the order of the
--             records, Sink the inner loop, Sort the whole.
-- Shell       cw05/zad1/zad1.c, which runs a file of commands with pipes, and cw03/zad3a/zad3a.c, which
--             runs one with limits. Words: strtok over a line. Commands: the rows of arguments. Pipes: the
--             descriptors of the parent and of each process that it forks, followed by Wiring. With the second
--             pipe the program closes two numbers that it has not set: a parameter says what they name,
--             and a run in which this is open is none. Lines: the
--             loops over a file.
-- Fifo        cw05/zad2/slave.c and master.c: what a slave writes, the FIFO as a list of bytes with writes
--             and reads in any order (Traffic), and what the master prints of its reads (Printed).
-- ImageFilter cw08/zad1. Pixel, Rows and Pass are the loops of start_routine, Threads the threads that run
--             it, a pixel at a step. Files: what main reads and writes; Loaded and Saved join it to the
--             threads and to itself. Shuffle is filter.c, which makes a filter.
-- Permissions cw04/zad2/zad2.c: the parent's signal handlers as steps on its global variables. Family: the
--             parent and its children, the semaphore and the signals on their way, a step at a time;
--             Turns and Exclusive follow the semaphore, Sums, Counts and Work the counters.
-- Signals     cw04/zad3/zad3.c: the counters and the handlers of parent and child. FloodMove is the loop
--             of types 1 and 3, PingMove that of type 2; ChildMove is the child with all of them.
-- Barber      cw07/zad1 and cw07/zad2, barber.c and client.c. Shop holds the shared memory, the FIFO,
--             the three semaphores and where each process is in its loop and in its signal handler;
--             Moves has a constructor for each call or access of catchSIGUSR1, catchSIGUSR2 and the two
--             loops; Systems puts them together with a System V and with a POSIX queue, and has the
--             states that the programs can come to. Lock and Seats carry the invariant.
-- Buffer      cw09/zad1/zad1.c and cw09/zad2/zad2.c. Thread has the globals and the moves of
--             P_start_routine and C_start_routine between two calls of the thread library; Cond adds
--             the condition variables of the one, Sem the semaphores of the other. Ring is the buffer
--             as a queue. The counters of lines are numbers without a bound, for files of fewer than 2^31
--             lines. Lines, Moves and Invariant follow the lines of the file through it, Deadlock
--             builds the runs that hang.
--
-- How the models stand to the code:
--
-- none is undefined behaviour: a read or a write outside an array, a call with a null pointer, an
-- overflow of int. A character is a byte, and its value as a char is signed. Loops are recursion on the
-- rounds that are left; the search of START, which has no count, runs on 21 rounds of fuel, two times
-- round the ten slots and one more test, and ends within them. What the code gets from outside is a
-- parameter: the quotient in float that sprintf("%f") prints, the time, what malloc leaves in a new
-- block, what a path leads to, localtime, realpath, sscanf, rand, mq_open, the exit status of a process,
-- strtol, strtod and the arithmetic of double. What a server or a client receives is a list of events in
-- their order. A file that fscanf("%s") reads is the list of its words. The words of a line of commands
-- run on a round of fuel for each character, and strtok takes one at least; its rows on a round for each
-- word and one more, and each round takes a word at least.
--
-- Processes and threads take their steps one at a time and in any order. A mutex or a semaphore that
-- guards a section has one holder, so that of the producers, and of the consumers, the model follows
-- the one between its locks and counts the others. A condition variable wakes a thread by a broadcast
-- or, where a parameter says so, without one. A signal is sent once and caught at any later time; while
-- its handler runs the loop that it interrupts stands still.
--
-- Console output is left out where it only informs, and so are the creation and the removal of queues,
-- semaphores and shared memory, and the ends of processes by SIGINT, SIGTERM or after NK seconds.
--
-- Not modelled are main of cw01 and the programs that measure time, which print what getrusage
-- returns, the arguments of main of cw02/zad1/zad1.c, cw03/zad2/zad2.c, which reads lines into a
-- buffer that it has freed, and the programs of cw04 that print the time until a signal comes; in
-- cw08/zad1 the array of thread identifiers is followed by create, but the threads run wherever
-- their identifiers are stored, and pthread_join, which reads identifiers that have not been set, is
-- left out; and in cw04/zad2 the array childAr, which is allocated with the size of one int.
-- cw06/zad1/zad1.c is a copy of cw05/zad1/zad1.c; cw10 holds a copy of a program of cw09 and a
-- server that does not compile.
pub mod Prelude
pub mod CText
pub mod Barber
pub mod Blocks
pub mod Buffer
pub mod Fifo
pub mod ImageFilter
pub mod MqClient
pub mod MqServer
pub mod MsgClient
pub mod MsgServer
pub mod Permissions
pub mod Records
pub mod Search
pub mod Shell
pub mod Signals

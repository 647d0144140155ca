-- ===== src/Lib.antt =====
-- Models of the programs of the course assignments.
--
-- UInt256 (UInt256.antt and the folder of that name): csf_assign01/uint256.c, unsigned integers of
-- 256 bits as four 64-bit words. A word is a natural number, and each C operation on words keeps
-- its `% 2 ^ 64`. The functions keep their names without the prefix `uint256_`. The loop over the
-- words and the 256 rounds of uint256_mul are recursion on the number of rounds left, which the
-- caller gives as in C. UInt256/Hex.antt has the conversions from and to hexadecimal texts; a text
-- of 2 ^ 31 characters or more, whose length is not an int, has no result.
--
-- Cache: csf_assign03/cache.h and cache.cpp, a set-associative cache. A set is an association list
-- with one entry for each key of the hash map; Cache/Spec.antt is the contract, a list of blocks by
-- age for each set, addressed by arithmetic. Operations that would be undefined behaviour return
-- `none`; so do `load` and `store` when one of the statistics, which are ints and never get
-- smaller, ends outside their range (Cache/Range.antt). The loop of highest_bitSet has fuel 32,
-- since a word of 32 bits is 0 after that many shifts.
--
-- Cache/Earlier.antt is csf_assign03/another.cpp, an earlier cache with LRU only that is not built:
-- its operations, on the helpers that both files have in common. Cache/Inclusion.antt and its
-- children compare two caches that differ in the number of blocks of a set.
--
-- Csim: csf_assign03/csim.cpp, which checks the arguments, makes a Cache, and feeds it the trace.
-- Its result is an error message, an uncaught exception or fault, or the printed statistics.
-- Csim/Totals.antt bounds them by the number of accesses.
--
-- Hexdump: csf_assign02/c_hexfuncs.c and c_hexmain.c. The blocks that `read` returns are the input,
-- and all bytes written are the output.
--
-- Parsort: csf_assign04/csf_assign04. Parsort.antt has `merge` of parsort.c and the program
-- is_sorted.c; the merge loop has one unit of fuel for each value of the range and one for the end.
-- Parsort/Processes.antt has `merge_sort` and `main`: what fork, waitpid and the calls on the file
-- answer to each process is an input, `qsort` is a parameter with its contract
-- (Parsort/Qsort.antt), and the depth of the processes is bounded by fuel, one more than the number
-- of values, since a range that is divided gets shorter. The two child processes run at the same
-- time on ranges that do not meet; the model runs the left one first. malloc is taken to succeed,
-- and the theorems are about fewer than 2 ^ 31 values.
--
-- Chat: csf_assign05. Chat.antt has the messages and one end of a connection (message.h,
-- connection.cpp, the trims of client_util.cpp); a read takes at most 254 bytes of a line, since
-- rio_readlineb is given a limit of 255 that counts its final zero. The server: Chat/Rooms.antt has
-- the queues, rooms and the map of rooms (message_queue.cpp, room.cpp,
-- Server::find_or_create_room), each operation as one step, since it holds its lock;
-- Chat/Rooms/Threads.antt has the operations on a queue again with every access to the shared state
-- as a step of its own, for any number of threads. Chat/Worker.antt has the login, Chat/Sender.antt
-- chat_with_sender, with one unit of fuel for each byte and each line that will come and one for
-- the end of the file, since a read takes at least a byte, and Chat/Receiver.antt
-- chat_with_receiver and `worker` as a whole; the messages that other threads enqueue between two
-- calls of `dequeue` are an input. Chat/System.antt has the whole server: handle_client_requests
-- and server_main.cpp, with the threads of all clients interleaved by a schedule, which is any list
-- of connections and turns; a turn makes at most one access to the rooms or to the queues of the
-- users. What Server::listen returns is a parameter. The clients: Chat/Clients/Sending.antt is
-- sender.cpp and Chat/Clients/Receiving.antt is receiver.cpp, whose loops run for a given number of
-- rounds; connecting is a parameter of their `main`. Chat/Clients/Commands.antt and
-- Chat/Clients/Arrival.antt put client and server together.
--
-- Libc.antt is what the programs use of the C and C++ libraries: strtoul, sprintf, stoi and stol.
-- Base.antt passes on the shared names; its children have lemmas on lists, bits and powers.
--
-- Not modelled: the assembly version of the hex dump; csf_assign04/csf_assign04/gen_rand_data.c,
-- which writes random bytes; opening and closing sockets, signals, and a failing pthread_create,
-- which ends the chat server; csf_assign05/csapp.c, a copied library whose reads and writes appear
-- as data of a connection; the tests.
pub mod Base
pub mod Libc
pub mod UInt256
pub mod Cache
pub mod Csim
pub mod Hexdump
pub mod Chat
pub mod Parsort

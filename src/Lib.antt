-- ===== src/Lib.antt =====
-- The programs of the repository pungoo: a file object over stdio with retries, a disk performance
-- test that uses it, a WebHDFS client that fails over between two name nodes, programs that load a
-- redis cluster and a rabbitmq server from many threads, and exercises in C++: sorts, an IPv4 test, a
-- url shortener and others.
--
-- Common.antt holds what the others share: numbers, lists, integers, Boolean tests, the outcome of a
-- piece of C code (Run: a value, undefined behaviour, or fuel used up) and the rule for while loops.
-- Clib.antt is the C library: byte arrays, strlen, strncpy and snprintf (Clib/Bytes) and stdio
-- (Clib/Stdio), where a World holds the files, the open streams, the time slept and the fates that
-- the kernel has ready for the next calls: a fault may break any call after some of its bytes. An
-- fwrite puts its bytes into the file at once; what stdio may still hold then is what an fclose that
-- fails loses.
--
-- Disk.antt models c/base/disk.c and disk.h (c/disk_perf_test/disk.c is the same text): disk_t is
-- the record Disk, and disk_t_create, disk_t_destroy, disk_t_file_open, disk_t_file_close,
-- disk_t_file_read, disk_t_file_write and disk_t_file_seek have their own names. A pointer to an
-- object is an Option. The theorems are in Disk/Objects, Disk/Opening, Disk/Read and
-- Disk/Write.
-- Perf.antt models c/disk_perf_test/main.c (main_write) and read.c (main_read), which call the file
-- object; the theorems are in Perf/Files and Perf/Readback (one round), Perf/Series, Perf/Reader and
-- Perf/Whole (the whole of main.c, of read.c and of both); Perf/Outcome says what a series comes to.
--
-- Hdfs.antt and Hdfs/Redirect.antt model c/hdfs_test/webhdfs.c and webhdfs.h under the names of
-- its functions: webhdfs_t is the record Webhdfs. Its calls of libghttp and json-c are the fields of
-- the records in Ghttp.antt, with what libghttp documents as laws (IsObserved): a request that is
-- put together is seen by `view`, the requests sent by `sent`, and the network is a function from
-- the requests so far to the reply to the last one. Hdfs/Protocol tells what the client is to do
-- without arrays, request objects or cleaning (failover, dir_step, append_step, create_step), and
-- Hdfs/Failover, Hdfs/Redirect/Append and Hdfs/Redirect/Create relate the code to it.
-- Hdfs/Main models c/hdfs_test/main.c (hdfs_main).
--
-- The C++ programs do not call each other. Server.antt models cpp/redis_cluster/server.cpp (server)
-- and cpp/redis_cluster2/server.cpp (server2): the process is a record, a step is a turn of one
-- thread (thread_step) or a round of main's loop (watch), a list of events is one order of the turns,
-- and the client r3c is the record Redis of what its calls come to. The theorems are in
-- Server/Counted and Server/Shown.
-- Sendstring.antt models cpp/rabbitmq/rabbitmq-c-0.8.0/examples/amqp_sendstring.cpp in the same way:
-- main's reading of argv (read_args), the turn of a thread (sender_step), which is one call of
-- rabbitmq-c with what follows it, a round of main's loop (show), and runs of them (advance,
-- sendstring). Amqp.antt has what it uses of rabbitmq-c (the record Rabbit: what each call comes to,
-- given the calls so far, and which long printf takes for an int, where the platform says so) and
-- the functions die_on_error and die_on_amqp_error. Sendstring/Turns and Sendstring/Runs are the rules
-- for a turn and for a run, Sendstring/Starved the runs that can not make a message; the theorems are
-- in Sendstring/Published and Sendstring/Nulls.
-- SendOne.antt models amqp_sendstring.c beside it, with the rounds of its endless loop as an argument;
-- SendOne/Answers says which of its calls the library has answered.
-- Sort.antt has the arrays of cpp/sort; Sort/Quicksort, Sort/Heapsort and Sort/Hsort model
-- quicksort.cpp, heapsort.cpp and hsort.cpp under the names of their functions (heapAjust is
-- heap_ajust). Sort/Moves is about exchanged entries, Sort/Heap and Sort/Heap/Selection about what
-- the two heap sorts have in common; each sort has its theorems in its children.
-- Ipv4.antt models cpp/ipv4/ipv4.cpp: Ipv4/Octet is about its inner loop, Ipv4/Accepted about the
-- texts that it accepts. Problem/Tinyurl, Problem/Multi, Problem/Slices and Problem/MinSpan model
-- tinyurl.cpp, multi.cpp, 413.cpp and min_span.cpp of cpp/problem, Leetcode/Hamming and
-- Leetcode/Battleships the files 461, 476 and 419 of cpp/leetcode. Clib/Bytes/Numerals is how atoi
-- and std::stoi read a number.
--
-- Bounds and fuel. The loops of disk_t_file_read and disk_t_file_write have fuel for one round for
-- each byte of `len` and one for each of the 6000 retries, and one more: a round moves a byte or
-- counts a retry. The loops of the client take two rounds, as in the source. `int` counts are not
-- wrapped: they stay within `len`.
--
-- The sorts take one round of fuel for each entry of the range and one more; IsValidIpv4 takes five
-- rounds, for it leaves its loop with the fourth octet; encode one for each unit of the id, and seven
-- to fill up to six chars; numberOfArithmeticSlices two for each entry. Ints that are compared and
-- moved only are offsets from the least int. In amqp_sendstring.cpp the int idx that
-- would pass 2 ^ 31 - 1 is undefined behaviour, and in min_span.cpp the int 2 * n. The counts of 419 and of the server's threads stay
-- within the size of their input or the number of the calls and are not wrapped; multi.cpp and 413.cpp
-- check each of their int operations.
--
-- Not modelled: the LOG output and the debugging output of the C++ exercises, the function pointers
-- of the objects (they are set once, to the functions above), the third-party libraries (libghttp,
-- json-c, rabbitmq-c with its other examples, r3c), amqp_dump of amqp_sendstring.cpp (a
-- copied helper that nothing calls), cpp/problem/cow.cpp (a trial of fork) and cpp/test
-- (trials of sbrk, mmap and std::priority_queue).
pub mod Common
pub mod Clib
pub mod Disk
pub mod Perf
pub mod Ghttp
pub mod Hdfs
pub mod Sort
pub mod Amqp
pub mod Sendstring
pub mod SendOne
pub mod Problem
pub mod Ipv4
pub mod Server
pub mod Leetcode

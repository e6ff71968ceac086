-- ===== src/Lib.antt =====
-- The training programs in C of this repository, modelled by shallow embedding: each function of the
-- source is a function on values, files are a map from names to contents, and what runs at once is a
-- sequence of turns. All paths below begin at Linux-System-Programming/.
--
-- The parts and their files:
--   Prelude and its modules      signed integers, lists and Boolean tests over the native numbers
--   CString, CString/...         what the programs use of the C library: strings as lists of bytes,
--                                strstr, strrchr, strtok, fgets, and %d of printf and sscanf
--   Common, Common/...           Mini-Project/Application/src/common.c: reverse, intToStr, ftoa
--   FileHandle, FileHandle/...   04-IPC-Synchronization/02-Multi-Processes-Signal/src/file_handle.c:
--                                reading, appending, the last line, tests on file names
--   PingPong, PingPong/...       main.c and src/syn_signal.c beside it: two processes
--                                that append numbered lines to one file in turn, with SIGUSR1
--   Threads, Threads/...         04-IPC-Synchronization/01-Multi-Threading-Mutex-Semaphore/main.c:
--                                threads that count under a mutex and write under two semaphores
--   Speedtest/Double, Server     the numbers, and the records of inc/speedtest_server.h and inc/main.h
--   Speedtest/Nearest, ...       get_nearest_server of Mini-Project/Application/src/speedtest_server.c
--   Speedtest/Best, ...          get_best_server of the same file
--   Http, Http/...               Mini-Project/Application/src/http.c: names, requests, the receive loops
--   Transfer, Transfer/...       src/speedtest_download.c and src/speedtest_upload.c beside it: the
--                                workers, what they ask for, and their totals; what is made of the
--                                URL of a server, and the arrays that it is written into
--   Pool, Pool/...               the threads of these two files and of Mini-Project/Ref in every
--                                interleaving, under the function that starts and joins them, with
--                                the sockets that they leave open
--   Flow, Flow/...               Mini-Project/Application/main.c: the fetches and the sockets they leave
--                                open, the choice of the server, both tests, get_list_servers, main;
--                                Flow/HandleTime is src/handle_time.c
--   Ref, Ref/...                 Mini-Project/Ref: the earlier version of the speed test in one file
--   Directory, Directory/...     02-Linux-File-System: the lister, the loop that asks for a file name,
--                                the programs that write a text and make links, the search in a tree
--   Daemon, Daemon/Result        03-Processes-And-Threads/01-Daemons/SystemV/src/become_daemon.c
--   Daemon/LogUser, Daemon/Log   main.c and src/log_user.c there: the log of the users, until SIGTERM
--   Tests and its modules        the theorems at concrete inputs
-- Threads/FileHandle, PingPong/Common and Ref/Common are the copies of a file that a directory has.
-- How they interact: PingPong and Threads call FileHandle, which calls CString;
-- Speedtest/Nearest fills the table that Speedtest/Best probes and chooses from, and Transfer uses the
-- requests of Http. Flow calls Http for the files, Speedtest for the client and the server, and gives
-- that server to the pools of Pool, whose threads have the bodies of Pool/Jobs.
--
-- Correspondence. A char buffer is the list of the bytes in it before the NUL, so the sizes of the
-- arrays are no part of a record: where a size decides what is read (fgets, the widths of sscanf), it
-- is written out. An int is an integer without overflow; the statements bound what is counted.
-- The functions of <math.h>, atof and the order of double are the fields of a record that the
-- definitions take; the laws of the order that are used are hypotheses. The network and the clock
-- are the results of the calls: Speedtest/Best takes a function that tells what each round finds, and
-- Http and Transfer take lists of what the calls return, round by round.
--
-- Loops are recursion on the list that they read. `reverse_loop` has the length as fuel, which its two
-- indices cannot outlast; `emit` has the number, which each round divides by ten; `pad` has the width;
-- `lines` has the length of the file, of which each round reads a byte. A loop that waits for an event is
-- recursion on the list of the events, and is `none` if it still waits behind them. A pool moves by a list
-- of turns, of the starting function, of a thread or of the timer; an addition to a total is a read and a
-- write, and a turn at a mutex that is held or at a join that waits changes nothing.
--
-- Not modelled: what is printed on the terminal, the working directory of the search and of the links, the
-- SSL set-up of https_download_thread, which is that of src/http.c, and the shell scripts.
mod Prelude
pub mod CString
pub mod Common
pub mod FileHandle
pub mod PingPong
pub mod Threads
pub mod Speedtest
pub mod Http
pub mod Transfer
pub mod Pool
pub mod Flow
pub mod Ref
pub mod Directory
pub mod Daemon
mod Tests

-- ===== src/Lib.antt =====
-- cs342: the programs of an operating systems course, each a directory of the repository of its
-- own.
--
-- hw01/src/tree.c fills a binary search tree with random numbers: Tree. Tree holds the node type,
--   `insert_bst_node`, `traverse_inorder` and the loop of `main`; Tree/Inorder its order,
--   Tree/Marks the numbers that are drawn, Tree/Populate the loop.
-- proj01/src counts the words of several files. common.c is WordCount: Text is what it uses of
--   the C library on strings (`strcmp`, `toupper`, `fscanf` with " %63s"), WordCount the array of
--   words with its operations, Counts, Validity, Sorted, Parse and Stored what they keep.
--   Arguments is `parse_arguments` of common.c. tword.c is ThreadCounter, with a slot for each
--   thread, and the order in which the threads end as a list of their indices; Correct and Bounds
--   are about what is written. pword.c is ProcessCounter: the bytes of a message, the loop of a
--   child, the queue as a shuffle of what the children send (Interleaving), and the parent.
--   ThreadCounter and ProcessCounter use WordCount as the programs link common.c, and
--   ProcessCounter/Agreement compares the two.
-- proj02/src schedules simulated processes. cfs.c is Scheduling, with the queue operations of
--   scheduler.c and the loop of a process thread of process.c on top: Weights, Runqueue,
--   Occurrences, Slices. The threads of scheduler.c, process.c and generator.c are Dispatch: a
--   system has the globals of scheduler.c, the processes, and the place of every thread in its
--   code, and `Move` has a constructor for each step from one lock to the next. Invariant,
--   Change, Moves, Creation, Slices, Signals, Waking and Schedule carry an invariant through the
--   steps, Picked, Safety, Fixed and Progress draw on it, Potential and Ending count the steps.
--   workload_params.c is Workload: the arguments and the input file, with FileFormat, Written,
--   Options and Parsed about them, and Workload/Iterator the iterator, the random numbers of
--   utility.c and the loop of generator.c; Workload/Iterator/Ending puts the generator and the
--   threads together. Statistics has the statistics that a thread of process.c sends at its end,
--   the array of utility.c and the table of main.c, Statistics/Table what is printed. Scanning is
--   "%d" and literal text of `fscanf`.
-- proj03/src simulates demand paging. paging.c is Paging: Address splits addresses, Candidates
--   and Scan search for victims and Search searches for free frames, Invariant is about the
--   tables and the frame of a fault, Hit, Fault, Step, Present and Reference about one reference,
--   Run about all of them, Regions about the valid addresses. Paging/Input is the address
--   iterator of params.c and the random numbers of utility.c, Paging/Parsing the command line and
--   the files of params.c, with Scans and Files about them, and Paging/Parsing/Output the output
--   of main.c and the whole program; Hex and Written read back what it prints.
-- proj04/src reads the root directory of an ext2 disk. The block buffer, the inodes and the entry
--   list of main.c and dir_entry_list.c are Filesystem: Blocks is about the buffer and the inode
--   table, Directory about the walk over the entries. Filesystem/Report is what main.c prints and
--   the whole program, its Listing about all of that on a disk that can be read.
--
-- A C function that can end otherwise than by returning has a result in `Outcome`: a value, an
-- exit status, undefined behaviour, or out of fuel. Sizes and counts are natural numbers without
-- a bound; that a count of words or a number that is read from a message is an `int` of four
-- bytes is a condition or part of what is shown. A string is its bytes before the first NUL. A
-- read outside of an array, of a pointer that was not set, or of a NULL is undefined. `malloc` is
-- taken to succeed.
--
-- Fuel: the scan of a file takes one unit for each word, and gets one for each byte and one more;
-- the loop of a child of pword.c gets one for each pair and one more, and whether it suffices is
-- stated; the walk of proj04 takes one for each entry and one more. The iterator of proj03 gets
-- one for each address and one more; so do the loops over the input files of proj02 and proj03,
-- with one unit for each byte and one more. Random numbers of proj02 are taken from a list, and
-- so are the runqueues that its generator finds, which may be too short. The tables of proj03
-- have 1024 rows and columns, as in paging.h. All other loops are structural.
--
-- Not modelled: the operating system (files are functions from names to bytes, `rand` is a
-- sequence, the message queue is the sequence of the messages that arrive), time measurement (the
-- times in the statistics of proj02 are given), the date that `gmtime` makes for proj04, debug
-- output and freeing. `double` of proj02 is a record of operations; the mutexes and condition
-- variables of proj02 are part of the steps, where a wait can end with no signal. Prelude has the
-- shared types, tests and lemmas.
pub mod Prelude
pub mod Tree
pub mod WordCount
pub mod ThreadCounter
pub mod ProcessCounter
pub mod Dispatch
pub mod Paging
pub mod Scheduling
pub mod Scanning
pub mod Workload
pub mod Statistics
pub mod Filesystem
pub mod Arguments

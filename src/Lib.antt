-- ===== src/Lib.antt =====
-- Models of the programs of an operating systems course, and proofs about them. The repository
-- has a directory for each assignment, with programs of its own; this library has a folder for
-- each one that it models. The programs of an assignment share memory, message queues or a
-- header, and those of two assignments share nothing.
--
-- Base: what the models share. Arrays are lists under native indices, an access beyond an array
-- is `none`, and integers that can be negative have two parts, as in the library.
--
-- Memory: the virtual memory of "Assignment 8". Table: the segments SM1 (page tables) and SM2
-- (free frames) and the messages, from mmu.c. Mmu: the request loop of mmu.c. `serve` is one
-- round of it, on a page number and a process id: `find_process`, then `terminate` (page -9),
-- `illegal`, `page_hit` or `page_fault`, which takes a free frame (`take_frame`) or that of the
-- least recently used page (`lru_scan`, `replace`). It returns the new segments and the messages
-- sent, or a fault for an access beyond a segment. A segment is rounded up to pages of 4096 bytes
-- that hold zeros, as Linux does. Master: what master.c writes to both segments before it starts
-- the other programs. Refstr: the reference strings that master.c writes and process.c reads.
-- What `sprintf` writes for a number is an argument; Decimal is one that the theorems apply to.
-- System: the loops of process.c (`run_process`) and of sched.c (`schedule` is one round). The
-- scheduler waits for the unit after it has woken a process, so that a process runs alone up to
-- its next wait. `run_process` runs on fuel, for which the length of the string is enough: each
-- page takes a character at least. The children of Mmu and System and the module Start hold the
-- invariants and the theorems. Left out: the counters and traces that mmu.c prints, and the
-- semaphores with which master.c waits for the scheduler. A clock beyond an `int` is a fault.
--
-- Clinic: the doctor's session of "Assignment 6". Event, EventQueue: event.c, the binary heap of
-- events. The loops run on fuel, for `sift_up` the position and one more, for `sift_down` the
-- number of entries: a position at least doubles with each round, so that this is enough, and the
-- theorems about `addevent`, `delevent` and `init_eq` say that the result is not `none`. Clock:
-- `format_time` of session.c; the negation of a number that has none in an `int` is `none`.
-- Session: the loop of `main` in session.c. `round` takes the next event; `arrives` is the part
-- on its type, and `serve_next` lets the next visitor in. `run` repeats it on fuel, of which the
-- theorem about the whole program gives an amount that is enough. Left out: the bodies of the
-- threads, for which the loop waits wherever it hands over to them, the prints, and arrival.c,
-- which writes a random file. The sum of a time and a duration does not wrap around.
--
-- Foothread: the thread library of "Assignment 7", foothread.c and foothread.h. Mutex, Barrier:
-- the calls on a mutex and on a barrier as step relations. A `Move` is one access of one thread,
-- a `Step` picks a thread, and `Reach` holds of what the threads reach from the initialised
-- object. `Stray` has the moves of a thread that unlocks a mutex it does not hold or locks one
-- that it holds, and `IsOrderly` holds of a run without such a call. Counts of arrivals and
-- returns are kept beside the program's state. Manager: the table of threads. `create` and
-- `exit_child` are one step each, and `main_step` is one round of the loop of the main thread in
-- foothread_exit. Gentree: gentree.c, from the shuffle to the array of parents. The loop runs on
-- fuel, for which the number of vertices is enough. Computesum: computesum.c. `load_tree` reads
-- the lines that gentree.c writes into arrays of `max_nodes` entries (`read_lines` is its loop),
-- and `compute_sum` is one step of the thread of a vertex: a call of a barrier, arriving or
-- passing, or a section under the mutexes. The numbers entered are not negative, and a sum beyond
-- an `int` is `none`. `run_main` is a step of the main thread, and `Reach` holds of what they
-- reach. Left out: the destruction of mutexes and barriers, and stacks.
--
-- Proctree: the process tree of "Assignment 1", proctree.c. `proctree` is the process of a node,
-- on fuel for the depth of the tree, and `fgets` cuts the file into lines of at most 99
-- characters. Lines has the lines that describe a tree, Rows the file, and Outline what is
-- printed for it. A number is written by an argument, for which Decimal of Memory.Refstr is one.
-- Left out: the numbers of the processes, and failures of fork and exec.
--
-- Cse: the command exchange of "Assignment 3", CSE.c. `type_line` is a line that a user enters at
-- a shell in command-input mode, `receive` one that a shell in execute mode takes from its pipe,
-- and `Reach` holds of what they reach from `start_cse`, with the lines entered and taken. Left
-- out: what the commands do, the supervisor's messages, and lines beyond the buffers.
--
-- Jobs: the job manager of "Assignment 2", mgr.c. `command` is one round of the loop of `main`,
-- with what `fork`, `waitpid` and the user return as arguments of the command. `signal_handler`
-- says to whom a signal is passed on. Left out: the names of jobs, the signals that the commands
-- themselves send, and job.c, which prints a letter now and then.
--
-- Sync: the directory synchronisation of "Assignment 9", sync.c. A directory is a tree of files
-- with their contents, permissions and times. `sync_dirs` makes the second tree as the first one,
-- `sync_time_permissions` copies permissions and times, and `synchronize` is both. What the
-- program reports is a list of changes. Whether the program may write into a file or a directory
-- of some permissions is an argument, `allows`; where it may not, the item stays as it is and the
-- program goes on, as the source does. Left out: other failures of system calls than on these and
-- on missing items, links, special files.
--
-- Graph: the topological sorting of "Assignment 5", boss.c and worker.c. `work` is one access of
-- a worker to the shared state, `lead` one of the boss, and `Reach` holds of what they reach from
-- `setup_team` in any order. `verdict` is the check of the boss. Generator: gengraph.c, which
-- makes the graph, for any outcome of its random numbers. Left out: the creation and removal of
-- segments and semaphores, and reading and printing the graph.
--
-- Shuffle: the loops that shuffle the numbers below n in gengraph.c and gentree.c.
--
-- Exchange: the producer and the consumers of "Assignment 4", prodcons.c. `produce` and `consume`
-- are one access of the producer or of a consumer to the two shared words, and `Reach` holds of
-- what they reach in any order. Tests has a run in which a consumer reads M[1] before the
-- producer writes it. Left out: the creation and removal of the segment and the processes.
--
-- The directory Materials has examples of system calls and is not modelled.
pub mod Base
pub mod Proctree
pub mod Cse
pub mod Shuffle
pub mod Memory
pub mod Clinic
pub mod Foothread
pub mod Jobs
pub mod Sync
pub mod Graph
pub mod Exchange

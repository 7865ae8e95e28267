-- ===== src/Lib.antt =====
-- TCP-and-parallel: a collection of systems programs in C. What is modelled here is its MINIX
-- part, the memory allocator of the VM server (minix/alloc.c, and the best fit of
-- minix/3.1.7-bestfit-alloc.c) and the policy of the user-mode scheduler (minix/schedule.c); a thread
-- pool, a linked list and a bounded buffer (pthreads/thr_pool.c, pthreads/linkedlist.c and
-- pthreads/pc-9.c); a program on matrices (sefdm/algorythms/test.list.161.c); and two small ones,
-- cellular_automata.c and bubbleSort.c. They share no state and do not call each other, but for the
-- parts of minix/alloc.c.
--
-- minix/alloc.c manages free memory twice. With `vm_paged` 0 the free memory is a list of holes in
-- a table of `_NR_HOLES` slots, with a second list of the unused slots. With `vm_paged` set it is an
-- AVL tree of page ranges. `alloc_mem` and `free_mem` choose between the two.
--   Alloc/Table.antt: `struct hole`, the table, and the commands that read and write it; a command
--     ends in `ok`, in `fault` where NULL is followed, in `panic`, or in `out_of_fuel`.
--   Alloc/Holes.antt: `del_slot`, `merge`, `free_mem`, `alloc_mem` and `mem_init` on the table.
--     Pointers are slot numbers or `none`. Clicks are 32 bits wide and wrap around.
--   Alloc/Spec.antt, Alloc/Cells.antt, Alloc/Regions.antt: the table as a sequence of cells, what is
--     to become of it, and the set of free addresses.
--   Alloc/Chain.antt, Alloc/Order.antt, Alloc/Unlinked.antt, Alloc/Rewrites.antt: lists in the table.
--   Alloc/Holes/*.antt: the operations on the table against the sequence of cells.
--   Alloc/Avl.antt: the AVL tree, as an interface; it is generated from files that are not in the
--     repository. `search`, `insert`, `remove` and the iteration are told by the sequence of ranges.
--   Alloc/Pages.antt: `alloc_pages`, `free_pages`, `memstats` over that interface.
--   Alloc/Vm.antt: the entry points `alloc_mem` and `free_mem` with `vm_paged`; `free_yielded` of the
--     page cache is a parameter.
--   Alloc/Dma.antt: the table of DMA regions, over any memory with a `free_mem`. Alloc/Dma/*.antt:
--     the theorems.
--   Alloc/BestFit.antt: `alloc_mem` of minix/3.1.7-bestfit-alloc.c, with `vm_paged` 0, where a pointer
--     that is not set is a fault. Alloc/BestFit/Picked.antt: which hole it uses.
-- The walks along the list of holes take fuel, `_NR_HOLES + 1` of it; that is enough, as a
-- well-formed list holds no slot twice and so is no longer than the table. The walks of
-- `alloc_pages` and `memstats` go by the ranges of the tree. Page numbers do not wrap around in
-- Alloc/Pages.antt: there are fewer than 2 ^ 20 pages in a 32-bit address space.
--
--   Alloc/Lists.antt: `alloc_mem_in_list` and `free_mem_list`; `free_yielded` and the answers of
--     SLABALLOC are arguments. The inner loop takes fuel for each yielded block and one more.
--     Alloc/Lists/*.antt: the theorems.
--
-- minix/schedule.c keeps a table of slots, one for each process, and DUTS, the time slice of new
-- processes.
--   Sched.antt: the handlers `do_noquantum`, `do_stop_scheduling`, `do_start_scheduling`, `do_nice`
--     and the timer's `balance_queues`. A handler gives its code, the slots and the calls of the
--     kernel. The lookups of endpoints, `nice_to_priority` and the answers of the kernel are
--     parameters (`Env`).
--   Sched/Balance.antt, Sched/Bounds.antt, Sched/Nice.antt, Sched/Start.antt: the theorems.
--
-- pthreads/thr_pool.c is a pool of worker threads that take jobs from a queue.
--   ThreadPool.antt: the pool, the threads by what they wait for, and the functions that run
--     under the lock: `notify_waiters`, `create_worker`, `worker_cleanup`.
--   ThreadPool/Steps.antt: the worker's loop, `job_cleanup`, `thr_pool_queue`, `thr_pool_wait` and
--     `thr_pool_destroy`. What a thread does between taking the lock and giving it up, or waiting,
--     is one step; an event says which thread goes on, and answers `pthread_create` and `malloc`.
--     The worker's loop takes fuel for four stages.
--   ThreadPool/Ring.antt: the ring of all pools.
--   ThreadPool/Held.antt, ThreadPool/Steps/*.antt: the invariant, the reachable states, and the
--     destruction.
--
-- pthreads/linkedlist.c keeps a list of messages on the heap.
--   LinkedList.antt: `searchname`, `add`, `deletenode`, `insertnode` and `deletelist`. A node that is
--     freed is no node any more, and following it or NULL is a fault. Messages are of any type, with
--     two tests for `strcmp`. The loops take fuel; one more than the nodes is enough.
--   LinkedList/Cells.antt: the list as a sequence of cells. LinkedList/Search.antt,
--     LinkedList/Insert.antt, LinkedList/Between.antt, LinkedList/Place.antt, LinkedList/Delete.antt,
--     LinkedList/Add.antt, LinkedList/DeleteList.antt: the operations on it. LinkedList/Ends.antt:
--     where `end` points.
--   LinkedList/Menu.antt: `initnode` and the menu of `main`, one choice after the other; what is
--     printed is left out. The answers of `calloc` and `malloc` are arguments, and so is the test
--     whether a message fits the text that `initnode` gets for it, of the size of a pointer; a longer
--     one is an outcome of its own. LinkedList/Menu/Spec.antt: the choices on a list of messages and
--     numbers. LinkedList/Menu/Entries.antt, LinkedList/Menu/Nodes.antt, LinkedList/Menu/Refined.antt:
--     that the menu implements it.
--
-- pthreads/pc-9.c is a producer and a consumer with a ring of ten places, a mutex and two conditions.
--   BoundedBuffer.antt: the ring (`queueInit`, `queueAdd`, `queueDel`), and both threads as steps, each
--     from taking the mutex to giving it up or waiting; a wait may end without a signal. `loops` is how
--     many values the producer makes, 4 in the code. BoundedBuffer/Ring.antt: the ring as a list.
--     BoundedBuffer/Invariant.antt, BoundedBuffer/Moves.antt, BoundedBuffer/Order.antt: what holds in
--     every state. BoundedBuffer/Waits.antt, BoundedBuffer/Progress.antt, BoundedBuffer/Delivery.antt:
--     the steps that are left, and that they can be taken.
--
-- cellular_automata.c makes one step of an elementary cellular automaton on the bits of a byte.
--   Automaton.antt: the three functions of neighbourhoods, `cellular_rule`, and the loops of `main`
--     from the byte it reads to the one it prints, for any rule. Automaton/Wolfram.antt: the theorems.
--
-- bubbleSort.c sorts an array of `int`.
--   BubbleSort.antt: `swap` and `bubblesort` on an array as a function of the index, with any
--     order of the elements. BubbleSort/Sorted.antt, BubbleSort/Kept.antt: the theorems.
--
-- sefdm/algorythms/test.list.161.c, the last of the numbered versions, keeps complex matrices as tables
-- of linked columns. Doubles are any type with the operations of the program (`Doubles`): what is shown
-- holds for every arithmetic, rounding included, and laws are named where a theorem needs them. A walk
-- that follows NULL, and a column that `table_init` does not set, are faults (`none`).
--   Matrix/Table.antt: nodes, tables, `table_append`, `TRANSPOSE`, and what fills new tables.
--   Matrix/Product.antt: `table_sub`, `table_mult`, `correlate`, `addition`, `sigma`, `mag`, `divide`.
--   Matrix/Rows.antt: rows and columns as arrays. Matrix/Invert.antt: `invert`, whose arrays hold
--     what malloc gives, as arguments.
--   Matrix/Spec.antt: the matrix that a table holds, a function of row and column. Matrix/Filled.antt,
--     Matrix/Product/*.antt, Matrix/Rows/*.antt, Matrix/Invert/*.antt: the operations on it.
--   Matrix/Chain.antt: the columns as pointers; Matrix/Chain/*.antt: `table_append` on them.
-- Not modelled of this file: `modulate`, whose step has no defined order; `swap`, `switch_b` and
-- the list functions, which are not called; the sines and random numbers that fill the first tables;
-- names and sums of tables, which nothing reads; and printing.
--
-- Not modelled: the checks under SANITYCHECKS and CHECKHOLES, which print or stop and change nothing;
-- the timer of schedule.c; thread attributes and signal masks of
-- thr_pool.c; and the other programs, which are threads, sockets, and numerical code.
pub mod Prelude
pub mod Alloc
pub mod Automaton
pub mod BoundedBuffer
pub mod BubbleSort
pub mod LinkedList
pub mod Matrix
pub mod Sched
pub mod ThreadPool
mod Tests

-- ===== src/Lib.antt =====
-- linux-summer-2023: homework programs of a Linux kernel summer course, in C.
--
-- The repository holds separate programs. hw1 has an alignment helper (hw1/align_up.c), a sorting
-- program with a thread pool and an integer set over two balanced trees. hw2 has a mutex and a
-- condition variable over futexes (hw2/mutex.h, hw2/cond.h, hw2/futex.h), with programs that use
-- them. hw3 has a blocking queue and a work-stealing scheduler (hw3/work-steal.c), with a sorting
-- program on a variant of it.
--
-- Prelude: shared names; tests on numbers, lists, families of threads, remainders and `size_t`
-- arithmetic (Prelude/Mod), the bits of `&` (Prelude/Bits), signed integers (Prelude/Int).
--
-- WorkSteal/Deque: `deque_t` and `array_t` of hw3/work-steal.c with `init`, `resize`, `push`,
-- `take` and `steal`, run by one thread. Indices are `size_t`, with the wrap written out; arrays
-- live in a heap, since a resize leaks the old one. Window and Inv hold the lemmas on buffers and
-- the representation invariant, Spec the list that the deque stands for, Refine and Ends the
-- proofs.
--
-- WorkSteal/Race: the same functions under concurrency. The owner's places in `push` and `take` and
-- a thief's in `steal` are data, each access to a shared variable is a step, and steps interleave
-- in any order. Memory is sequentially consistent: the memory orders of the source are not
-- modelled. The source assumes that the indices never overflow; here that is the bound of 2^63 on
-- `bottom` at the start plus the number of steps, since a step raises `bottom` by one at most. A
-- resize allocates an array with any contents. Inv states what holds between steps, Memory what a
-- step does to the buffers, OwnerSteps and ThiefSteps that each step keeps it, Safety what follows.
--
-- WorkSteal/Join: `join_work` of hw3/work-steal.c, as the calls on one work item in their order.
--
-- WorkSteal/Scheduler: the rest of hw3/work-steal.c, from `main` to the return of the threads, as a
-- step relation of any number of threads. A deque is taken to be the list of its items here, with a
-- `take` or `steal` as one step that may also find nothing: an assumption, since WorkSteal/Race has
-- no refinement of the racing deque to such a list. Held counts where a task is, Ending the tasks
-- that `done_work` still waits for.
--
-- Mpmc/Nodes: the chain of nodes of hw3/mpmc.c, with `mpmc_queue_register` and `mpmc_find_cell`, an
-- access to the chain at a time. The allocator gives any address that is not in use. The tables of
-- handles, which only the reclamation of nodes reads, and the barriers are left out, and the `long`
-- ids and indices do not wrap. Chain has the invariant, Others, Growth, Moves and Arrivals the
-- steps, and SameCell compares the cells that calls return.
--
-- Mpmc: `mpmc_enqueue` and `mpmc_dequeue` of hw3/mpmc.c, an access at a time, for any number of
-- threads and with the spin count of the source. The cell of a ticket has the ticket's number;
-- values are not NULL and the indices do not wrap. The kernel's side of the futex is as for the
-- mutex. Cells has the phases that a ticket goes through and the invariant, Others what a step
-- leaves to the other threads, Quiet, Writes, Phases, Moves and Parking the steps, Delivery is
-- about what a dequeuer returns, Wakeups, Sleepers and Liveness about its sleep and wake-up.
--
-- Mutex: the default protocol of hw2/mutex.h and the condition variable of hw2/cond.h as a step
-- relation on the two words and the places of the threads, for any number of threads. The spin
-- counts are those of the source. The kernel's side of a futex is what the comments of hw2/futex.h
-- say: a wait sleeps only on the expected value, a wake-up wakes one sleeper, a requeue wakes one
-- and moves the rest; a sleeper may also return by itself. Exclusion and Wakeup hold the proofs.
--
-- PiMutex: the priority-inheritance functions of hw2/mutex.h in the same way, with the kernel's
-- part as futex(2) describes it: a call on a held mutex sets FUTEX_WAITERS and waits, and an unlock
-- hands the mutex to some waiting thread. Which one depends on priorities, which are not modelled.
-- `futex_lock_pi` is taken not to fail, since the source ignores its result.
--
-- Spinlock: hw2/spinlock.h in the same way, an access of a thread at a time.
--
-- STree: the tree of hw1/treeint/s_tree.c on a heap of nodes, a map from addresses for each field,
-- with 0 for NULL. The callbacks `cmp` and `create_node` are parameters; a node's key does not
-- change, so `cmp` reads no links. `st_update` and the loops of the searches run on fuel, and fuel
-- above the number of nodes plus one is enough. Hints are `short`: the theorems on insertion and
-- removal assume that the greatest hint plus the height of the tree plus 1 is below 2^15, and bound
-- the hints that result by that sum, so the bound grows with each further update. Shape says which
-- tree the links make up and where a subtree lies in it, Frame, Fields, Place and Rotate what a
-- rotation does to it, Climb, Rebalance, Round and Update follow `st_update` up to the root,
-- Search, Find, Attach, Put and Insert follow an insertion, Contract joins them. Destroy has
-- `st_destroy`, as the calls of `destroy_node` that it makes. Remove has `st_remove`, which returns
-- the node for `destroy_node`: Spine says which node takes the place, DetachRight and MovedRight
-- what the replacement writes, NearRight and Replace join the two for a child and for a deeper
-- node, SpineLeft, DetachLeft, MovedLeft, NearLeft and ReplaceLeft are the same on the other side,
-- Leaf has a node without children, Correct and Contract the whole.
--
-- IntTree: the set of integers of hw1/treeint/treeint_st.c over that tree, whose nodes have an
-- integer each. `calloc` is a parameter that gives the address of a new node. The comparison by
-- subtraction wraps around for integers far apart, so the theorems ask for less than 2^30 in
-- absolute value. Sets has the ascending lists that the sets are compared with, Keys what the order
-- of the nodes has to do with them, Contract the operations, Dump the printing, as the values that
-- it sends out, Rows the rows of a tree.
--
-- Qsort: `qsort_algo` of hw1/qsort-mt.c, which hw3/work-steal-qsort/src/main.c has too. Memory maps
-- element numbers to elements of any type, a pointer is an element number, and byte counts are
-- element counts. The `int` variables `d` and `r` of the source wrap to 32 bits, with the size of
-- an element as a parameter; the theorems are for arrays of fewer than 2^31 bytes (Fits). The
-- comparison is a parameter, taken to compare by keys; Numbers is about `num_compare`. Each nested
-- call has one unit of fuel less, and fuel above the number of elements is enough. Shuffle,
-- Exchange and Order are about memory, Insertion and Limited about the insertion sorts, Scan,
-- Loops, Partition, Gather and Pivot about the partition, Parts, Split and Correct about the
-- recursion, Lists about permutations; Pool has the parts that other threads sort, each call as one
-- step since the parts lie apart, and Contract joins them.
--
-- ThreadPool: `allocate_thread` and `qsort_thread` of hw1/qsort-mt.c after the first batch of
-- `qsort_mt`, as a step relation on the states of the threads and the count of idle ones; a section
-- under `mtx_al` is one step. Idle counts, Ending is about when the threads are told to terminate.
-- Setup is `qsort_mt`, as the calls that it makes for given answers of the system; with 0 threads
-- the source writes to `pool[0]` outside the pool, which is a call like the others here. Balance is
-- about what it acquires and releases, Sorting about the threads and who sorts.
--
-- AlignUp: `align_up` of hw1/align_up.c on 64-bit words.
--
-- Not modelled: hw1/treeint/rbtree.c and hw3/work-steal-qsort/include/list.h, which are copies of
-- Linux code; input and output, timing and thread creation; in hw1, the set over
-- hw1/treeint/rbtree.c, the benchmark of both sets (hw1/treeint/treeint.c), and the command line of
-- hw1/qsort-mt.c; in hw2, the choice of the protocol in `mutex_init` and the programs that use the
-- mutex; in hw3, the reclamation of nodes in hw3/mpmc.c, and the deque and the workers of
-- hw3/work-steal-qsort.
pub mod Prelude
pub mod STree
pub mod IntTree
pub mod Qsort
pub mod ThreadPool
pub mod WorkSteal
pub mod Mpmc
pub mod Mutex
pub mod PiMutex
pub mod Spinlock
pub mod AlignUp

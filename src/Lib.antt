-- ===== src/Lib.antt =====
-- Asst2: a user-level thread library with its own memory manager.
--
-- The program has three parts. my_pthread.c holds the thread library: ten run queues by
-- priority, a waiting queue for mutexes, a join queue, an exit list, and a scheduler that the
-- timer and the library's calls run. The same file holds the page allocator mymalloc and myfree.
-- mymemorymanager.c, which includes my_pthread.c, gives each thread pages of a block of 8 MB,
-- each thread from frame 0 on, and swaps them with those of other threads and with a file; it
-- takes headers and free space of a page from the page allocator. The two parts meet in
-- mem_flag: while it is set the scheduler does not switch. The library takes its own blocks by
-- requests of kind LIBRARYREQ, which move a handle in the OS region.
--
--   Base, Base/Lists     numbers, Boolean tests, option, lists: what all parts share
--   Types                the structs of my_pthread_t.h and mymemorymanager.h
--   Queue                enqueuee, dequeuee and get_specific_count of my_pthread.c on linked nodes,
--                        and their refinement to lists
--   Malloc               mymalloc, myfree and free_mem_count of my_pthread.c; below it the
--                        allocator over lists of blocks (Spec), the refinement (Refine, Correct),
--                        payloads (Payloads, Serve, Among), frees (Merge, Adjacent, Free, RoundTrip), the
--                        first request of a region (First, Whole), what the calls read and write (Local,
--                        Writes, Frees, Given, Fresh), and mymalloc.c, which has mymalloc and myfree
--                        once more (Standalone), with the proof that both do the same (Agree)
--   Memory               the globals of mymemorymanager.c; below it swap_pages, swap_handler and
--                        lock_mem (Swap; Exchange, Pages and File for swap_pages, Fault for the
--                        handler, Offset for the casts to int), the parts of myallocate (Library, Page, Chunk, Sizes, Allocate),
--                        shalloc (Allocate) and mydeallocate (Release), and the first request of a
--                        thread from end to end (FirstPage, FirstRequest, FirstFree), and the
--                        links of a later chunk (Linked, Lost)
--                        The pages of all threads at once: what they hold and where they stand
--                        (World), a page that is brought to the frame of its index (Bring, Brought,
--                        Own, Load, Store, InPage), the search through the pages of a thread (Search,
--                        SearchAll), a new page (Clear, NewPage, NewLinks, Grow, Extend), and the
--                        calls from end to end: myallocate (Answer, Requests, NewThread, Setup) and
--                        mydeallocate (Find, Returns). Runs of these calls by all threads are in Calls,
--                        with an account of what each thread has (Owned, Accounts, Serving, Releasing, Runs).
--   Threads              the globals of my_pthread.c; below it updateQueue, scheduler,
--                        timer_triggered and my_pthread_yield (Scheduler), createScheduler and
--                        my_pthread_create (Create), my_pthread_exit and my_pthread_join (Join), the
--                        mutex operations (Mutexes), and what holds of them: the invariant of a
--                        running machine (Invariant, Parked, Waking, Frame), the scheduler
--                        (Dispatch, Maintain, Choice, Progress, Rests), creation (Served, First, Region,
--                        Prepare, Begin, Later), the other calls (Blocking, Joining, Joiners, Exit, Gone, Locks,
--                        Unlock, Stuck, Deadlock), and runs of calls (System, Goes, Steps, Program)
--
-- A function of the source goes by its own name, in lower case: update_queue is updateQueue,
-- mutex_lock is my_pthread_mutex_lock. State is passed as a record, and `none` is a fault of the
-- machine (an access at NULL or out of an array) or fuel that ran out. An `int` is its 32-bit
-- pattern, and arithmetic that can wrap has its `% 2 ^ 32` or `% 2 ^ 64` written out; an address
-- is a number, NULL is 0. A call that does not return (setcontext, swapcontext) is an outcome of
-- the scheduler.
--
-- Fuel: the walks of the page allocator take any fuel above the number of headers, and the
-- memory manager gives them 2 ^ 18, more than the 204288 headers of 32 bytes that its 1596
-- frames can hold; walks through the pages of a thread take 2 ^ 13, more than the 5692 pages
-- that there are. The loop of my_pthread_exit takes the length of the join queue.
--
-- The runs of Memory/Calls start when the block is set up (Setup gives such a state), with the page
-- metas that memory will hold cleared, as the code takes front_meta of a new page from there. They
-- stay below 1596 pages, so that no page goes to the swap file, and have no request of more than
-- 4064 bytes; chunks and the file are in Chunk, Lost, Swap and File.
--
-- The runs of Threads/System are of calls of the thread library by whichever thread is current,
-- from any state in which a thread runs. A create, and an exit, which asks for an exit node, must leave
-- the handle of the OS region inside the 8 MB of the block: README.md sets a limit of 33 threads, and
-- bump itself tests no end. my_pthread_mutex_lock is taken up to the switch to another thread, one
-- round of its loop; the next round is a call of its own, when the thread runs again.
-- The signed comparison of page_counter with 1597 is taken of its pattern: the counter grows by one
-- a page, and the tests against 5692 in myallocate keep it below 2 ^ 31, where the two agree.
--
-- Parameters (`Platform`): the address that memalign gives, whether sigaction and setitimer
-- succeed, the size of ucontext_t. Not modelled: the bytes that users store in their blocks, the
-- registers and stacks of contexts, output, a timer that interrupts the library between two
-- statements while mem_flag is 0, printAll, test.c and the directory Asst2 (a copy of the
-- sources).
pub mod Base
pub mod Types
pub mod Queue
pub mod Malloc
pub mod Memory
pub mod Threads

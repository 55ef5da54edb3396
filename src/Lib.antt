-- ===== src/Lib.antt =====
-- The programs of CS444, Operating Systems II: a slab allocator, an I/O scheduler and an
-- encrypted RAM disk for the Linux kernel, a program that measures the allocator, and four
-- exercises on concurrency.
--
-- The fragmentation test makes the allocator's system calls; the other parts do not call each
-- other. Inside the kernel, the scheduler takes its data from `kmalloc`, which is the allocator's
-- front, and a disk such as the RAM disk stands behind a scheduler; those links are parameters
-- here.
--
-- * CS444_project4_46/slob.c, the SLOB allocator with the best-fit search: Slob.antt and Slob/.
--   - Block: the units of a page and how a free block is written in them (`set_slob`,
--     `slob_units`, `slob_next`, `slob_last`). Memory is a function from unit addresses to 16-bit
--     signed numbers, a unit is 2 bytes and a page 4096 bytes, so that page `p` is the 2048 units
--     from `2048 p` on.
--   - State: `struct page` as far as the allocator uses it, the three lists of partly free pages,
--     and the pages given back to the kernel. A list is the list of its page numbers.
--   - PageAlloc: `slob_page_alloc`, FirstFit its branch that is turned off; Free: `slob_free`;
--     Alloc: `slob_alloc`; Kmalloc: `__do_kmalloc_node`, `kfree`; Cache: the `kmem_cache`
--     functions, with RCU's callbacks as a list; Amounts: the two system calls that sum up free
--     and total memory.
--   - Kmalloc.User: a user of `kmalloc` and `kfree`, which is a client of `slob_alloc` and
--     `slob_free` with a header in front of each block (Header, Served, After, Promise).
--   - Threads: the interleavings of threads in `slob_alloc` and `slob_free`. `slob_alloc` gives
--     `slob_lock` back between its search of the lists and its new page, so that others allocate
--     and free in between; what holds the lock is one step. Sound, Safe and Tight are about the
--     states that they can come to.
--   - Client: a client that allocates, writes to its blocks and frees them, as a step relation
--     over `slob_alloc` and `slob_free`; it says what the two promise together.
--   - Segment, Cover and Heap are the vocabulary of the theorems: the free list of a page as a
--     sequence of blocks in ascending order that do not touch, the units such a list covers, and
--     the invariant of the whole allocator.
--   The kernel's list functions are those on lists; `alloc_pages`, `get_order`, `compound_order`
--   and the least alignment are parameters, and interrupts and tracing are left out. The loops
--   over a page's free blocks have fuel 2048: a page of 2048 units holds at most 1024 blocks that
--   do not touch, and the theorems on `slob_page_alloc` and `slob_free` show that the loops end.
-- * CS444_project4_46/Frag_Test/frag_test.c, the fragmentation test: FragTest.antt and FragTest/.
--   Its two system calls are those of Slob/Amounts.antt, at the allocator that is there when they
--   are made; a sequence of allocators is a parameter, so are `atoi` and the operations on
--   `float`. Its output is the line with the number of tests and the rounds, or the usage. The loop has fuel 2^32, more than the rounds of any argument.
-- * CS444_project2_46/sstf-iosched.c, the scheduler: Sstf.antt and Sstf/. A queue is the list of
--   its requests, a request has an id for its address and a sector. Distances are cut to 32 bits
--   as the `unsigned int`s of the code are. `elv_dispatch_sort` is a log of what is handed over.
--   The block layer calls the functions by the table `elevator_sstf`.
-- * CS444_project3_46/brdd.c, the RAM disk: Brdd.antt and Brdd/. Disk and buffer are functions
--   from offsets to bytes; the width of an `unsigned long`, the parameters of the module and the
--   cipher are parameters, and Cipher.antt states what a block cipher promises. The loop over
--   blocks has one more round of fuel than there are bytes, which is enough for a cipher with
--   blocks of at least one byte. Requests.antt has the request function over a queue of requests
--   with their segments, and Serving.antt that it ends; Bounds.antt is about the size of the
--   disk; Module.antt has loading, unloading and the geometry, with the size, the capacity and
--   the major number that a load sets, and Loading.antt what a load and an unload leave. What is
--   read of a request after `__blk_end_request_all` is a parameter.
-- * Concurrency2/concurrency2.c, the dining philosophers: Dining.antt and Dining/. A step
--   relation for any number of philosophers; the steps lie between the calls on the forks'
--   mutexes. Progress is about who can go on, and Eats about who can come to eat.
-- * Concurrency3/prob1_conc3.c, a resource shared by three threads: Sharing.antt and Sharing/. A
--   step relation for any number of threads, with the two semaphores as counts. Counted and Limit
--   are about how many threads use the resource, Blocked about those that wait.
-- * Concurrency3/prob2_conc3.c, searchers, inserters and deleters: SharedList.antt and
--   SharedList/. A step relation for any number of threads over the five semaphores, the two
--   counters and the list in memory (Store.antt), which goes from one access to the list to the
--   next. Chain.antt says how memory holds a list; Append.antt and Delete.antt are about `insert`
--   and `delete` on such a list, where the loop of `delete` has one round of fuel more than the
--   list has nodes (Remove.antt is about one node); Count, Locks, Exclusion, Ready and Progress
--   are about the semaphores, and Races is about threads that are at the list together.
-- * Concurrency1/concurrency.c and its copy CS444_project1_46/concurrency.c, producers and
--   consumers: Buffer.antt and Buffer/. What a thread does while it holds the mutex is one round,
--   a function; the specification is a bounded stack (Stack.antt). Threads.antt is a step
--   relation, from one use of the mutex or the buffer to the next; Inside and Linear are about
--   its rounds and those functions, AtRest and Served are about what the threads can still come to.
--   Rdrand.antt is about the random numbers.
--
-- Prelude.antt passes on the library's names, with Boolean tests, lists, integers and bit masks over
-- the native numbers in Prelude/, where Sums.antt counts the threads that stand somewhere.
--
-- Not modelled: the functions of slob.c that only return 0 or set a state of the kernel's
-- (`kmem_cache_init` and the like), the `main` functions that create and join threads, what the
-- programs print and how long they sleep (but for frag_test.c, whose output is its purpose), and
-- the random numbers of CS444_project1_46/mt19937ar.c, which are another project's.
pub mod Prelude
pub mod Slob
pub mod Sstf
pub mod Dining
pub mod Brdd
pub mod Sharing
pub mod Buffer
pub mod SharedList
pub mod FragTest

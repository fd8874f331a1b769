-- ===== src/Lib.antt =====
-- Verification of the lab programs in C: the cache simulator and the transposes of cachelab, the
-- shell of shelllab, the puzzles of datalab, the buffer, the cache and the requests of
-- proxylab, and the allocator of malloclab with its memory and its driver.
--
-- Parts, and the files that model them:
--   Common      names of the library that all files share, Boolean tests and `>>=` (Common/Tests),
--               lists with native indices (Common/Lists), bit operators (Common/Bits), C's `for`
--               loop on fuel (Common/Loop).
--   Csim        cachelab/csim.c. `Sim` is the global state, `access_cache` one access: `probe` is
--               its first loop, `age` its second, `finish` the eviction at the end. `replay` is the
--               loop of `main` over the lines of a trace, and `start` the sets that `main` allocates
--               from a memory whose contents are an argument.
--   Trans       cachelab/trans.c and `correctTrans` of cachelab/cachelab.c. A matrix is a function
--               of two indices; `load` and `store` fail outside the bounds, so that a transpose
--               that returns made no access out of range.
--   Tsh.Jobs    shelllab/tsh.c, the job list: `JobList` is `jobs` with `nextjid`.
--   Tsh.Parseline  shelllab/tsh.c, `parseline`, with writes outside its arrays as the result `none`:
--               the copy of the command line has MAXLINE bytes, and `argv` MAXARGS pointers.
--   Tsh.Shell   shelllab/tsh.c, `eval`, the built-in commands and the signal handlers. They read and
--               change the job list through the operations of Tsh.Jobs, and `eval` starts from
--               `parseline`. Tsh.Shell.System is the step relation of the shell among commands,
--               the end of a wait, and children that change state. SIGCHLD is not blocked in
--               `do_bgfg`, so the writes to a job's state at its end are steps of their own, which
--               other children can come before; that the very job is reaped there is left out.
--   Datalab     datalab/bits.c. An int or unsigned is its 32-bit pattern, and C's operators are
--               operators on patterns.
--   Proxy.Buffer  proxylab/proxy.c, `produce` and `consume`: the steps between which another thread
--               can run, with a count of the threads at each point.
--   Proxy.Store proxylab/proxy.c, `cache_init`, `find_cache_hit`, `write_cache`, and the bytes that
--               `doit` sends on a hit. Its operations run one at a time. A text or a URL that is too
--               long for the arrays of a line is the result `none` of `write_cache`.
--   Proxy.Locks proxylab/proxy.c, the semaphores of the cache in `doit` and `write_cache`, as steps
--               between which another thread can run.
--   Proxy.Request  proxylab/proxy.c, `parse_url`, and `construct_message` on the lines that the client
--               sends. A C string is the list of its bytes. A string of MAXLINE bytes or more in
--               `url_storage`, and a port that is not an `int`, are the result `none`.
--   Proxy.Doit  proxylab/proxy.c, `doit` and `raise_error`, on the lines that the client and the server
--               send; it calls the functions of Proxy.Request and Proxy.Store.
--   Malloc.Memlib  malloclab/memlib.c, the heap that `mem_sbrk` extends.
--   Malloc.Ranges  malloclab/mdriver.c, `add_range` and `remove_range`, which check that the blocks
--               of an allocator lie in the heap of Malloc.Memlib and do not overlap.
--   Malloc.Word  the words of the memory that malloclab/mm.c works on, and commands that read and
--               write them: a fault is an access outside the memory of Malloc.Memlib.
--   Malloc.Mm   malloclab/mm.c: blocks, the list of the free ones, `split_block`, `find_fit` and
--               `coalesce`. Ring has chains of links; Lists the list as a list of addresses; Fit,
--               Tags, Split, Take and Merge what the operations do to headers, footers and list.
--   Malloc.Mm.Requests  malloclab/mm.c, `expand_heap`, `mm_init`, `mm_malloc`, `mm_free` and
--               `mm_realloc`, from the operations of Malloc.Mm and `mem_sbrk`. Growth and Init are
--               about `mm_init`, Allocate and Renewal about `mm_malloc`, Release, Join and Between
--               about `mm_free`, and Resize about `mm_realloc`.
--   Malloc.Mm.Heap  the whole heap of malloclab/mm.c: `Tiles` are the blocks that lie side by side, and
--               `Heap` says what holds of them, of the words around them and of the list. Tiles and
--               Listed have lemmas, Replace, Served and Freed the change of some blocks; Init, Allocate and
--               Free (with Release, Join and Sides) are about `mm_init`, `mm_malloc` and
--               `mm_free`, Extend about `mm_malloc` without a free
--               block, and Order about many calls of `mm_free`.
--   Malloc.Driver  malloclab/mdriver.c, the replay of a trace against an allocator, which is an
--               argument with the interface `Allocator`; it checks blocks by Malloc.Ranges.
--               Malloc.Driver.Trace is `read_trace`, from the tokens of a trace file.
--   Malloc.Fcyc malloclab/fcyc.c, the K-best sampling of running times: `sample` is the loop of `fcyc`,
--               and the times are an argument.
--
-- Bounds and fuel. Numbers of a fixed width keep their `% 2 ^ w`; the counters of csim.c, pids,
-- job IDs, and the times and indices of proxy.c are natural numbers, with no overflow: the ring of
-- connections of proxy.c is that of the C code for fewer than 2 ^ 31 of them. The sets of csim.c are
-- 2 ^ s, as `1 << s` is for s below 31. `for_loop`
-- runs on at most as many rounds as the loop's range has numbers, which is enough as each round
-- adds one at least. `split_args` has one round for each byte left and one more, and each round
-- takes a byte. The loops of mm.c along the list of free blocks have `rounds` rounds; one more than the
-- list has blocks is enough for the search. The loop of `fcyc` has
-- `rounds` rounds, and maxsamples of them, or one, are enough.
--
-- Not modelled: what the programs print, command-line options and files; `fork`, `kill` and
-- `waitpid` are arguments that stand for the kernel's answers. The child's side of `eval` leaves
-- the shell. `atoi` has no overflow. Of proxy.c, sockets and
-- threads are left out; of mdriver.c, options, timing and prints; of fcyc.c, the flush of the cache. The
-- timers of malloclab (clock.c, ftimer.c, fsecs.c), the other labs (bomblab, attacklab), the web server tiny and
-- the handout's own drivers are not part of this library. csapp.c is the textbook's library.
pub mod Common
pub mod Csim
pub mod Trans
pub mod Datalab
pub mod Tsh
pub mod Proxy
pub mod Malloc

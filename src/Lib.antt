-- ===== src/Lib.antt =====
-- kvm-unit-tests: the C library of the tests.
--
-- The library runs on the bare processor of a virtual machine. A test is started with the early
-- allocator of physical memory (lib/alloc_phys.c), from which the page allocator (lib/alloc_page.c)
-- takes its areas; the text functions (lib/string.c, lib/ctype.h, lib/util.c) serve the parsing of
-- arguments and everything that prints; the results of a test go to lib/report.c, whose exit status
-- the host reads.
--
-- Base: types, Boolean tests, lists on native numbers, the results of a run, and machine words. A
--   run ends in `ok`, in `fault` (an access outside an object or an undefined shift) or in `aborted`
--   (a failed assertion).
-- Ctype: lib/ctype.h.
-- CString: lib/string.c, the functions on NUL-terminated texts, under the names of the source (Getenv
--   is getenv, Glob is simple_glob). A pointer into an object is the list of the bytes from it to the
--   object's end.
-- Memory: lib/string.c, memset, memcpy and memmove; the bytes of one object, and offsets.
-- Strtol: lib/string.c, __strtoll (`strtoll_impl`) and its callers; lib/util.c, parse_keyval. Digits
--   and Parse are about the digits and blanks that the code tests for, Spelled about 0 to 9 and a to z.
-- Bitops: lib/bitops.h, for a `long` of 64 bits.
-- PhysAlloc: lib/alloc_phys.c. `init` is phys_alloc_init, `aligned_safe` is phys_alloc_aligned_safe,
--   and the other operations have the source's names without phys_alloc_.
-- PageAlloc: lib/alloc_page.c on x86-64. Block is split and coalesce; Take the allocation, with
--   page_memalign_order and page_memalign_order_flags; Free is _free_pages (`free_block`) and
--   free_pages; Reserve is reserve_pages and unreserve_pages; Setup is page_alloc_init_area. An area
--   holds its free lists as the sequences of the frames of the blocks on them, and its table of page
--   states as a function. IsWellFormed says that every listed block is aligned, lies in the area and
--   has pages whose states agree with the order of its list. Split, Halves and Keeps are about split,
--   Alloc, Fresh and Again about allocation, Freed about freeing, Carve and Areas about new areas.
-- Paging: lib/x86/vm.c on x86-64. The memory is the words of each frame, with the frames that
--   alloc_page will return. Label gives each table its level and its prefix of the virtual addresses;
--   Fresh is about a new table, Leaf about the last entry, Clear about large pages, Installed and Install about the loop of
--   install_pte, Translate about install_page.
-- Vmalloc: lib/vmalloc.c, over the page allocator and the page tables as an interface (`VmOps`), whose
--   laws Laws lists. Pages is about the virtual addresses, Laws about the loops, Free about vm_memalign
--   and vm_free; Ready and Tables fill the interface with Paging, where a freed frame is the next given
--   out.
-- OnCpus: lib/on-cpus.c, processors that post work to one processor, as a relation of steps on the
--   memory they share. Invariant, Steps, Writes and Reached are about the lock and the idle bit, Order
--   about what is run, Served about the return of on_cpu, Progress about steps that are left.
-- Heap: lib/alloc.c. The table of operations is a record over the state of an allocator, which
--   lib/alloc_phys.c and lib/alloc_page.c fill.
-- Argv: lib/argv.c. Words is the command line, Env the environment.
-- MemRegions: lib/memregions.c. Find is the lookup by address, Split the split of a region. The
--   registers of the device tree and the EFI memory map are arguments.
-- Rand: lib/rand.c. Stream is the sequence of the words that prng32 returns
--   after prng_init; two known hashes of SHA-256 are among the tests.
-- Printf: lib/printf.c. A stream is the bytes before p->buffer and those from it to the end of the
--   object. Number is print_int and print_unsigned, Wide the texts of 16-bit units, Format vsnprintf,
--   whose arguments are a list of words and texts, and Binary binstr. Stream, Bounds, Writers and Args
--   show that a function writes one text whatever the stream, Truncate that vsnprintf does; Digits and
--   Reverse are about the digits in the local array, Shown about the texts of numbers, Read about
--   reading them back.
-- Report: lib/report.c. The counters and the text of the prefixes; Prefix reads the text as a stack
--   of labels, Summary is about the exit status of a whole run.
-- Tests: runs on concrete inputs.
--
-- Fuel: merge_loop of PageAlloc has a round for each order, since the order grows with every merge;
-- isolate_loop has one for each value that a state can fall through; carve_loop one for each page;
-- pop_loop of Report, setup_loop, env_next and setup_env_loop of Argv one for each character, since a
-- round takes at least one; wstring_loop of Printf one for each unit; number_loop one for each bit of
-- the number; zeros_loop one more than the array has room for; prng32_loop has two, since a scramble makes eight words. The other loops
-- are structural.
--
-- Left out: the output of the characters to a device, locks (one processor runs, but in OnCpus), the
-- start of paging, the masks of processors and migration, the device tree and the vendored lib/libfdt,
-- PCI and virtio, ACPI and EFI, the libraries of the architectures (assembly and device registers),
-- and the tests themselves, which run instructions of the processor under test.
pub mod Base
pub mod Ctype
pub mod CString
pub mod Memory
pub mod Strtol
pub mod Printf
pub mod Paging
pub mod PhysAlloc
pub mod Bitops
pub mod PageAlloc
pub mod Heap
pub mod Report
pub mod MemRegions
pub mod Rand
pub mod Argv
pub mod OnCpus
pub mod Vmalloc
pub mod Tests

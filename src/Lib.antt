-- ===== src/Lib.antt =====
-- The C runtime of the MLKit unikernel, on which programs that are compiled with region inference run:
-- the region allocator, the primitives on strings, lists and tables that allocate in it, the primitives on
-- integers and doubles, the handling of uncaught exceptions, and the network interface. The Xen runtime
-- (XenRuntimeMini/src/RuntimeMini) is the one that is modelled; the Unix runtime
-- (UnixRuntimeMini/src/RuntimeMini) shares most of its code and differs where it reports errors and where a
-- program starts and ends, and those functions are modelled too.
--
-- A compiled program calls the runtime by address: it puts a region descriptor on its stack
-- (allocateRegion), allocates words in a region (alloc), resets a region (resetRegion) and takes the top
-- region, or all down to an address, off the stack (deallocateRegion, deallocateRegionsUntil). A region
-- is a chain of pages of 8192 bytes and a list of large objects; the pages come from a free list that
-- callSbrk fills with chunks from malloc. The string, list and table primitives call alloc, then write
-- words and characters. The integer primitives keep no state; they raise exceptions of the program. A
-- program receives a packet as a string and sends a list of bytes (Libs/netiflib): on Xen the packets wait
-- in a ring that the driver's thread fills.
--
--   State    the memory and the commands over it. A command takes the state and gives a value and the
--            next state, or says that the program has gone through NULL, has called die, or has run out
--            of fuel.
--   Region   XenRuntimeMini/src/RuntimeMini/Region.c, with the macros of Region.h in Region/Layout. A
--            command has the name of the C function: callSbrk is call_sbrk, alloc_new_page and
--            allocGen (alloc_gen), and so on. Region/View relates the memory to the stack of regions, each
--            with its pages and large objects (Inv); the other children prove what the commands do to it.
--            Region/Programs has the sequences of calls that a compiled program makes, and the objects
--            that it holds (Block): a judgement says which sequences are bracketed, and Ready is what the
--            memory and the objects satisfy between two calls; Region/Supply says which chunks malloc must
--            have ready for the pages that it takes. Strings/Live and CharLists/Explode put
--            primitives on top of it.
--   Math     the integer part of XenRuntimeMini/src/RuntimeMini/Math.c, written for a width and used at 32
--            and 64 bits. Base/Int has the integers and their division.
--   Strings  XenRuntimeMini/src/RuntimeMini/String.c: allocStringML is alloc_string_ml, concatStringML is
--            concat_string_ml, and so on. A string is a word with the tagged size and its characters; the
--            primitives call Region's alloc and reset_region; Region/Frame is about what alloc does not
--            write.
--   CStrings convertStringToC and convertStringToML of the same file, convertStringToC of
--            UnixRuntimeMini/src/RuntimeMini/String.c (convert_string_to_c_or_raise), and mkSMLMinus and
--            countChar of Math.c.
--   CharLists implodeCharsML, implodeStringML and exnNameML of String.c, on the lists of List.h, and what
--            explodeStringML (explode_string_ml of Strings) makes.
--   Table    XenRuntimeMini/src/RuntimeMini/Table.c, over the same alloc.
--   Floats   the floating-point part of Math.c. A double is its 64-bit word; Floats/Value says which number
--            it stands for, as a whole number of units of 2^-1074. The functions of the C library on
--            doubles are a parameter (Libm); floorFloat, truncFloat and ceilFloat are written out, since
--            they use comparisons and casts only. Floats/Print has stringOfFloat and
--            generalStringOfFloat, Floats/Bytes a double as a string of its bytes.
--   Rounding floatSetRoundingMode and floatGetRoundingMode of both runtimes' Math.c; fenv.h is a parameter.
--   Runtime  main, the uncaught exceptions and the tags in pointers, XenRuntimeMini/src/RuntimeMini/Runtime.c.
--   CommandLine  UnixRuntimeMini/src/RuntimeMini/CommandLine.c. CommandLine/Args is about the list of
--            arguments, over the allocations of Region/Programs/Fresh.
--   UnixRegion  callSbrk of UnixRuntimeMini/src/RuntimeMini/Region.c and what reaches it.
--   Netif    Libs/netiflib/netif-miniOS.c: the ring of packets (Netif/Queue), Receive and Send, and the two
--            threads with their semaphore as a step relation (Netif/Threads).
--   UnixRuntime  UnixRuntimeMini/src/RuntimeMini/Runtime.c: the stack limit, the start and the ends of a
--            program on Unix; and stringOfFloat of its Math.c.
--   Tap      Libs/netiflib/netif-tuntap.c: Receive and Send, over one read and one write, and the system
--            calls that open and set up the interface (Tap/Device, Tap/Opening).
--   Base     what the modules share: tests on numbers, lists, bits and integers. Example is the memory
--            that the tests use.
--
-- Numbers: addresses and words are natural numbers, and the invariant keeps the addresses of pages,
-- regions and objects apart; the masks are taken in 64 bits. The sizes that alloc_lobjs computes wrap as
-- in C. A signed result that leaves its width is undefined.
--
-- Fuel: a loop along a chain takes fuel for its steps, and the theorems ask for at least as many as the
-- chain is long (pages of a region, large objects, regions on the stack, the characters of a C string and
-- its 0, the cells of a list and its end), or fix the count where the source does (the pages of a chunk).
--
-- The objects in regions are words and characters in maps of their own, so that a write to an object never
-- reaches the descriptors, pages and headers that the allocator keeps; a size field and the characters of
-- a string do not overlap either.
--
-- A buffer on the C stack is an address: nothing keeps a write inside of it, and what lies behind it is
-- written, as in C.
--
-- Not modelled: what malloc does inside (it is a parameter, which returns NULL or a fresh block); strlen
-- and the functions of the C library on doubles (parameters); the printing helpers; the libraries of
-- mini-os and its network driver, of which only the calls of netif_rx and the semaphore are seen; die and
-- die2, which print and loop for ever, on Unix exit with -1; and the functions of the Unix runtime that
-- have the same text as on Xen.
pub mod Base
pub mod CStrings
pub mod CharLists
pub mod CommandLine
pub mod Example
pub mod Floats
pub mod Math
pub mod Netif
pub mod Region
pub mod Rounding
pub mod Runtime
pub mod State
pub mod Strings
pub mod Table
pub mod Tap
pub mod UnixRegion
pub mod UnixRuntime

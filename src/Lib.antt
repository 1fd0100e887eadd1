-- ===== src/Lib.antt =====
-- TaskLunev: a collection of systems-programming exercises in C and C++. This library models the
-- parts below as functions and step relations over explicit state, and proves what they do.
--
-- Files that every part uses:
-- - Base: the shared names, Boolean tests, C arrays as lists with native indices, and signed
--   lengths (Base/Compare, Base/Lists, Base/Order, Base/Int).
-- - Bits: the bits of a number, and how |, &, ~, << and >> act on them at every width.
-- - Memory: the bytes of one allocation, with little-endian words at any offset; what a C
--   function hands back (Reply: a normal return, a return of -1 or NULL with the errno that was
--   set, or a fault, which is undefined behaviour: an access outside the allocation or a shift
--   by the width of the type or more). Memory/Bits reads memory as a row of bits; Memory/Words
--   has the rule for a rewriting of a part of it.
--
-- BinArray/BinArray.c, a packed bit array:
-- - BinArray: struct bin_array, the sizes and the checks of arguments (baCheckPtr,
--   baCheckCalcArg), and the invariant IsValid of a live array: a buffer of whole quadwords, at
--   least one bit, fewer than 2^63 bits, as ssize_t needs for the length that -1 stands for.
-- - BinArray/Check: what the checks accept, and Becomes, the form in which an operation that
--   returns an array is specified.
-- - BinArray/Access: baGetValue, baSetOne, baSetZero, baSetValue.
-- - BinArray/Create: baCreate, baResize, baDestroy, baGetClone over a parameter Allocator, which
--   says which sizes calloc and realloc grant and what a grown block shows.
-- - BinArray/Mask, BinArray/Fill: the masks, baFillOne, baFillZero, baFillOneFull,
--   baFillZeroFull.
-- - BinArray/Find: baFind, baFindOne, baFindZero; the two searches share one body whose three
--   parameters are what differs in the source. i is a uint32_t, so the theorems bound the size
--   by 2^32.
-- - BinArray/SubArray: baGetSubArray, whose three loops over words are one definition with the
--   width and the stride as parameters; BinArray/SubArray/Laws: what a word copies;
--   BinArray/SubArray/Whole: the result; BinArray/SubArray/Overflow: the lengths for which a
--   word does not fit; BinArray/SubArray/Dump: baDumpBuf.
-- - BinArray/Complement: baGetInvert. BinArray/Visit: baForeach with any callback, print_byte,
--   bprint and baDumpBufFull, with what they print as a list of characters.
-- - BinArray/Wrapper: the class binarray of BinArray/wrapper/BinArray.cpp; Result is a return,
--   an exception or undefined behaviour. The operators take their operands as two objects, and
--   the result is built in place, without a move.
-- - BinArray/Invert: baInvert. looped is the number of quadwords that its loop covers.
-- In BinArray a null pointer is none. An operation takes the array before and gives the array
-- after; on an error nothing was written. Loops are recursions on the rounds that are left, so
-- none needs fuel. The host is a little-endian 64-bit machine, as the comments of the source
-- say.
--
-- Proxy/CircBuffer.cpp, a buffer of bytes with a contiguous place for a writer and for a reader:
-- - CircBuffer: struct CircBuffer with m_reader as an offset into m_buf, and every function;
--   Outcome is a return, an exception of MYASSERT or undefined behaviour.
-- - CircBuffer/Laws: the buffer in a state that holds bytes, with the reader anywhere in it.
-- - CircBuffer/Client: a program that uses the buffer through its functions only, and the
--   bounded queue that is its contract (CircBuffer/Client/Queue).
-- calloc is that of the parameter Allocator. No loop is involved.
--
-- Signal/wrrd.cpp, a file sent bit by bit with SIGUSR1 and SIGUSR2:
-- - Signal: writer, reader and the pending signals as a step relation. A step of the reader runs
--   from its sigsuspend over the confirmation to the next one, or is the write of a whole byte,
--   which comes behind the eighth confirmation; a step of the writer runs to its next sigsuspend
--   or the next bit. The file is the bytes that read returns, one call after the other. Any
--   pending signal may be delivered, and SIGALRM may come whenever the writer waits.
-- - Signal/Bits: bytes as rows of bits. Signal/Moves: what one signal does to the bits.
--   Signal/Order: the invariant. Signal/Transfer: what follows for the output.
-- - Not modelled: sigaction, sigprocmask, and the exits where a system call fails.
--
-- Proxy/LocalProxy.cpp, a chain of processes behind a proxy:
-- - Proxy: the sizes and places of the buffers that StartProxy makes (CalcSizeBuf and the two
--   loops), with the int that may overflow; Proxy/Layout: how the places tile the allocation.
-- - Proxy/Relay: the loops of SendFile, StartFirstClient and StartClient as a step relation over
--   the pipes and the buffers of the channels. Each step is one splice or the work of the server
--   for one ready descriptor; the conditions under which poll reports a descriptor stand as
--   premises. Every pipe has the same size, which a run fixes, and what goes into one finds room
--   there. A client that has failed takes no further step, and the bytes in the pipes around it
--   stay where they are. The loop that writes to a client (write_pieces) runs over what write
--   answers. A size is a number without a bound, where the source has a long. Proxy/Relay/Order:
--   the order of the bytes in the channels. Proxy/Relay/Transfer: the invariant, and the output.
--   Proxy/Relay/Stall: an output that takes less than it is given.
-- - Proxy/Control: the events that are polled, the write of the name, VerifierProxy, SetFlag,
--   RemoveFlag and CloseProxy.
-- - Not modelled: how StartProxy makes the pipes and the processes, and DumpProxy. POLLOUT is
--   taken to be reported for the descriptors of the clients only; what channels[-1] holds
--   decides the events of the first one and is a parameter of poll_events.
--
-- HPC_Integral/lib/cpu_topology.c, the processors of the machine:
-- - CpuTopology: the structure, cputopSortUniqSetsCoreId over a parameter Sorter for qsort,
--   cputopGetNumCoreCPU, cputopGetNumLogicCPU, cputopGetLogicCpuId. The outer loop of the sort
--   runs on rounds, of which one more than there are processors is enough where no core is
--   negative.
-- - CpuTopology/Online: cputopInit over the texts of the system's files (Sysfs): strtok, strchr
--   and atoi as the source uses them, _cputopFillLogicCPU, _cputopFillCoreCPU.
--   CpuTopology/Online/Digits and CpuTopology/Online/Ranges: the decimal numbers and ranges that
--   these texts hold.
-- - CpuTopology/Sets, CpuTopology/Laws: the loops of the sort. CpuTopology/Nested: the sets of
--   the sort. CpuTopology/Cores: the count of the cores.
-- - Not modelled: the reading of the files and cputopDump.
--
-- HPC_Integral/lib/hpc.c, an integral computed by threads:
-- - HpcIntegral: the loop of a thread, and _distributeAttrThreads over the structure of
--   CpuTopology. The numbers of the machine (Reals, with the Doubles of HpcNet) and the answers
--   of the calls for threads and memory (Threads) are parameters. A run (Run) is the list of its
--   calls for threads and attributes with what it returns; NAN is a failure, and none says that
--   it never returns. The loop of a thread runs on rounds, of which one more than it has points
--   is enough.
-- - HpcIntegral/Parallel: _integral and _integral_linear. A thread has no effect but its own
--   result, so that each is computed where it is joined. HpcIntegral/Entry: hpcIntegral from the
--   check of its argument over cputopInit and cputopSortUniqSetsCoreId to the result,
--   hpcSimpleIntegral and hpcSetPolicy.
-- - HpcIntegral/Loop: the points of a thread. HpcIntegral/Placement: the processors of the
--   threads. HpcIntegral/Same: _integral_linear, _integral and hpcSimpleIntegral compared.
--   HpcIntegral/Released, HpcIntegral/Failed and HpcIntegral/Linear: what a run leaves behind.
--   HpcIntegral/Machine: hpcIntegral as a whole.
-- - Not modelled: the checks that only a DEBUG build has, the variant for VECT_CALC, which hpc.h
--   turns off, _printPolicy, and the older hpc_new.c. cputopDestroy and _destroyAttrThread are
--   given pointers that are not null, so their failures do not occur.
--
-- FWRonSemShm/wrrd.cpp, a file sent block by block through shared memory under two semaphores:
-- - ShmTransfer: writer and reader behind the handshake as a step relation over the block, the
--   semaphores, and what read still gives. Any wait may time out, read and write may fail, and a
--   write puts out the whole block.
-- - ShmTransfer/Order: the invariant. ShmTransfer/Ends: how long a run can be. ShmTransfer/Runs:
--   what is delivered, and two ways in which the two processes disagree.
-- - Not modelled: the handshake over the connection memory.
--
-- HPC.Net/lib/hpc_net.c, an integral computed by a server and its clients:
-- - HpcNet: the tasks, CompUnitTask2IntArg, hpcnetStartComputeUnit behind its task,
--   hpcnetCalcIntegral. The floating-point numbers (Doubles) and hpcIntegral of
--   HPC_Integral/lib/hpc.c are parameters, so nothing is said of rounding.
-- - HpcNet/Stream: writen and readn over what the calls of write and read give, with the int
--   that holds their numbers. HpcNet/Port: _bindFreePort by fuel, of which 65536 rounds are
--   enough. HpcNet/Setup: CheckServAttr, AcceptAndInitClients, InitCompUnits, CloseServer over
--   the answers of the system. HpcNet/Server: how the threads are shared out, and what the
--   answers add up to. HpcNet/Pieces: the parts of the interval by their places in it.
-- - HpcNet/Sockets: the set-up of the UDP and TCP sockets, GetStaticAddr, StartClient and
--   StartServer over a system whose calls are counted and may each fail, with the descriptors
--   that are open as its state. The addresses that are filled in do not matter there and are
--   left out. HpcNet/Sockets/Leaks and HpcNet/Sockets/Count: which descriptors are open
--   afterwards.
-- - Not modelled: the dumps, and the memory that getifaddrs allocates.
--
-- SuperFIFO/semaphore.cpp, semaphores made of the bytes in a named pipe:
-- - FifoSemaphore: the mysem functions over one pipe, with what the system can refuse;
--   FifoSemaphore/Laws: the counter that is their contract. A call that would wait is a result
--   of its own, after which the process asks again.
-- - FifoTransfer: writer and reader of SuperFIFO/wrrd.cpp, any number of them side by side, as a
--   step relation over the pipe of the connections and the pipe of each reader. A number names a
--   reader, as its process identifier does, and the numbers of all are different. A pipe holds
--   any number of bytes, every call may fail, and a reader may stop at any moment, with which
--   the kernel drops what its pipe holds. An fwrite that takes less than it is given goes
--   unnoticed, and a read that fails in a loop gives its -1 to the next call, behind which a run
--   is not followed. FifoTransfer/Order, FifoTransfer/Moves: the invariant. FifoTransfer/Pairs:
--   who serves whom, and what arrives.
-- - Not modelled: SmartFIFO.cpp, whose functions wrap single calls of the system.
--
-- GenChildPrnt1_n/main.cpp, children that print their numbers in order:
-- - Children: the parent and its children as a step relation over a message queue, which counts
--   the messages of each type, and the output that all share. A fork may fail; the operations on
--   the queue succeed.
-- - Children/Order: who may print next, and the output.
-- - Not modelled: the reading of the argument in front of the loop of forks.
pub mod Base
pub mod Bits
pub mod Memory
pub mod BinArray
pub mod Children
pub mod CircBuffer
pub mod CpuTopology
pub mod FifoSemaphore
pub mod FifoTransfer
pub mod HpcIntegral
pub mod HpcNet
pub mod Proxy
pub mod ShmTransfer
pub mod Signal

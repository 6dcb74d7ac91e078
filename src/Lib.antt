-- ===== src/Lib.antt =====
-- A verification library for UTAMO OS, an x86_64 operating system.
--
-- The parts and their files:
--
-- * Memory (kernel/memory). `Memory.Helpers` is memory_helpers.c. `Memory.Map` is memory_map.c:
--   the regions that the boot loader reports, as a list in the order of the array. `Memory.Pmm`
--   is pmm_core.c, the physical page allocator: its two bitmaps are bytes of one storage object
--   (`Memory.Bitmap`), at the offsets where pmm_core_init puts them (`Memory.Pmm.Init`). The
--   allocator is initialized from the map, so the invariant of the map (`Memory.Map.Valid`) is a
--   hypothesis of what is shown of the initial state. `Memory.Pmm.Valid` has the allocator's
--   invariant and the state of a frame that a client sees.
-- * Input (kernel/input/input.c and kernel/drivers/input/keyboard.c). `Input.Ring` is the ring of
--   128 bytes between the keyboard's interrupt and its reader, and `Input.Queue` the bounded queue
--   that it implements. `Input.Decoder` is the decoder of set 1 scancodes, a state machine; `Input.Keys`
--   has what it does on sequences of bytes. `Input.Keyboard` is the interrupt handler and the reader of
--   the driver, over the ring and the decoder; the two bytes that the handler reads from the
--   controller are its arguments. `Input.Reader` is about the driver. The reader's budget of 128
--   rounds is the source's own. Interrupts come between the reader's pops, as an argument of the
--   reader; what is said of the bytes that it takes is about reads that no interrupt comes into
--   after the first pop. The sequence of port
--   accesses that initializes the controller is not modelled.
-- * Shell (kernel/lib/shell_line.c). `Shell.Line` is the line editor, and `Shell.Editing` the stack of
--   characters that it implements. `Shell.Tokens` is the tokenizer, which writes its NULs into the
--   array of the line; `Shell.Words` and
--   `Shell.Commands` relate it to the words of a line. `Shell.Numbers` are the two number parsers;
--   `Shell.Numerals` is about these.
-- * Sched (kernel/core/sched_core.c). `Sched.State` is the core with the tasks that callers own, a
--   function from addresses, and `Sched.Validate` is sched_core_validate. `Sched.Run` has
--   initialization, new tasks, the timer tick and the choice of a task; `Sched.Wait` has the tasks
--   that sleep, block, wake or leave; `Sched.Snapshot` has the reports. `Sched.Valid` is the
--   invariant, which has the ready tasks and the sleepers as lists, in the order of the links.
--   `Sched.Links`, `Push`, `Revise`, `Relink` and `Registry` have the lemmas on links, writes and
--   slots; `Accept` shows that the invariant passes sched_core_validate; `Start`, `Enroll`, `Reap`,
--   `Leave`, `Charge`, `Time`, `Tick`, `Choose`, `Fifo`, `Sleep` and `Wake` are about the operations,
--   `Reach` and `Fair` about runs of them. The loops over the sleepers take as many rounds as there
--   are slots, which is enough for every valid state. Callers serialize the operations, and do not
--   change the tasks in between. sched_state_name, a table of texts, is not modelled.
-- * Net (kernel/net, kernel/include/utamo/net_packet.h). `Net.Packet` has numbers in network order
--   in a buffer, `Net.Checksum` net_checksum of ipv4.c, and `Net.Ethernet`, `Net.Arp`, `Net.Ipv4`
--   and `Net.Udp` the builders and decoders of ethernet.c, arp.c, ipv4.c and udp.c. A pointer with
--   its count of bytes is a list, an output buffer with its capacity a list of that length.
--   `Net.Send` is send_ethernet, send_ip and send_udp of stack.c, which nest frame, packet and
--   datagram; the frame for the card is their result, and what the arrays on the C stack hold
--   before is a parameter. The carries of a checksum get sixteen rounds; since the sum is below
--   2 ^ 18 there, they need at most two. ICMP, masks, the parsing of addresses, DHCP, DNS and the
--   rest of stack.c are not modelled.
-- * Heap (kernel/memory/heap_core.c). `Heap.State` is the heap with its arena, `Heap.Validate`
--   heap_core_validate, `Heap.Blocks` the list of free blocks and the walks along the blocks,
--   `Heap.Run` initialization, growth and allocation, `Heap.Give` free and realloc, and
--   `Heap.Stats` the statistics. The headers are a function of their offsets in the arena and the
--   other bytes another one. memset and memcpy, the heap's own, write the headers in their range
--   byte by byte as well; a store into a header does not show in the bytes. A client that writes
--   over a header is not modelled. A pointer is an address, of which 0 is NULL. The answers of
--   ops.grow during a call are an argument of that call. Every block has 64 bytes and every list
--   of free blocks grows along the arena, so the loops get `mapped_size` rounds, which are enough
--   in a heap in order. Offsets there are at most `mapped_size`, which is below 2 ^ 64, so their
--   sums are written without wrap-around. `Heap.Segment` lists the blocks of an arena,
--   `Heap.Cut`, `Rewire`, `Links`, `Unlink` and `Reshape` have the writes to headers and links,
--   and `Heap.Good` the invariant. `Payload` and `Poisoned` are about memset and memcpy, `Trim`,
--   `Kept`, `Take`, `Taken`, `Fit`, `Extend` and `Grow` are about allocation, `Live` has the
--   allocations that a client sees, `Allocate` and `Supply` those after heap_core_alloc, `Merge`,
--   `Release`, `Free` and `Answer` those after heap_core_free; `Accepted` is about
--   heap_core_validate, `Member`, `Resize`, `Realloc` and `Growing` are about heap_core_realloc,
--   `Init` about initialization and heap_core_calloc, and `Reach` about sequences of calls. Which
--   bytes of the payload realloc keeps, and the sums of the statistics, have no theorem.
--
-- How the code is read. A record is a C structure, and a function that updates `*state` returns
-- the new one. A function that returns false and changes nothing returns `none`. A pointer
-- parameter stands for the object that it points to, so the guards against NULL, which return
-- false before anything is read or written, have no counterpart. uint64_t and size_t are the
-- natural numbers with the wrap-around written out (`add64`, `sub64`), `x & (2 ^ k - 1)` is
-- `low_bits x k` and `x & ~(2 ^ k - 1)` is `clear_low x k`. A `for` over a range is a recursion on
-- the rounds that are left, so no such loop has fuel that could run out. Code that runs with interrupts
-- off is one step.
pub mod Common
pub mod Memory
pub mod Shell
pub mod Input
pub mod Sched
pub mod Net
pub mod Heap

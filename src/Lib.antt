-- ===== src/Lib.antt =====
-- A verification library of parts of WasabiOS, an operating system in Rust.
--
-- The parts and how they interact. The kernel (os/src) allocates its memory with a first-fit
-- allocator over the regions of the firmware's memory map. Its network stack (os/src/net) takes
-- frames from the interfaces, hands each to the handler of its protocol, and routes the packets
-- that sockets and handlers queue. USB devices are driven through rings of transfer request blocks
-- (os/src/xhci), and a keyboard's reports become input by way of a bit set. Memory of devices is
-- mapped uncached through the page tables; drivers and network tasks are futures that an executor
-- polls in turn, behind a lock. A program is parsed from its ELF file, loaded to fresh pages and
-- relocated, and then scheduled beside the kernel's process. Applications share noli, which serialises their arguments and draws
-- into bitmaps.
--
-- Files, with the code that each models:
--   Util      os/src/util.rs: extract_bits, size_in_pages_from_bytes, round_up_to_nearest_pow2, ...
--   BitSet    os/src/bitset.rs: the set of n bytes and its iterator
--   Allocator os/src/allocator.rs: a heap is the list of headers with their addresses, in the order
--             of their links; Provide and Fit are about Header::provide, Regions and Heap about
--             alloc_with_options, Free about dealloc, Boot about init_with_mmap and what follows it
--   Net.Wire  byte arrays, big-endian integers, and readers of packets (noli/src/mem.rs)
--   Net.Ip    os/src/net/eth.rs, os/src/net/ip.rs, and the addresses of noli/src/net.rs
--   Net.Checksum  os/src/net/checksum.rs
--   Net.Tcp   os/src/net/tcp.rs: Packet and Socket are the model; Sent, Checksummed and Layout
--             are about generated packets, Delivery about one that is received, Handshake about three of
--             them, States and Reach about the state machine
--   Net.Packets   os/src/net/arp.rs, udp.rs, icmp.rs and dhcp.rs
--   Net.Manager   os/src/net/manager.rs: Ports, Receive, Transmit and Routing
--   Net.Dns   os/src/net/dns.rs: the query, and in Response the parser of responses; Answers and
--             Layout are about any response and about one in the layout of RFC 1035
--   Xhci      os/src/xhci/ring.rs and the entries of os/src/xhci/trb.rs, in Waiters
--             os/src/xhci/future.rs; Command and Push are about the command ring, Transfer the transfer
--             ring, Events and Delivery the event ring, Wakeups, Waits and Received the waiters
--   Paging    os/src/x86_64/paging.rs: the heap maps the address of a table to its entry values;
--             Tree is the invariant, Populate, Descend, Leaf and Page are about one page, Rounds,
--             Mapping and Identity about ranges
--   Mutex     os/src/mutex.rs: the methods; Threads interleaves them, Exclusion and Retry are about
--             the threads and about lock
--   Executor  os/src/executor.rs: the queue, and in Wait the futures that wait; Fairness and Deadline
--             are about these
--   Graphics  noli/src/rect.rs and the ranges of noli/src/graphics.rs; Bitmap and Text are
--             noli/src/bitmap.rs, TextArea is noli/src/text_area.rs, Sheet is noli/src/sheet.rs;
--             Intersect, Paint, Transfer, Cursor and Flush are about intersection, bitmap_draw_rect,
--             transfer_rect, print_string and flush_area
--   Keyboard  os/src/usb_hid_keyboard.rs and os/src/input.rs, and in Descriptors the iterator of
--             os/src/usb/descriptor.rs, which Sequence is about; Keys is the table of keys that Reports
--             compares reports with
--   Loader    Memory is os/src/memory.rs, Headers os/src/elf.rs, Parse and Image are
--             os/src/loader.rs; Format, Tables, Rows and WellFormed are about the parser, Bounds,
--             Place and Load about load, Relocate about the relocations
--   Process   os/src/process.rs: the scheduler; Rotation and Lives are about its switches and about
--             processes that exit, Handles about the handles of sockets
--   Args      noli/src/args.rs
--   Base      shared notation and lemmas: tests, lists, words, bytes, results
--   Examples  tests and instances at concrete inputs
--
-- State and operations. A struct is a record with its fields, an enum a data type. A method that
-- changes its object takes and returns it; one that sends returns what it sends. Mutexes are taken
-- and released within each method, so they appear only where they are studied, in Mutex and in
-- Executor. A Rust panic is the result panic, and an access outside of a pixel buffer too. The
-- arithmetic of integers wraps, as in the release build that the Makefile runs; an i64 is an integer
-- of Base.Int, with the wrap written out. A byte is a number, and
-- theorems that need it below 256 say so. A BTreeMap is the list of its insertions.
--
-- Bounds and fuel. The folding loop of the checksum has fuel 3, which is enough for every u32. The
-- scan for a port has the ports up to 65535 as fuel. The iterator of a bit set has one round for
-- each bit and one more. Other loops recurse on the list that they read. The refilling of a
-- transfer ring takes its fuel from the caller and says when that runs out; twelve rounds are
-- enough for a new ring. block_on has fuel, which is enough if the clock passes the deadline within
-- it. The collection of descriptors has fuel, one call of next more than there are descriptors
-- being enough. The chunks of a table have a round for each byte. The boxes for page tables are
-- bounded by what the allocator has, three for each page being enough.
--
-- Not modelled: hardware registers, assembly, firmware calls, system calls, fonts and windows, and the
-- formatting of messages. Allocation of vectors never fails here. The weak references to network
-- interfaces never dangle. The loader's call of set_page_attr, which opens the pages of a program to
-- user mode, is left out. Interrupt handlers and other processors do not take the executor's lock.
pub mod Base
pub mod Util
pub mod BitSet
pub mod Net
pub mod Args
pub mod Allocator
pub mod Xhci
pub mod Keyboard
mod Examples
pub mod Paging
pub mod Mutex
pub mod Executor
pub mod Graphics
pub mod Loader
pub mod Process

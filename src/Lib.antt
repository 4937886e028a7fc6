-- ===== src/Lib.antt =====
-- STinG, the TCP/IP stack for Atari computers: the TCP protocol module, the way of datagrams through
-- the kernel, the receiving side of UDP, and the framing of the serial ports, and the cache of the resolver.
--
-- The program. The kernel (sting/) keeps the clock, the ports, the routes and the queues of IP
-- datagrams, and gives the protocol modules their interface: TIMER_now, TIMER_elapsed, IP_send,
-- KRmalloc. poll_ports takes what a port has received through process_dgram, which cuts it by
-- fragment and puts it into the queue of the port that sends it; what the internal port sends goes
-- through receive_dgram and reassembly to the queue or the handler of its protocol. The TCP module (proto/tcp/) keeps a CONNEC for each connection. A datagram that
-- arrives goes through do_arrive (arrive.c), which trims it to the receive window, takes its
-- acknowledgement by update_wind, its data and its FIN, and calls do_output, which sends what may
-- be sent from the send queue (inout.c). tool.c has resets, the SYN, the options and the end of a
-- connection. The driver of the serial ports (ports/serial/) writes a datagram as a frame of SLIP or PPP
-- (wrap_ip), and cuts what it reads into frames and makes datagrams of them (my_receive).
--
-- The files. Each function of the model has the name of the C function, or names the part of it
-- that it stands for; the long function do_arrive is cut into its branches.
--   Prelude     numbers of fixed width, lists, Boolean tests
--   Sting/Clock sting/protocol.c TIMER_elapsed, sting/kernel.c check_sequence
--   Sting/Handles sting/protocol.c PRTCL_request, PRTCL_release, PRTCL_lookup
--   Sting/Handlers sting/protocol.c TIMER_call, sting/ip.c IP_handler
--   Sting/Routes sting/ip.c route_it, get_route_entry, set_route_entry
--   Sting/Ports sting/port.c on_port, off_port, query_port
--   Sting/Queues sting/ip.c IP_fetch, and where receive_dgram in sting/kernel.c queues a datagram
--   Sting/Expire sting/kernel.c set_dgram_ttl, and the walk of clean_up over a queue
--   Sting/Dgram include/transprt.h: IP_DGRAM
--   Sting/Memory sting/setup.c KRrealloc
--   Sting/Heap  sting/setup.c KRinitialize, KRmalloc, KRfree, KRgetfree; Owners, Fit, Return: proofs
--   Sting/Fragm sting/fragm.c fragment
--   Sting/Reassembly sting/fragm.c reassembly
--   Sting/Icmp  sting/icmp.c layer_checksum, ICMP_reply, ICMP_process
--   Sting/Send  sting/ip.c IP_send, sting/icmp.c ICMP_send, sting/protocol.c PRTCL_announce,
--               PRTCL_get_parameters
--   Sting/Kernel the kernel's variables; Forward: sting/kernel.c process_dgram, check_dgram_ttl;
--               Deliver: receive_dgram, my_send; Poll: poll_ports, clean_up; Fate, Hop and
--               Deliver/Fragments: proofs
--   Sting/Tests sample values of the kernel
--   Tcp/Defs    proto/tcp/tcp.h, include/transprt.h: CONNEC, RESEQU, NDB, TCP_HDR
--   Tcp/Seq     proto/tcp/tcp.h: the comparison of sequence numbers
--   Tcp/Queue   proto/tcp/inout.c: pull_up, pull_char, the copying of prep_segment
--   Tcp/Inout   proto/tcp/inout.c: update_wind, trim_segm, add_resequ
--   Tcp/Output  proto/tcp/inout.c: prep_segment, do_output
--   Tcp/Inv     the invariant of the sending side
--   Tcp/Options proto/tcp/tool.c: process_options
--   Tcp/Tool    proto/tcp/tool.c: send_reset, abort_conn, close_self, send_sync, process_sync,
--               categorize
--   Tcp/Arrive  proto/tcp/arrive.c: do_arrive up to the end of its first switch
--   Tcp/Deliver proto/tcp/arrive.c: the rest of do_arrive
--   Tcp/Receive proto/tcp/tool.c: receive; Fifo, Fill: the receive queue as a queue of bytes
--   Tcp/Interface proto/tcp/tcp.c: my_CNbyte_count, my_CNget_char, my_CNget_NDB, my_CNget_block,
--               my_CNgets, my_CNkick, next_port; Gets: my_CNgets takes a line
--   Tcp/Timer   proto/tcp/tool.c: timer_work
--   Tcp/Handler proto/tcp/arrive.c: TCP_handler
--   Tcp/Unreach proto/tcp/tool.c: do_ICMP, poll_receive
--   Tcp/States  proto/tcp/arrive.c: the state diagram, and the end of the loop of do_arrive
--   Tcp/Trim    proto/tcp/inout.c: trim_segm keeps to the receive window
--   Udp         proto/udp/udp.c: the receive queue; Loop, Queue: it is a sequence of bytes;
--               Handler: UDP_handler, next_port
--   Serial/Slip ports/serial/xfer.c slip_out, slip_unwrap
--   Serial/Ppp  ports/serial/xfer.c ppp_out, ppp_unwrap; Table: ppp_fcs.h; Fcs, Residue: the check
--               sequence
--   Serial/Dgram ports/serial/xfer.c make_IP_dgram
--   Serial/Port ports/serial/xfer.c process_datagram, my_receive, wrap_ip; Chunks: the bytes come
--               in parts; Wrapped, Delivery, Exchange: what is sent arrives
--   Serial/Sending ports/serial/xfer.c my_send, fetch_datagram, ppp_do_cp; Order: the bytes go out in order
--   Resolve/Cache proto/resolve/cache.c clean_up, query_name, query_IP, update_cache; Crush: what
--               clean_up leaves; Query: what a query answers
--   Tcp/Samples, Tcp/Tests  sample connections
--
-- The model. A word of w bits is a native number, and its arithmetic is written out modulo 2 ^ w;
-- `int` has 32 bits. A chain of blocks is a list. What C changes through a pointer to a CONNEC is
-- passed on as a record, and beside it a World with the counters of the module, the answers of
-- KRmalloc and IP_send in the order of the calls, the log of what was handed to IP_send, and the
-- checksum routine, which is assembly. The clock stands still while a function runs. A block is its
-- bytes, so that freeing memory has no counterpart; Sting/Heap alone has the memory itself, with its places
-- and sizes.
--
-- The bounds. do_output and process_options have loops that need not end; they run on fuel, and
-- `none` means that the fuel ran out. 0x10002 is enough for do_output and the length of the header
-- for process_options, where the conditions of their theorems hold. The loop of do_arrive makes at
-- most one round for each segment that is kept, and one more. clean_up of the resolver's cache needs
-- more fuel than there are entries, where it ends at all. PRTCL_request searches for a free
-- handle on fuel; its theorem names the round in which it finds one. The loops of fragment need as
-- much fuel as the datagram has bytes, and one more; the one over the options does not end for an
-- option of length 0.
--
-- Not modelled. The opening, closing and sending of TCP's API (tcp.c), and the semaphores of TCP
-- and UDP but for whether a call gets one; of the kernel the reading of the configuration and the
-- routing table from their files; of UDP its API but for three functions that take data; the
-- resolver but its cache; of the driver of the serial ports the compression of headers and the
-- state machines of PPP, which are parameters; the other drivers, the programs around the stack,
-- and assembly files. Memory that is given back is not followed; `discarded` records what the
-- kernel gives to IP_discard. The data of a datagram are less than 0x8000 bytes, as its int16
-- pkt_length can tell.
pub mod Prelude
pub mod Sting
pub mod Tcp
pub mod Udp
pub mod Serial
pub mod Resolve

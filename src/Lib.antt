-- ===== src/Lib.antt =====
-- uvgRTP's verification library: RTP packets, the frame queue, generic media frames, H.264, H.265 and
-- H.266 packets, control packets and the statistics of the participants, SRTP and SRTCP, and the
-- reception flow that hands datagrams to all of these.
--
-- A media frame goes down through a format handler, which cuts it into packets, the frame queue,
-- which puts the RTP header before each and keeps them as one transaction, and the SRTP handler, which
-- encrypts and tags each packet on its way to the socket. A datagram waits in the ring buffer of the
-- reception flow, and then goes up through the RTP handler, which takes it apart, the SRTP handler, the
-- RTCP handler, which counts it, and the format handler, which joins packets to frames again.
--
--   Prelude       shared types, byte buffers, association lists, lists, bits
--   Util          include/uvgrtp/util.hh: errors, formats, flags
--   Frame         include/uvgrtp/frame.hh, src/frame.cc: RTP frames
--   Rtp           src/rtp.cc: Context is the class `rtp` and fill_header(); Receive is packet_handler();
--                 Encode is RFC 3550's layout, written apart from the code
--   FrameQueue    src/frame_queue.cc: transactions, their packets, flush_queue()
--   Media         src/formats/media.cc: push_media_frame(); Receive is packet_handler()
--   H26x          src/formats/h264.cc, h265.cc, h266.cc and h26x.cc: headers of fragments,
--                 fu_division(), aggregation packets; Reassembly and Receive are packet_handler();
--                 StartCode is find_h26x_start_code(), with the tests on words in ZeroBytes, and Push
--                 is scl() and push_media_frame()
--   Rtcp          src/rtcp_packets.cc (Packets); src/rtcp.cc: reading packets (Read), the participants
--                 and recv_packet_handler_common() (Participants), the handlers of control packets
--                 (Incoming), handle_incoming_packet() (Compound), generate_report() (Report),
--                 send_sdes_packet() (Sdes); Kept, Named and Carried are about its items,
--                 RestSizes and Room about the length of a report
--   Srtp          src/srtp/base.cc (Base), src/srtp/srtp.cc (Packets), src/srtp/srtcp.cc (Control)
--   ReceptionFlow src/reception_flow.cc: the ring buffer (Ring), the queue that it stands for (Queue),
--                 handlers, hooks and frames (Flow), process_packet() on a packet (Dispatch)
--   MediaStream   src/media_stream.cc: the handlers that a stream installs, and what comes of a packet
--   Tests         the theorems at concrete inputs
--
-- Buffers are lists of octets, a pointer into one is the list from there on or an index, and a read or
-- copy behind the end has no value: it is `none`, as is the reading of a null pointer or of a frame that
-- was freed. Members that calls change are records that the functions take and return. Numbers are
-- natural numbers, and wrap-around is written out. Random numbers, clocks, the socket, and Crypto++'s
-- ciphers and hashes are arguments. `memcpy` of a number is that of a little-endian machine. The two
-- threads of the reception flow are sequences of their rounds, in any order.
--
-- Loops are structural recursion where they can be, and recursion on fuel where they go by an index:
-- each round of these goes on by an octet, a buffer or a fragment at least, so the length of the buffer,
-- the number of buffers or that of the fragments is fuel enough. The loop over a getter of frames takes
-- its fuel as an argument.
--
-- Not modelled: the creation and locking of threads, timers and polling; the sockets; big-endian
-- machines; when reports are sent; ZRTP and key exchange; V3C; sessions and contexts, and of the media
-- streams all but the handlers; the floating-point estimate of the jitter.
pub mod Prelude
pub mod Util
pub mod Frame
pub mod Rtp
pub mod FrameQueue
pub mod Media
pub mod H26x
pub mod Rtcp
pub mod Srtp
pub mod ReceptionFlow
pub mod MediaStream
pub mod Tests

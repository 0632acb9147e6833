-- ===== src/Lib.antt =====
-- Spoki answers to scans: packets that reach a telescope are answered by probes, and everything is
-- logged. This library models the core of spoki/libspoki and proves what it does.
--
-- The parts. The trace reader hands packets to shards (cache::shard), by the last byte of their source.
-- A shard decides on a probe for each packet, tags it with a user id and passes it to a prober, and
-- sends the packet, with its request if there is one, to a collector; a RST is a message that the
-- shard delays to itself. A prober is a scamper::manager, which keeps a target from being probed
-- twice at a time, in front of a scamper::driver, which talks to a scamper daemon by an event loop:
-- commands leave one for each MORE, and the answers come back in uuencoded blocks. The older
-- scamper::broker spreads requests over several daemons and hands their blocks to decoders with loops
-- of their own. probe::udp_prober sends UDP datagrams itself, from an event loop that other threads
-- wake; the tool udprober feeds it with targets by its actor udp_processor. A buffer collects the rows of the logs, and a collector files them by the hour.
--
-- Which file models what:
--   Prelude        what all share: Boolean tests, lists, association lists for the hash maps, machine
--                  words, std::to_string
--   Net, Net/Keys  spoki/libspoki/spoki/packet.hpp, spoki/libspoki/spoki/net, the keys of
--                  spoki/libspoki/src/packet.cpp
--   Probe          spoki/libspoki/spoki/probe/request.hpp and method.hpp
--   Probe/Commands spoki/libspoki/src/probe/request.cpp: make_command and its parts
--   Cache/Store    spoki/libspoki/src/cache/store.cpp; Merge: what merging leaves
--   Cache/RotatingStore  spoki/libspoki/src/cache/rotating_store.cpp; Lookup, Rotation
--   Cache/Shard    spoki/libspoki/src/cache/shard.cpp, its messages in Actor; Tags: the user ids,
--                  Reactions: probes and rows, Resets: the delayed RSTs as a step relation
--   Analysis       spoki/libspoki/src/analysis/classify.cpp and consistency.cpp; Ipid, Classify with
--                  Counters and Histogram, Consistency
--   Scamper/Driver spoki/libspoki/src/scamper/driver.cpp; Replies: what scamper sends, Interest,
--                  Writing, Order, Delivery and Credits: the events that it waits for,
--                  as a step relation, Framing: the cuts of the stream, Blocks: the blocks of
--                  data, Opening: make and the destructor, Loop: the loop of run, with
--                  Guarded, Stalled and Errors. Scamper/Sockets is net/tcp.cpp, Scamper/Text is
--                  strtoul
--   Scamper/Decoder  spoki/libspoki/src/scamper/async_decoder.cpp; Flow: the bytes on their way to the
--                  warts decoder, as a step relation, Opening
--   Scamper/Records  spoki/libspoki/src/scamper/reply.cpp and handle_deocde_read; Conversions
--   Scamper/Broker spoki/libspoki/src/scamper/broker.cpp; Lines: what scamper sends, Actor: the messages,
--                  Pieces, Queueing, Balance with Spending
--   Probe/Datagrams  the headers and the checksum of spoki/libspoki/src/probe/udp_prober.cpp; Checksums,
--                  Fields
--   Probe/UdpProber  the rest of udp_prober.cpp; Waking and Serving: the notifications as a step
--                  relation, Sending: what is sent, and in which order, Opening
--   Multiplexing   spoki/libspoki/spoki/operation.hpp and the events of poll
--   Scamper/Manager  spoki/libspoki/src/scamper/manager.cpp; Targets
--   Logs/Collector spoki/libspoki/src/collector.cpp; Files, Filing, Openings, States
--   Logs/Entries   the rows of collector.cpp; Delimiters, Columns. Logs/Replies: the rows of scamper's replies
--   Logs/Buffer    spoki/libspoki/src/buffer.cpp; Hours
--   Ring           spoki/libspoki/spoki/consistent_hash_map.hpp; Moves: which keys move, Walks: when
--                  next ends
--   Tools/UdpProcessor  spoki/tools/src/udp_processor.cpp, an actor of the tool udprober; Requests, Steps,
--                  Order: when targets are probed, Starting, Waiting, Advancing,
--                  Unreachable
--   Trace          spoki/libspoki/src/trace/state.cpp: trace::local; Batches, Counters,
--                  Protocol: what a packet carries, with Options
-- A struct is a record with its members' names, an enum a data type, a method or handler a function
-- that takes the state and returns it, with the messages sent as a list of effects. A hash map or
-- set is an association list with one entry for a key; a std::map is sorted. The files Tests run the
-- definitions on small inputs and hold one instance of each theorem.
--
-- Bounds. Numbers are natural numbers; a word keeps its wrap-around as a remainder where the code
-- computes. The driver's count of MOREs is assumed below 2 ^ 64. std::to_string prints twenty digits,
-- which is enough for 64 bits. The walk of next takes fuel: two rounds of the ring are enough when it
-- ends at all. The carries of a checksum are folded in three rounds at most. Time stamps are not
-- negative. The bytes of a datagram are those of a little-endian host.
--
-- Parameters: uudecode_line of scamper's library and the numbers of its probe methods, the printer of
-- addresses of the actor library, inet_addr, ntohl, and how many notifications fit in a socket.
-- What recv and send return is an argument of the handlers; what libtrace finds in a packet, and the
-- actor library's tests on addresses, are arguments of trace::local.
--
-- Not modelled: the actor library (delivery, spawning, threads), libtrace and the threads of the trace reader,
-- scamper's library and the warts decoder, JSON, the text of log file names, the arithmetic on
-- floating point numbers, the kqueue backends of the event loops and the poll backend of the
-- driver's, the other command line tools, and the Python scripts of the evaluation.
pub mod Prelude
pub mod Multiplexing
pub mod Net
pub mod Probe
pub mod Analysis
pub mod Cache
pub mod Scamper
pub mod Logs
pub mod Ring
pub mod Trace
pub mod Tools

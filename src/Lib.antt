-- ===== src/Lib.antt =====
-- analyseTCP: the analysis of TCP traces.
--
-- The program reads a trace of the sender (Dump.cc), and possibly one of the receiver, with
-- libpcap. Each packet goes to a handler, which looks its connection up by addresses and ports,
-- turns the sequence number of the header into a relative one, parses the TCP options and registers
-- the segment with the Connection. The connection counts it as new data, as a bundle of old and new
-- data or as a retransmission, and passes it to its RangeManager. That keeps the stream of the
-- sender as a map of byte ranges, which sent, received and acked segments split and mark. The
-- statistics are then taken from the ranges.
--
-- Files, and the code that each models:
-- - Prelude, Words: shared names; machine words with their wrap-around (the types of common.h). A
--   call that can fail returns Result: a failed assert, an exception, an iterator or index outside
--   its container, or fuel that is used up.
-- - Seq: util.h (before, after_or_equal), Connection::getRelativeSequenceNumber of Connection.cc
--   and RangeManager::absolute_seq of RangeManager.cc.
-- - Time: timeval of time_util.h and time_util.c, get_msecs and get_usecs.
-- - Segment: DataSeg of common.h with the flags of its header.
-- - Range: ByteRange of ByteRange.h and ByteRange.cc: the constructor, increase_sent,
--   increase_received, split, splitEnd, matchReceivedType, addSegmentEnteredKernelTime,
--   calculateRecvDiff.
-- - RangeMap: the map from the first byte of a range to the range, in the order of the keys. An
--   iterator is the key of its entry.
-- - Insert: RangeManager::insertByteRange of RangeManager.cc. Insert/Marks is what a branch writes
--   on a range, Insert/Steps has a function for each branch, and Insert itself the recursion. Each
--   call of the recursion is a step that ends the insertion or names the byte from which it goes
--   on.
-- - Manager: RangeManager of RangeManager.h with insertSentRange and insertReceivedRange;
--   Manager/Ack has processAck.
-- - Conn: Connection of Connection.h and Connection.cc: registerSent, registerRange, registerRecvd,
--   registerAck; Conn/Numbers is about the numbers that getRelativeSequenceNumber reads of it.
-- - Dump: Dump.cc. Dump/Options has parseTCPOptions on the bytes of a packet, Dump/Table the table
--   of connections with getConn and the comparator of Dump.h, Dump/Handlers has processSent,
--   processAcks and processRecvd on packets with parsed headers, Dump/Events a trace as a list of
--   such packets, Dump/Traces the data packets of one connection, with their relative sequence
--   numbers, and Dump/Sojourn calculateSojournTime on lines that are read as numbers.
-- - Intervals: intervalIdx of RangeManager.cc; Intervals/Loss has
--   RangeManager::calculateLossGroupedByInterval with LossInterval of statistics_common.h, and
--   Intervals/Sizes Connection::registerPacketSize and writePacketByteCountAndITT with
--   PacketSizeGroup of statistics_common.h and the sums over the connections of
--   ByteCountGroupedByInterval in Statistics.cc.
-- - Packets: getSendAckTimeDiff and getSojournTimes of ByteRange.cc with SegmentStats and
--   PacketsStats of statistics_common.h; Packets/Gen has RangeManager::genStats, and
--   Packets/Aggregate AggrPacketsStats of statistics_common.cc.
-- - Variation: RangeManager::registerRecvDiffs, makeByteLatencyVariationCDF and genAckLatencyData
--   of RangeManager.cc.
-- - Stats: BaseStats of statistics_common.h and statistics_common.cc; Stats/Loss has
--   RangeManager::calculateRealLoss of RangeManager.cc and Connection::getNumUniqueBytes of
--   Connection.cc, Stats/Interval Connection::setAnalyseRangeInterval, Stats/Validate
--   RangeManager::validateContent, and Stats/Totals Connection::addConnStats with
--   Connection::getDuration.
--
-- State is passed on explicitly: a method takes the object and returns it with its changes. The
-- byte ranges are owned by the map, and no other part keeps a pointer to one, so that no aliasing
-- is lost.
--
-- Bounds and fuel: the recursion of insertByteRange runs on fuel. insertSentRange gives it one unit
-- for each byte of the segment and 1503 more: each call for sent data moves on by a byte at least,
-- and the only calls that do not move on are those of received data on empty ranges, which stop at
-- level 1500. parseTCPOptions gets one unit more than the options have bytes, since each option but
-- one of size 0 has a byte at least. The search by halves of setAnalyseRangeInterval gets one unit
-- more than there are ranges, and each round drops one at least. The other loops are recursions on
-- lists.
--
-- The build modelled is the default one: DEBUG is not defined, and assert is on. Doubles that hold
-- whole numbers are taken as these numbers, which is exact below 2^53; the division of doubles, the
-- places of percentiles and std::sort are parameters.
--
-- Not modelled: printing; floating-point results (averages, deviations, percentiles, the clock
-- drift); libpcap and the decoding of the link, IP and TCP headers; the options for throughput, for
-- GET requests and for NAT; Statistics.cc and analyseTCP.cc, which print and read the command line.
pub mod Prelude
pub mod Words
pub mod Seq
pub mod Time
pub mod Segment
pub mod Range
pub mod RangeMap
pub mod Insert
pub mod Manager
pub mod Conn
pub mod Dump
pub mod Intervals
pub mod Stats
pub mod Packets
pub mod Variation

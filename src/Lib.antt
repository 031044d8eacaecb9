-- ===== src/Lib.antt =====
-- kv8-metrics: telemetry over Kafka. A producer process writes samples, trace-log records and a registry
-- of its counters through the runtime library (libs/kv8log); a consumer (libs/libkv8) finds the
-- sessions in the registry and decodes the rest; the oscilloscope (kv8scope) and the map bridge
-- (kv8zoom) hand the decoded data from the consumer's thread to the one that draws, through
-- single-producer single-consumer rings.
--
-- The parts, and the code that each is about:
--   Prelude   names, lists, bytes, bits, decimal numbers and maps that the parts share
--   Ring      Ring.Queue is the bounded queue both rings promise; Ring.Fixed is
--             kv8zoom/SpscFixedRing.h, with push and pop also as single accesses of two threads in
--             Ring.Fixed.Threads; Ring.Dynamic is kv8scope/SpscDynamicRing.h
--   Wire      the packed structs and codecs of libs/libkv8/include/kv8/Kv8Types.h
--   Kv8log    libs/kv8log/lib/kv8log_impl.cpp: Text and Ctl are its texts, Session is kv8log_open and
--             kv8log_close, Register the registrations, Emit the samples and log records, Control
--             the switching of counters; Laws holds the properties
--   Udt       libs/libkv8/src/UdtSchemaParser.{h,cpp}: Json is its struct Parser, Schema is
--             ParseUdtSchema, Decode is UdtDecodeField; Build is the schema text that
--             libs/kv8log/include/kv8log/KV8_UDT.h writes
--   Registry  DiscoverSessions of libs/libkv8/src/Kv8Consumer.cpp: the scan of the records
--             (ParseRegistryRecord), Resolve the fixed point over the schemas, and Virtual the
--             counters made up for the fields of a feed
--   Scope     kv8scope/SessionManager.{h,cpp}: Liveness is ProbeSessionLiveness, Sessions the poll cycle
--             of the worker, the sequence of its cycles and the calls of the main thread
--   Zoom      the map bridge. kv8zoom/DecimationController.{h,cpp}: Decimation is the class, Spacing and
--             Rates are the times at which it lets frames through. kv8zoom/PathSimplifier.{h,cpp}: Trail
--             is the class, Farthest, Simplified and Thinned are about it. Frames is
--             kv8zoom/FrameAssembler.{h,cpp} and kv8zoom/Frames.h. kv8zoom/KafkaReader.{h,cpp}: Payloads and
--             Reader are its callback and its subscriptions, Delivered and Subscribed are about them.
--             kv8zoom/ZoomBridge.{h,cpp}: Bridge is its state and its drains, Catalog the sessions, Timer
--             OnTimer, Clients the callbacks; Silence, Playback, Sparse, Seeking, Choosing and Switching
--             are about these
--   LogStore  kv8scope/LogStore.cpp
--   Receive   kv8scope/ConsumerThread.{h,cpp}: Setup is the constructor with TimeConverter, Messages the
--             callback on a message, CtlText the control messages, Stats is StatsEngine
-- The parts meet in the bytes: Kv8log writes what Wire lays out, and Registry and LogStore read it;
-- Scope goes by the sessions that the scan finds, and Receive sets up by their metas what its
-- messages are stored in.
--
-- Memory is a list of bytes, a machine integer a natural number with its wrap-around written out,
-- and a double its bit pattern. A session is a record, and the calls that it makes on its producer
-- are a list in it. Option's none stands for an access out of bounds in the functions of Kv8log,
-- and for a result of false or 0 in the decoders. Loops are structural recursion over what they go
-- through, except in three places that take fuel. The loops of ParseUdtSchema have one more than
-- the length of the text: each round reads a byte, or more. The passes over the schemas have one
-- more than there are schemas: each pass but the last resolves one. The recursion of Douglas and
-- Peucker has as many as there are points: the two indices come closer with each call. The locks of
-- a session are left out: each function is one step.
--
-- Arguments of the model, since they are not code of the repository or are floating-point arithmetic:
-- the clocks, what a consumer answers in a poll cycle, the topic handles of IKv8Producer::CreateTopic,
-- std::sort (a sort that need not be stable), the ISO form of a time, strtod and the conversions to
-- double of the schema parser, what snprintf makes of a number, what Receive does with doubles, in the map
-- bridge the order of doubles, the distances, the attitude filter, the JSON of a message and what the
-- reader of Kafka answers.
-- Not modelled: librdkafka and the threads around it, drawing code, sockets, files and JSON, the C++
-- classes around the runtime, the command-line tools, and floating-point arithmetic. The two threads
-- of a ring see each other's accesses in one order, which is stronger than the acquire and release
-- pairs of the code.
pub mod Prelude
pub mod Ring
pub mod Wire
pub mod Kv8log
pub mod Udt
pub mod Registry
pub mod Scope
pub mod Zoom
pub mod LogStore
pub mod Receive

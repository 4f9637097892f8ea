-- ===== src/Lib.antt =====
-- dash-dim: the transport core of a multi-path proxy (tpproxy) and of a transparent relay (octopus).
--
-- The parts, and the files that model them:
-- - Prelude: shared tests, lists, bits and integers; the library's names are passed on.
-- - Codec: base/byte_codec.h, base/byte_codec.cc and base/net_endian.h. Codec/Reader is DataReader,
--   Codec/Writer is DataWriter. A reader or writer is a record of its memory, length, position and
--   byte order; a method is a function from the state to the answer and the state.
-- - Frame: IsDeliverable, TcpConnectionBase::SendData, WriteMessage and Deliver of
--   tpproxy/mpproxy_types.cc, on the codec.
-- - Budget: tpproxy/interval_budget.h and tpproxy/interval_budget.cc.
-- - Socket: SocketBase of tpproxy/mpproxy_types.h, and TpServerBase::WriteDataToFd. It is generic in a
--   Pacer, the virtual CanSend and OnPacketSent.
-- - Connection: TcpConnectionBase, a Socket with the Pacer of a Budget. It reads by Frame.deliver
--   and carries the calls out by Frame.perform; what ParseMessage makes of a message is a parameter.
-- - Server: TpServerBase, which reads the application's bytes and deals them out over connections
--   as calls of SendData; its peer's RecvData gives them to the stream sequencer.
-- - Octopus: octopus/octopus_base.h and octopus/octopus_base.cc. Octopus is OctopusBase and both Sink;
--   Octopus/Keys is the session key;
--   Octopus/Signals is the state of one OctopusHand with one OctopusDispatcher and the signals between
--   them, Octopus/Relay their events and alarms, and Octopus/Relay/Meta the first message.
-- - Proxy: tpproxy/mpproxy_server.cc and tpproxy/mpproxy_client.cc. Proxy/Registry is TpServerBackend,
--   Proxy/Meta is WriteMetaData of the client and ParseMessage of the server, on Codec and Frame, and
--   Proxy/Paths joins them with Frame's Deliver.
-- - Dash: dash/. Dash/Request is the message of DashClient::SendRequest as dash_server.cc reads it;
--   Dash/Server is DashServerEndpoint, Dash/Player is the state of DashClient and Dash/Client its
--   handlers and alarms, and Dash/Algorithm is BandwidthPredicator with the eight algorithms of
--   dash/dash_algorithm.cc, among which Dash/Adaptation chooses by name and to which it shows a client.
--   The client asks with the messages that the server reads, and asks an algorithm for each quality.
--   Dash/Session joins a client and a server: Dash/Session is the connection and the steps of the two
--   event loops, Dash/Session/Phases says where the next bytes are, Dash/Session/Rounds is the schedule
--   under which a session ends.
-- - Tests: concrete runs.
--
-- Numbers are natural numbers with the wrap-around of size_t written out where the source can reach
-- it; int64_t budgets are integers,
-- for arguments that do not overflow, and the int send_bytes_ of a socket is its 32 bits. A CHECK that aborts is `none`. send() is a parameter, a function
-- from the number of the call and the bytes offered to the bytes accepted; the law IsSend says that it accepts
-- at most what it is offered. What read(), bind() and connect() answer are arguments.
--
-- Loops on fuel: Deliver (the length of the buffer: a frame takes two bytes at least), FlushBuffer, Sink
-- and SendDataWithLimit (the length of the data: a round takes a byte at least, or the loop ends).
--
-- The segment server's loops run on the size of a request and on the length of the queue (a write()
-- that succeeds takes a byte, a round answers a request or stops), and Osmp's on the number of
-- qualities. There write() may also refuse, and the law IsWrite says that otherwise it takes
-- between one byte and all of them. A session's
-- connection is counted: `requests` are the bytes on their way to the server, of which one read() takes
-- all, `arriving` counts those on their way back, which are read in chunks of any size. The floating point of dash is a record of operations with no law.
--
-- Not modelled: the copies of other projects (sequencer, the epoll server, time and alarms, the
-- windowed filter and bandwidth, random numbers, logging), whose results are arguments; the reading and
-- writing of dash's files; the test programs; raw sockets and
-- process control; OctopusDispatcherManager, whose std::map is undefined under the operator< of its
-- keys. On octopus only the single path is modelled, where each relay pairs one hand with
-- one dispatcher.
pub mod Prelude
pub mod Codec
pub mod Frame
pub mod Budget
pub mod Socket
pub mod Connection
pub mod Server
pub mod Octopus
pub mod Proxy
pub mod Dash
mod Tests

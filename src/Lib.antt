-- ===== src/Lib.antt =====
-- A model of the network library and of the programs around it, and what is proved of it.
--
-- The program. boost_asio_olc/NetCommon is a small library over asio: messages with a header and a
-- body (net_message.h), a queue that two threads share (net_tsqueue.h), one end of a connection with
-- its queue of outgoing messages and its chain of reads (net_connection.h), and a server that keeps a
-- list of connections and hands what arrives to its subclass (net_server.h). SimpleServer.cpp is such
-- a subclass; net_client.h holds the one connection of a client, and SimpleClient.cpp uses it. The
-- files in the root of the repository are older programs over winsock: SimpleSocket is a connection
-- that carries packets, Network sends and reads commands over it, NewServer.cpp and Server.cpp serve
-- many clients with select, and Client.cpp sends the time to such a server.
--
-- The files.
--   Prelude      shared names, tests on numbers, lists
--   Bytes        blocks of memory: vector::resize and memcpy, with `none` out of bounds
--   Message      net_message.h; values are the lists of their bytes
--   TsQueue      net_tsqueue.h: the operations one at a time; TsQueue.Wait has the two threads, as
--                steps between lockings (WaiterPc and PusherPc say where each stands)
--   Connection   net_connection.h: each method, and each lambda that it hands to asio as a function
--                of its own (on_write_header is the handler of WriteHeader). Connection.System has
--                the events: calls, completions, failures, arriving bytes. Exchange has one message on
--                its way from an end at rest to another
--   Context      what net_server.h and net_client.h have in common: an object, its io_context and the
--                thread that runs its handlers. The io_context is the interface IoContext
--   Server       net_server.h: the list of clients and the connections it points to. The callbacks
--                of a subclass are the record Callbacks; Lifetime has Start and Stop
--   SimpleServer boost_asio_olc/NetServer/SimpleServer.cpp, with the layout of its headers in Codec. System
--                is its main, with the handlers that asio runs between the turns of Update
--                (Connection.Handlers); a connection that is neither listed nor the sender of a message that
--                waits is destroyed there, and its handlers are undefined from then on. Safety, Answering
--                and Running are about it, Dropping about the clients that leave the list
--   Client       net_client.h and boost_asio_olc/NetClient/SimpleClient.cpp: a round of the chat client, and
--                its loop over rounds, each with what the thread of asio has done before it. Pinging has
--                a ping and its answer, with SimpleServer, and Wire the same over the wire; Greeting has a
--                message to all on its way to another client; Printing and Leaving have the loop,
--                Lifetime has Connect and Disconnect
--   Room         the chat server and its clients together: requests one after another, over the wire, and
--                what each client should print (expected)
--   AsioTrial    boost_asio_olc/AsioProject.cpp, over the reads that complete; Printing is about it
--   SimpleSocket SimpleSocket.cpp and SimpleSocket.h, the build with SERVER: the buffers of 4096 bytes,
--                packets out (Pending, Sending, Stream) and in (Framing, Receiving, Splitting, Parts,
--                Bounds); Server has the calls that start, drive and end the socket, Listener what they
--                keep
--   Network      Network.cpp and Commander.cpp: commands in packets, over SimpleSocket; Delivery has
--                the way of one command from Write to Read, were the network enabled, and Idle the network
--                as a whole in this build
--   Select       what the programs over select share: sets of sockets as an interface, a round, the walk over
--                their numbers as a loop with its rule (Scan)
--   NewServer    NewServer.cpp and NewServer.h: the handlers, what they keep (Watching, Handlers), a round
--                (Loop), and the states that the server reaches, as a relation (Runs)
--   ServerMain   Server.cpp: main up to its loop, and the loop, over what the calls return in each round;
--                Serving and Staying are about rounds in which no client leaves, Ending about one
--   ClientMain   Client.cpp, in the same way
--   Logger       Logger.cpp, with the helpers of Utils.h that it uses
--   Config       main.cpp: config.txt, the thread that sends, and the loop that reads the console (Console);
--                TCP_Socket.cpp
--   MemDb        MemDB.cpp: strings under keys, with atoi, atof and snprintf as parameters; Replay has its
--                calls one after another, View the store up to what it reads
--   Tests        the theorems at concrete inputs
--
-- How the code is read. A method returns the new state; `none` is undefined behaviour, such as the
-- front of an empty queue or a copy out of bounds. size_t has 64 bits and wraps, header.size has 32.
-- A shared_ptr is a place in memory or nothing. The bytes of a header are given by a Codec, whose
-- laws are those of any fixed layout; Codec of SimpleServer is one. asio is not modelled: which
-- operation completes next, and whether it fails, is open in the step relation, which also allows a
-- completion that had been queued before the socket was closed. One thread runs all handlers of a
-- context, as in the code; in SimpleServer.System it takes turns with the thread of main, and races
-- within one turn are not modelled. Update is modelled between two arrivals of messages, its limit being the
-- number of rounds, so that no fuel is needed; the other loops run over lists. Four loops have fuel,
-- one unit for a round. RecvDone of the packet socket: each round takes a packet of at least a byte
-- from at most 4096 unless the packet has no bytes, and then the loop has no end, so 4097 are enough.
-- The walks over the sockets of NewServer.cpp and Server.cpp: the first ends within 65537 rounds, since
-- its maxfd has 16 bits; the second reaches a socket within as many rounds as its number and
-- one more, so that 2147483648 are enough while sockets are ints; past the greatest int its counter
-- overflows, which is undefined. The console loop takes a line in
-- a round, and has no end once the stream has failed.
-- int sizes have 32 bits and are extended to size_t as the conversions do. winsock is not modelled: what
-- its calls return in a round is an argument, and what the program hands to them is listed as events,
-- or is part of the result. An fd_set is an interface, FdSets, of documented laws; a set may be full.
-- An io_context may be stopped, and a stopped one runs no handler; what else its thread does is a list
-- of handlers, or the order of the events.
--
-- A time point is a number of ticks in 64 bits, and the time between two is their difference, with its
-- sign. Not modelled: the destruction of connections elsewhere than in SimpleServer.System, the
-- destructors at the end of the programs, the fields of addresses, which only Windows reads, and the code
-- that the build with SERVER leaves out.
pub mod AsioTrial
pub mod Bytes
pub mod Client
pub mod ClientMain
pub mod Config
pub mod Connection
pub mod Context
pub mod Logger
pub mod MemDb
pub mod Message
pub mod Network
pub mod NewServer
pub mod Prelude
pub mod Room
pub mod Select
pub mod Server
pub mod ServerMain
pub mod SimpleServer
pub mod SimpleSocket
pub mod Tests
pub mod TsQueue

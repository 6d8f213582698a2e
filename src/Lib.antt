-- ===== src/Lib.antt =====
-- A model of cs-network-proj, a file server over TCP with a thread pool on epoll, and its client.
--
-- The program has four layers. `src/util` holds byte buffers, files, the writing of whole blocks
-- and the splitting of strings. `src/network/Socket.cpp` moves bytes between a descriptor and a
-- buffer. `src/protocol` says how a request and a reply stand on the wire, and gives the client's
-- side of it. `src/server` serves: an event on a connection goes to its `Session`, which reads a
-- request, answers it, or sends the next piece of a file.
--
-- Base: lists, integers of fixed width and texts over the native numbers, and Base/Outcome, the
--   result of code that changes a state. A run is done, faults (undefined behaviour or a failed
--   assertion), exits the process, or is stuck, when the rounds of a loop ran out.
-- Os: what the program calls of the system and the C library, as a record of functions on an
--   abstract `World`, with the contracts that some theorems assume of them. Threads do not appear
--   in it: a function is one thread's view between two events.
-- Util/ByteBuffer: src/util/ByteBuffer.cpp; its Memory has the integers that the code reads and
--   writes through a pointer. Util/File: src/util/File.cpp. Util/Rio: src/util/rio.cpp.
--   Util/StringUtil: src/util/StringUtil.cpp, a `std::string` being the list of its bytes.
--   Util/Int: `UInt32` and `UInt16` of src/util/Int.cpp, and Util/IntUtil: `IntUtil` of it.
--   Util/Byte: src/util/Byte.cpp, and the text of a buffer; Util/Byte/Hex: `ByteBuffer::hex`, with
--   the stream as libstdc++ reads a number off it.
-- Network/Socket: `Socket::read` and `Socket::write` of src/network/Socket.cpp. Network/Memory is
--   the store of a block into a buffer.
-- Protocol: src/protocol/Protocol.cpp, `sendRequest` and `receiveResponse`.
-- Server/ThreadPool: src/server/Thread.cpp and ThreadPool.hpp. Server/Instance: `Server::INSTANCE`
--   as far as a session changes it. Server/Session: src/server/Session.cpp. Its State is the
--   object; Replies has `sendResponse`, `say`, `validatePath` and `openDownloadFile`; Commands has
--   `processCommand`; Downloads has `processDownload`; Writing has `handleWriting`; Handle has
--   `handle`. Server/Epoll: src/server/Epoll.cpp. Server/Listeners: the two `onEvent` of
--   src/server/Server.cpp; the accept loop gets its rounds as an argument.
--   Server/Events: src/server/Events.cpp, the loop of one thread over the events that come.
--   Server/Workers: the same loop of every thread of the pool at once, as a relation between the
--   states that two steps of any thread lead to and from. What is registered is what the calls of
--   epoll_ctl and epoll_wait leave, under a contract for those calls. `onEvent` of a connection is
--   four steps: the session is read, `handle` is run and the session stored, the connection is
--   registered again, and `onEvent` is left. One round of the accept loop is one step.
--   Server/Startup: `init` and `start` of the server. Network/Endpoints: `listen` and `connect`.
-- Client/Commands: src/client/Client.cpp. A Client is the object; what the threads of a download do
--   until they are joined is an argument, `run`, and the lines of the standard input are a list,
--   behind which every line is empty.
-- Client/DownloadManager: src/client/DownloadManager.cpp, the parts of a new download and one
--   search of a thread for a part. Resume has `downloadWait` and the resume file; Transfer has
--   `downloadPart`; Threads has `DownloadThread::run` as a relation between the states that two
--   steps of any thread lead to and from, with the lock and the table that the threads share. A
--   search is one step there, the marking of its part another, and `downloadPart` is any change of
--   the rest of the part. Alone has
--   `DownloadThread::run` as it goes while the other threads do nothing.
-- Exchange: what a client's request becomes on the server, from the bytes on the wire on.
-- Programs: server.cpp and client.cpp. Arguments has `getopt`, which moves the operands behind the
--   options, and `std::stoi`; ServerMain and ClientMain have `parseParam` and `main`.
-- RawSocket: raw_socket.cpp, the fields that are printed of a packet; Receiving has the loop of its
--   `main`, over a system of its own.
-- Tests: a small machine that stands for the system, and runs on it.
--
-- Loops that wait for the system run on fuel. `rio_writen` and `handleWriting` get one round more
-- than there are bytes left, for each round that goes on has moved a byte; `Socket::read` gets one
-- more than its limit, for the same reason; `split` and `hex` get one more than the length of the
-- text, and the loop over the parts of a download one more than there are full parts.
-- These bounds are proved to be enough where the results below say that the code returns. The loop
-- over a part, the loop of the interactive client, the loop over raw packets and the event loop of a
-- server thread get their fuel as an argument, for they can go on for ever. For the first three the
-- results say when they end, and how much fuel is enough then.
--
-- Sizes and offsets on the wire have 64 bits, the length of a packet 32, and wrap round. Indices of
-- a buffer are signed. The log is left out, since nothing reads it, and so is what the client prints
-- of a download. Not modelled: the destructors, which close files and descriptors where an object is
-- released, the unit tests and the build. The copy of a JSON library under externals is another
-- project's.
pub mod Base
pub mod Os
pub mod Util
pub mod Network
pub mod Protocol
pub mod Server
pub mod Client
pub mod Exchange
pub mod Programs
pub mod RawSocket
pub mod Tests

-- ===== src/Lib.antt =====
-- Unix-IPC: programs that talk over named pipes (fifo/) and over sockets (socket/).
--
-- The program's parts, and the file that models each:
--   * Sys.antt: the system calls, with the monad `Prog` of the programs. The operating system is
--     not in the repository: it is an argument, any function from the calls made so far and the
--     present call to a reply. An uncaught exception, an exit, an access without defined
--     behaviour and the end of the fuel are the outcomes besides a value. Sys/Replay.antt: systems
--     that follow a script. Sys/Laws.antt: the laws of the monad.
--     Sys/Ensures.antt: postconditions of programs, with one rule for each way to build a program.
--   * Fifo/Package.antt: `Package`, `serialize`, `deserialize` of
--     fifo/echo_fifo_server_client/{server/server,client/client}.cpp; Fifo/Transfer.antt: the two
--     `operator<<`; Fifo/Files.antt: the file functions, of which the four programs under fifo/
--     have copies.
--   * Fifo/EchoServer.antt and Fifo/EchoClient.antt: the functions and `main` of these two
--     programs. The server keeps the vector `connections`; the client names its pipe to the server
--     through the server's pipe, and the server answers through the client's.
--     Fifo/Session.antt: a session as each side sees it, both sides at once, and the server with
--     any number of clients.
--     Fifo/Connections.antt: what the server does with its connections.
--   * Fifo/Simple.antt: fifo/simple_fifo_server_client.
--   * Engine/Buffer.antt, Engine/IoOperations.antt: socket/external/engine/buffers.
--     Engine/Outcomes.antt: socket/external/engine/utils/result.
--   * Engine/NativeSocket.antt, Engine/Socket.antt, Engine/Address.antt:
--     socket/external/engine/net_api/socket and .../address_family. `Socket` uses the address that
--     it holds, the buffer that it is given, and the two modules of system calls.
--   * Engine/Tcp/Listener.antt, Engine/Tcp/Sender.antt: socket/external/engine/net_api/tcp_listener
--     and .../sender. Engine/Tcp/Multiplex.antt: .../acceptor/multiplex_acceptor, whose listener's
--     handler refers to the vectors of one acceptor; Engine/Tcp/Multiplex/Session.antt: its sessions;
--     Engine/Tcp/Multiplex/Ready.antt: the plain loop that a round of it amounts to.
--     Engine/Tcp/Receiver.antt: .../receiver, an acceptor whose clients' handler keeps messages;
--     Engine/Tcp/Receiver/Gathered.antt: the messages of one round.
--   * Engine/Tcp/Multithread.antt: .../acceptor/multithread_acceptor, the accepting thread and the
--     sessions' threads as a step relation; what a client's thread does, and the memory
--     that all threads share, is an interface, which
--     Engine/Tcp/Multithread/Echo.antt fills with the handler of
--     socket/examples/multithread_server/main.cpp and the static variables of `getAddressStr`.
--   * Engine/ScopeGuard.antt: socket/external/engine/utils/scope_guard.
--   * Servers/Select.antt: socket/servers/multiplex_server/main.cpp; Servers/Poll.antt:
--     socket/servers/multiplex_server_use_poll/main.cpp; Servers/SimpleTcp.antt:
--     socket/servers/simple_tcp_server/main.cpp; Servers/Request.antt: what they share.
--     Servers/Descriptors.antt: the descriptors that are open after a history of calls.
--     Servers/Service.antt: the service that the servers over `select` and over `poll` are meant to
--     provide, with its events and the system calls of each; Servers/Service/Refinement.antt: the
--     interface that the two servers fill, in Servers/Select/Serving and Servers/Poll/Serving, and
--     Servers/Service/Echo.antt: what follows for the clients of any program that fills it.
--     Servers/SimpleUdp.antt: socket/servers/simple_udp_server/main.cpp.
--   * Clients/TcpClient.antt: socket/clients/tcp_client/main.cpp, with
--     Clients/TcpClient/Talking.antt for the two ends of a connection to the simple TCP server;
--     Clients/UdpClient.antt: socket/clients/udp_client/main.cpp.
--   * Examples.antt: the programs under socket/examples, which put the parts of the library
--     together.
--
-- Machine: x86-64 with Linux's constants, so an `int` and an enumerator have 4 bytes and a `size_t`
-- has 8, lowest byte first, and a negative result that is kept in a `size_t` is 2 ^ 64 less it.
-- Assertions are on. Bytes are numbers; a `std::string` is its list of bytes, and text in an array
-- ends at its first NUL.
--
-- Bounds and fuel: `ReadFrom` polls as often as its fuel says, and a session needs one poll for
-- each empty read and one more. The loops of the servers have their rounds as fuel, since they are
-- meant not to end. The loop over the clients in the servers over `select` and `poll` gets one more
-- than there are clients, and the loop of `handleClientsSocket` needs more than the sessions and
-- the ready descriptors.
--
-- Not modelled: `GetFileSize` is called by nothing; `setSenderCount` and `MakeChannel` cannot be
-- instantiated. Fixed texts on the console are left out, data shown there is the call `prints`.
-- `std::stoi` is a library function, so the servers take the port as a number. The vectors of the
-- acceptor may reallocate while one of their elements runs; values have no addresses here. The
-- handles of detached threads are left out. Threads use the static variables at their calls, one at
-- a time; what a data race on them does is not modelled.
pub mod Prelude
pub mod Sys
pub mod Fifo
pub mod Engine
pub mod Clients
pub mod Servers
pub mod Examples

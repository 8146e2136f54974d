-- ===== src/Lib.antt =====
-- DaBao: load generator and server of a device messaging protocol.
--
-- client/ opens many connections and sends a packet of 146 bytes on each, at most once an epoch.
-- server/ has one epoll thread, which reads packets and hands each to one of up to twenty workers
-- through a ring; a worker decrypts the packet, consults Redis and echoes a request.
--
-- Which file models which code:
--   Base            Boolean tests, lists, machine words, bits and integers that the others share
--   Cipher.Block    own_encrypt and own_decrypt of client/DES/cipher.c and server/DES/cipher.c
--   Cipher.Table    des_key_init, nxt_Value and the conversions of bits of the same files
--   Cipher.Key      get_key_from_userID of the same files
--   PayloadCipher   client/DES/payload_cipher.c and server/DES/payload_cipher.c
--   SocketTools     client/socket_tools.c and server/socket_tools.c
--   Payload         payload.h and payload.c of both sides
--   Serialize       serialize.c and protocol.h of both sides
--   Utils           client/utils.c and initIDMap of client/payload.c
--   Epoll           client/epoll.c: Epoll one connection, Epoll.Times the times, Epoll.Bulk many
--                   connections
--   Client.Rate     getPktTypeNum of client/client.c
--   Client.Events   epollLoop of client/client.c
--   Client.Load     createEvents, addConnections, deleteConnections and updateConnections of
--                   client/client.c
--   Client.Start    getAliasIPs, createClients, createServer, pauseSignal and updateEvents of
--                   client/client.c
--   Client.Main     init and main of client/client.c
--   Client.Update   update_cfg and epoll_client of client/client.c, up to the loop
--   ClientConfig    client/client_config.c
--   Ring            server/ring.h
--   Handoff         the end of processEPOLLIN and the loop of processPackets in server/server.c, and
--                   Handoff.Queue the queue that they stand for
--   Statistics      server/statistics.c and client/statistics.c, and Statistics.Races one counter of the
--                   first that several workers count up
--   Server.Receive  the epoll thread of server/server.c up to the hand-off
--   Server.Start    create_and_bind, createServerFDs, the options of sockets, getLocalIP, initThreads
--                   and the start of server of server/server.c
--   Server.Loop     the loop of server over its events, and nop
--   Server.Whole    the rounds of all threads of server/server.c in any order: Server.Whole.Queues
--                   the rings as queues, Server.Whole.Answer one message from end to
--                   end, Server.Whole.Drain what the workers take
--   Server.Main     main of server/server.c
--   Server.Database queryDatabase and processDatabase of server/server.c
--   Server.Process  a round of processPackets of server/server.c after a packet was taken
--   Server.Cipher   server/cipher.c, a program of its own with the same block cipher, and
--                   Server.Cipher.Main its main
--   ServerConfig    server/server_config.c
--   Cluster         server/redis/connect.c and redis.c: Cluster.Text the strings, Cluster.Nodes the
--                   description of a cluster, Cluster.Slots the hash slots, Cluster.Connect the
--                   connections, Cluster.Command get and set, which are the interface of
--                   Server.Database
--   Wire            the message from epollLoop of client/client.c to processPackets of
--                   server/server.c, when the client is compiled with CIPHER
--   Tests           the theorems at concrete inputs
--
-- Bytes and machine words are natural numbers below a power of two, with every wrap written out;
-- a function that writes through a pointer is modelled by the bytes that it writes. The machine is
-- little-endian, as the casts of cipher.c assume. Loops have the bounds of the source and need no
-- fuel, but for two. What a system call returns, what a clock shows, what rand gives and what libconfig
-- reads are arguments; hiredis, behind Cluster, is an interface with its documented laws. The lines of
-- a cluster are read with the length of the text as fuel, of which each line takes one or more,
-- and nop has the readings of the clock as fuel, of which it needs one more than its delay.
--
-- The threads of the server are modelled twice: Handoff takes the single steps of the epoll thread
-- and one worker, and shows what a lost or an early signal does; Server.Whole takes whole rounds of
-- all of them, in which a round that would wait is not taken.
--
-- Not modelled: processor sets, printing, sleeping, and the reporting threads around the functions
-- that they call; settings of the client with a negative interval or a negative first identifier;
-- str2Int and str2longlong of DES/cipher.c, which nothing calls; server/redis/main.c, which tries
-- out the client of Redis; DES/des.c, a DES program in no build and called by nothing;
-- server/redis/crc16.c, which is the one of Redis and a parameter.
pub mod Base
pub mod Cipher
pub mod Client
pub mod ClientConfig
pub mod Cluster
pub mod Epoll
pub mod Handoff
pub mod Payload
pub mod PayloadCipher
pub mod Ring
pub mod Serialize
pub mod Server
pub mod ServerConfig
pub mod SocketTools
pub mod Statistics
pub mod Utils
pub mod Wire
pub mod Tests

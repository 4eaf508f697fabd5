-- ===== src/Lib.antt =====
-- The Multi-Client Shared Buffer: a manager process shares buffers of slabs with its clients. A
-- producer asks for slabs, fills blocks of them and sends the blocks' numbers; the manager hands the
-- numbers to the consumers that have registered for the message, and a slab is free again when nobody
-- holds a block of it.
--
-- The parts and how they interact:
-- * SlabManager (apps/MCSBManager/SlabManager.cc) keeps each slab free, held or wanted by its counts.
--   Its operations are functions of the same names (GetFreeSlabs is `get_free_slabs`) on a record of
--   its fields. The state change handler is a parameter, a procedure on the manager itself. The share
--   of nonreservable slabs is a parameter too, since it is computed in floating point.
-- * SlabTracker (apps/MCSBManager/ProxySlabTracker.cc) counts the slabs that one client holds, against
--   its reservations.
-- * SlabRequests (apps/MCSBManager/SlabRequestManager.cc) queues the clients' requests for slabs by
--   level.
-- * DropReporter (apps/MCSBManager/DropReporter.cc) counts what a client has missed.
-- * ManagerParams (apps/MCSBManager/ManagerParams.cc) rounds the sizes of blocks, slabs and buffers.
-- * SendManager (src/ClientSendManager.cc) is the client's pool of producer slabs, where messages are
--   allocated as chains of segments.
-- * RecvManager (src/ClientRecvManager.cc) is the client's queue of received segments, which are
--   joined to messages and retired.
-- * GroupManager (apps/MCSBManager/GroupManager.cc) numbers the clients' groups and counts their uses.
-- * Manager (apps/MCSBManager/Manager.cc and ClientProxy.cc, with what SocketDaemon.cc and ShmMapper.cc
--   add to them) composes these parts. Its state is the record of SlabManager, whose handler's
--   argument holds the rest: the clients' proxies, the requests, the groups, the infos of blocks and
--   the messages sent. Sockets are Manager/Sockets, the flow of free slabs Manager/Supply, that of
--   segments Manager/Segments, buffers and reservations Manager/Buffers, message ids and groups
--   Manager/Registrations, clients that come and go Manager/Clients; Manager/Requests has the handlers
--   of all that a client can ask. What is outside (a socket that
--   refuses a message, a buffer that can not be mapped, what a client writes in a block) is the
--   record `Env`, which every procedure takes. A call of one of SocketEndpoint's Send functions is one
--   message, though a long list of ids goes in several, and an empty list of
--   block or slab ids in none.
-- * Crc32c (src/crc32c.cc) is the checksum of a buffer: the memory is a function from addresses to
--   bytes, and the processor's two instructions for the checksum are parameters. The first loop of
--   update_crc32c_sse42 has four rounds, since an aligned address is at most three bytes away; the
--   second has a round for each four bytes.
-- * MessageSegments (src/MessageSegment.cc) is what a message's chain of segments is asked for, and
--   MessageSegments/Payload what reads the payload: ValidCRC and CopyToBuffer.
--
-- Base holds what they share: tests on the native numbers and their wrap-around (Base/Tests), lists
-- measured by native numbers (Base/Lists), occurrences in lists of hooks (Base/Count), maps in the
-- order of their keys (Base/Maps) and procedures that return or throw with the state they leave
-- (Base/Procs). An intrusive list is the list of its
-- items' numbers. Objects that are allocated in blocks (segments, requests) are numbered by their
-- place in the blocks, and a function says what each one holds. A failed `assert`, an index past the
-- end of a vector and an `erase` of an item that is not in the list are errors of the model, although
-- the program may go on from them undefined.
--
-- Loops over lists are structural recursion. The loops along `next` pointers (`release_from` in
-- RecvManager and SendManager) are recursion on a number of rounds, the busy segments and one more:
-- each round takes a segment off the busy ones. Those of MessageSegments have a given number of
-- rounds, and the length of the chain is enough.
--
-- The loops that look for a free id (GroupManager, Manager/Clients) have as many rounds as there are
-- ids. Those of Manager are bounded by what each round uses up: a request or a free slab, a wanted
-- segment, a registered id, a buffer that may still be mapped.
--
-- Not modelled: sockets, shared memory and other system calls, option parsing, printing, the client
-- programs, most destructors, and counters that nothing reads.
pub mod Base
pub mod Crc32c
pub mod DropReporter
pub mod GroupManager
pub mod Manager
pub mod ManagerParams
pub mod MessageSegments
pub mod RecvManager
pub mod SendManager
pub mod SlabManager
pub mod SlabRequests
pub mod SlabTracker

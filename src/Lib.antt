-- ===== src/Lib.antt =====
-- zephyr-server: the in-memory structures of a C++ server framework.
--
-- The program. A `CPipe` is the ring of bytes through which the threads of a process hand each other
-- messages: the net threads write what the sockets receive and the service threads read it, with one
-- writer and one reader for each pipe. A `TplMap` is the ordered map in which the framework keeps
-- connections, sessions and services by their keys: a binary search tree whose nodes are the objects
-- themselves, which rebalances lazily when one side of a node gets much heavier than the other. A
-- `CDoid` is the address of an object, which messages carry; a `CRoute` of the gateway is a range of
-- service ids that the object at such an address serves. A `CList` strings together objects that hold
-- their own links, such as the blocks of a memory pool.
-- A `CMessageHeader` goes before the body of every message that the services send each other, and
-- addresses it to one object or to several; the parameters in the body are marshalled one by one. The
-- worker threads share the tasks of a `CTaskMgr`. A `CTimer` calls back at set times: its queue is a
-- `TplMultiKeyMap`, the ordered map whose keys may stand more than once. A `CConnection` of the net has two
-- pipes; the application's thread cuts what it received into messages, and the two threads wake each
-- other by events.
--
-- Files and code.
--   Pipe: Public/include/Pipe.h and Public/source/Pipe.cpp. The record `Pipe` is `CPipe`; `m_pHeader` and
--     `m_pRear` are offsets from `m_pMemPool`, whose bytes are a list. `write_data`, `read_data`,
--     `prepare_msg`, `confirm_add_msg`, `get_data`, `return_msg_buff`, `peek`, `init` are the methods of
--     those names. Pipe/Fifo is the queue that a pipe is compared with, Pipe/Invariant says when a pipe
--     is well formed and what it holds; Writing, Reading, Sessions and ZeroCopy are about the calls.
--     Pipe/Threads takes `WriteData` and `ReadData` apart at their loads and stores of the offsets, and
--     has the step relation of a writer's and a reader's thread; Segments, Stages, Safety and
--     Interleavings are about it.
--   TplMap: Public/TPL/include/tplmap.h. `Tree` is `TplNode` with its children, `m_nodeSize` as the code
--     keeps it; TplMap/Update has `AddNode`, `ReleaseNode`, TplMap/Facade the class `TplMap` with
--     `AddInTree` and `RemoveFromTree` and the `Safe` forms, TplMap/Walk the iterator. TplMap/Order and
--     TplMap/Lists say what a tree holds and what is done to that list; Raise and Migrate are about the
--     moves, Insert, RemoveHere and Remove about the updates, Refine about the class.
--   TplMultiMap: Public/TPL/include/TplMultiMap.h. A node of the tree carries the list of its siblings, the
--     nodes of the same key; the tree's own routines have the text of those of tplmap.h and are TplMap's.
--     `link` is `AddSiblings`, `release_found` with its parts `SafeReleaseNode`, `add_in_tree` and
--     `remove_from_tree_item` are the class's. TplMultiMap/Entries has the list of all items that the map is
--     compared with; Alter, Erase and Add, Remove are about the calls, Queue about its use as a queue,
--     Orphans about what a removal leaves of the siblings, Numbers about their number, Walk has the iterator.
--   Timer: Public/include/Timer.h and Public/source/Timer.cpp. `set_timer`, `kill_timer` and `run` are
--     `SetTimer`, `KillTimer` and `Run`; the pool and the callback are parameters. Timer/Rounds is about any
--     callback, Due and Order about callbacks that leave the timer alone, Users about calls of the other
--     two, Writes about writes to a node where it stands.
--   Connection: Comm/Net/win/source/Connection.cpp and Comm/Net/win/include/Connection.h. `app_routine` is
--     `AppRoutine`, by which the application's thread takes messages out of the incoming pipe; the parser and
--     the callback are parameters. Rounds, Framing and Messages are about it. Connection/Events has `OnAppSend`,
--     `OnNetRecv` and the others by which the two threads of a connection wake each other, and the rounds of
--     `CNetTask::Run` and `CConnectionMgr::Run` that handle an event; Wakeups and Silence are about them.
--   Doid: Public/include/Doid.h and Public/source/Doid.cpp. `equals`, `less` and `greater` are its
--     operators, `to_u64` and `of_u64` the conversions, `marshall` and `unmarshall` those of messages.
--   Route: ServiceTemplate/Service/include/Route.h. `merge` and `separate` are `Merge` and `Separate`.
--   TplList: Public/TPL/include/TplList.h and `DECLARE_CLASS_LIST` of Public/include/SysMacros.h. The links
--     of all nodes are a heap, `detach` and `attach_list` the macro's methods, `detach_from` the list's
--     `Detach`. TplList/Chains says when a list holds given nodes; Ends, Back and Middle are about the
--     single calls, Whole about all nodes of the heap, Sessions about sequences of calls.
--   TplPool: Public/TPL/include/TplPool.h. TplPool/MemBlock is `CMemBlock`, TplPool/Pool the
--     `CPool` of such blocks, TplPool/ArrayPool `TplArrayPool`, TplPool/ItemPool `ItemClassPool`;
--     `on_block_used` and `on_block_recycled` move a block between the lists. TplPool/Items has the
--     lists of free items and of those handed out that the pools are compared with. What `new`
--     gives is an argument.
--   Marshal: Public/include/TypeMarshaller.h, Public/include/TypeUnmarshaller.h, their source files and the
--     structures of Public/include/TypeDef.h. `marshall_word` stands for the functions that the macros
--     declare, by the size of the type; the others are the overloads for octet sequences, TLVs, strings.
--   Message: Public/include/Message.h and Public/source/Message.cpp, `CMessageHeader` with the memory behind
--     it. Message/Destinations is about the addresses that a message is for.
--   IpMaps: Comm/include/IpMaps.h, Comm/source/IpMaps.cpp and Public/Interface/Platform/include/IfNetData.h.
--     The settings are a parameter; `fill_vips` and `fill_nodes` are the loops of `init`, `route_to` is
--     `RouteTo`. IpMaps/Table says what the table holds while it is filled, Filling is about the loops,
--     Routes about the whole, Connections about the connections in it.
--   TaskMgr: System/TaskMgr/include/TaskMgr.h and System/TaskMgr/source/TaskMgr.cpp. The step relation is
--     `ApplyTask`, `Run`, `QuitTask`, `LoadTask` and `UnloadTask` of one `CTaskInfo` in any number of
--     threads, `add_task` and `release_task` the loops of `CTaskMgr` over its slots.
--   Clock: Public/include/Clock.h and Public/source/Clock.cpp, `CClock`; the four elements of
--     `m_nPlatformTime` are fields, and the time that the system gives is an argument.
--   Common: the C++ conditions, copies between blocks of bytes, words and list lemmas.
--
-- Bounds and fuel. Lengths that the code takes as signed are words of 32 bits, with the test for a
-- negative one written out; the pool is shorter than 2^31. Functions that recurse into a tree that
-- a rebalancing move has just made take fuel. `add_node` has the number of nodes, since it goes
-- down into a child at each call. `release_node` has `budget` of it, since a removal may move the
-- node down on the spot as often as there are nodes on the other side. In the trees `none` is a
-- fault: a null dereference, or fuel that has run out. The loops of `AppRoutine` have more fuel than bytes, since each round takes
-- one at least. `Run` has no fuel: its rounds are those that the
-- code allows.
--
-- Not modelled: the sockets and the completion port under a `CConnection`; `--` of the iterator of
-- `TplMultiKeyMap` and `clean`, which takes out what it walks over; the connections of the communicator, the reader of settings; `GetPlatformTime`
-- beside a running `Update`; memory that is not sequentially consistent; the debug branches; the
-- bound on the height of a tree; the sleeping and waking of workers; what a `CPool` does when it is
-- destroyed; the map of routes; the other parts of the server (net, orb, configuration, logging,
-- data base, the generator of stubs).
pub mod Common
pub mod Pipe
pub mod TplMap
pub mod TplMultiMap
pub mod Timer
pub mod Connection
pub mod Doid
pub mod IpMaps
pub mod Route
pub mod TplList
pub mod TplPool
pub mod Clock
pub mod Marshal
pub mod Message
pub mod TaskMgr

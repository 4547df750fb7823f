-- ===== src/Lib.antt =====
-- Chronus, a cluster of influxdb servers: a model of the parts below and what is proved of it.
--
-- The program. The meta nodes keep the cluster's metadata by raft: which data nodes there are, and
-- which of them own which shard. Every change of the metadata is a method of `Data`, which each meta
-- node applies to its copy. The data nodes keep the shards. A write for a data node that is down is
-- kept in a hinted handoff queue on the disk of another one, and sent when the node is back. Work
-- that one node alone is to do, such as a continuous query, is guarded by a lease. A query is
-- sent to the nodes that own the shards which it reads. A meta node applies the entries of the raft log
-- one by one; a read that must not be stale waits until the node has applied what was committed.
--
-- The files.
--   Base              shared types, tests and lemmas; `Outcome` is a result, an error or a panic
--   Meta.Types        services/meta/data.go, services/meta/errors.go: the records of the metadata
--   Meta.Nodes        services/meta/data.go: CreateDataNode, CreateMetaNode, DeleteMetaNode and the
--                     frozen nodes (Freeze); what ids are given (Ids)
--   Meta.Owners       services/meta/data.go: newShardOwner, the choice of a new owner (Choice)
--   Meta.Delete       services/meta/data.go: DeleteDataNode; the shards that lose their owner
--                     (Relinquish, Orphans), their new owners (Reassign), the whole (Settled)
--   Meta.Groups       services/meta/data.go: CreateShardGroup (RoundRobin, Ids, Create)
--   Meta.GroupDeletion, Meta.ShardOwners
--                     services/meta/data.go: DeleteShardGroup, AddShardOwner, RemoveShardOwner
--   Meta.Store        services/meta/store.go: Client, a meta node's copy of the metadata; its types and
--                     what it takes from influxdb (Types), its methods on users (Users), shard groups
--                     (Groups) and other things (Updates); pruning (Pruned), the cache of passwords
--                     (Cache); services/meta/data.go: marshal and unmarshal of `Data` (Encoding)
--   Hh.Bytes, Hh.Disk the bytes of a number, and a file with its offset
--   Hh.Segment        services/hh/queue.go: `segment`, a queue in one file. How its blocks stand in
--                     the file (Layout), the calls on the file (Steps), and append, current,
--                     advance and open (Writes, Reads, Advance, Reopen); the calls in
--                     sequence against a queue of blocks (Fifo)
--   Hh.Queue          services/hh/queue.go: `queue`, the segments of a directory. Append (Append),
--                     Advance (Advances), and two defects (Stuck, Purge)
--   Raft.Leases       raftmeta/cluster_leases.go: the leases of the cluster's nodes; one request
--                     (Acquire), and any sequence of them (Exclusive)
--   Raft.Apply        raftmeta/apply.go, raftmeta/internal/message.go: the commands of the log on a
--                     Client; that one is all or nothing (Atomic), what it depends on (Timed), and
--                     Client as the store of a node (Machine)
--   Raft.Node         raftmeta/node.go, raftmeta/apply.go: RaftNode, over the interface MetaStore; the
--                     entries, snapshots and restarts (Entries), what a log makes of the metadata (Log), one
--                     entry (Applied), any sequence of events (Replicated), the proposals (Answered)
--   Raft.Linearizable raftmeta/linearizable_read.go, raftmeta/util.go: ReadLoop and ReadNotify as steps of
--                     the loop, the readers, raft and the node, which applies entries and restores
--                     snapshots; the node's metadata (InStep, Stays), the rounds apart
--                     (Consistent), one read (Fresh), any run (Reads)
--   Coordinator.Planning
--                     coordinator/cluster_planning.go: PlanNodes; where the shards of a query go
--                     (Entries, Placed), and that none is left out (Counted)
--   Coordinator.Planning.Retry
--                     coordinator/cluster_planning.go: ExecuteWithRetry, the calls of a query and
--                     their retries; that they end (Skipped, Ends) and what they read (Complete)
--   Coordinator.Writes
--                     coordinator/points_writer.go: writeToShard, a write to the owners of a shard;
--                     what success says (Levels), and every result (Outcomes)
--   Coordinator.Points
--                     coordinator/points_writer.go: sgList, ShardMapping, MapShards and
--                     WritePointsPrivileged; the search for a group (Search), the groups of the
--                     points (Covered), their shards (Mapped), and the write (Written)
--   Coordinator.IteratorReader
--                     coordinator/remote_executor.go: iteratorReader, which reads the bytes of a
--                     connection up to a terminator; the slices (Shifted, Chunks), one Read
--                     (Steps), and any sequence of Reads (Delivered)
--   X.CyclicBuffer    x/cyclic_buffer.go: the last bytes of a stream; how they stand in the buffer
--                     (Contents), writes (Written), Dump and Compare (Dumped, Compared)
--   X.Math            x/math.go: Max and Min
--   Migrate.Manager   services/migrate/manager.go: the tasks that copy shards, and which of them are
--                     registered (Registered)
--   Meta.Tests, Meta.Store.Tests, Hh.Tests, Raft.Tests, Raft.Node.Tests, Raft.Linearizable.Tests,
--   Coordinator.Tests, X.Tests, Migrate.Tests
--                     tests and instances of the theorems
--
-- A method of Go is a function from the state to its outcome and the state that it leaves, on an
-- error too. A loop is structural recursion on the list it walks, so no fuel is needed, but for
-- two: a binary search has its range as fuel, and a query's retries as many rounds as there are
-- owners, and two more, since each round rules out a node. An unsigned number wraps at 2 ^ 64. A
-- signed number is its bit pattern below 2 ^ 64, compared as signed; the theorems on segments bound
-- sizes by 2 ^ 61, far above any file, so that no size is negative. The number of a read's request
-- wraps at 2 ^ 64 too, and the theorems on reads bound the rounds by it. Times are nanoseconds
-- after the zero time, in leases after the Unix time 0, as natural numbers.
--
-- Influxdb's own methods (RetentionPolicy, ShardGroupByTimestamp, the order of its shard groups and
-- of its nodes, and those of its metadata that services/meta/store.go calls) are parameters, with
-- the hashes of passwords and the digest of the metadata, and so are the shuffle and the random
-- numbers of a query's plan. So are what the stores, the hinted handoff, the meta client and a
-- query function answer, and the order in which goroutines do. The walk of a Go map is a list in an
-- order that is not known. A file is written at its offset and grows; writing, Sync and removing a
-- file do not fail, which the standard library promises only for a sound disk. Raft is taken to
-- deliver entries of one log, and to answer a ReadIndex with an index that is not below what was
-- committed. A node's own clock is an argument: the theorems on replicas ask that a request has its
-- times, which leaves out DeleteDataNode, since that always takes the clock.
--
-- The metadata are encoded by data.go itself, field by field. Influxdb's encoding of its own part,
-- and encoding/json, are parameters of which it is asked that they give back what they encode (JSON
-- does so for texts that are valid UTF-8). Influxdb's walks maps, so that the bytes, and a checksum
-- of them, may differ between nodes with the same metadata: nothing is said of the agreement of
-- checksums.
--
-- Locks are left out, since a method holds its lock throughout, but for Client.Authenticate, which
-- releases it between its steps: `authenticate` is one where nothing else happens between them. The
-- order of shard groups is that of their ends, which is influxdb's where no group is truncated. The
-- replicas of a policy, an int of Go, are not negative.
--
-- Not modelled: the encodings of the log's requests and the generated ones of influxdb's messages;
-- Open, Close, Remove and SetMaxSegmentSize of the queue; the times of files; the sender of the
-- queue; raft itself with its timers, transport and files; the HTTP service of the meta nodes; the
-- rest of the coordinator, the copying of shards, the controller and the commands.
pub mod Base
pub mod Meta
pub mod Hh
pub mod Raft
pub mod Coordinator
pub mod X
pub mod Migrate

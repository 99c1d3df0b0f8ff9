-- ===== src/Lib.antt =====
-- A library of queues between producers and consumers (ProcessingQueues/src): a circular queue that
-- one reader and one writer share without a lock, a queue on top of it that many readers share through
-- a linked list of their indices, producers that make the queue grow, and worker threads that consume.
--
-- Base: shared names, Boolean tests, lists and integers over the native natural numbers.
-- Cells (queue/ProcessingQueueDataArray.h): the interface of the storage cells, with the law that what
--   is assigned is read back; Cells/Single (queue/SingleTypeDataArray.h) and Cells/Sample
--   (sample/SampleDataArray.h, sample/SampleQueueEntry1.h, sample/SampleQueueEntry2.h) implement it.
-- Stats (queue/QueueStats.h): the counters; Stats/Counts has their theorem.
-- Fifo: the specification of a queue, a bounded list of entries.
-- Growth (queue/ProcessingQueue.h and .cpp): `getNewQueueSize`, `getEntrySize`, the maximum size.
-- Ring (queue/ReaderWriterQueue.cpp, queue/ProcessingQueue.h, queue/ReaderIndex.h): the circular queue
--   with `add`, `remove`, `isEmpty`, `resize`. Ring/Size has the index arithmetic, Ring/Window the slots
--   in use, Ring/Represents the relation to Fifo, Ring/Drop a read index that moves on,
--   Ring/Resize, Ring/Run and Ring/Count the theorems on top of it. Ring/Concurrent has one thread in `add` and one in `remove`, access by access, with the
--   invariant in Frame, Inv, Writes and Reads and the theorems in Safety.
-- Readers (queue/SyncReaderList.cpp): `moveToFront`, `add`, `remove` and `adjust` on a store of
--   `ReaderIndex` objects. Readers/Chain describes a well-formed list; Move and MoveToFront have
--   `moveToFront`, and Squeeze its branch for a list that spans the queue; Join and JoinBehind have
--   `add`; Leave, Depart and Replace have `remove` of the front, of a reader that is done and of one
--   that waits behind the front; Adjust and AdjustAll have `adjust`.
-- SyncQueue (queue/SyncQueue.cpp, queue/SyncWriterQueue.cpp): Ring and Readers put together;
--   SyncQueue/Slots says which entry a reader is given, SyncQueue/Grow what `resize` does to readers,
--   SyncQueue/Leave which slot is given out when the back has left, SyncQueue/Race what a reader gets
--   whose `isEmpty` another reader's `moveToFront` falls into.
--   SyncQueue/Once has writers that add, any number of readers that join, ask for entries and stay, and
--   a size that doubles, in overlapping calls, with a log of what went in and what came out: Ledger has the
--   account of the entries and Places the readers' slots; Look, Moves, Joins, Adds and Grows keep both
--   through each step; Safety has the theorems.
-- ResizeControls (queue/ResizeControls.h): the lock, flag and count by which producers agree on who
--   resizes, and the steps of any number of producers; ResizeControls/Exclusion has the invariant and
--   ResizeControls/Progress the absence of deadlocks.
-- Producer (consumer/QueueProducerInterface.cpp): `addToQueue` over Ring, Growth and ResizeControls.
-- Worker (consumer/Worker.cpp): the thread's loop and the calls that start, pause, resume, signal and
--   stop it, as steps; Worker/Stop has the invariant.
-- Processor (consumer/QueueProcessor.cpp): the workers of a queue and its nested pauses. Workers says
--   that calls do not go through NULL; Flags and Runs say what a call does to the flags and to the
--   workers, for the theorems in Pauses.
-- Consumer (consumer/QueueConsumerWorker.h and .cpp, consumer/Consumer.h): what a worker does with the
--   queue; Consumer/Work has its theorem, Consumer/Counts the count of removed entries, access by
--   access, and Consumer/Sample the consumer of sample/SampleQueueEntryConsumer.h.
-- Receiver (queue/ResultReceiver.h, queue/ResultReceiverHolder.h): a consumer's answer to a producer
--   that waits for it, as steps; Receiver/Answer has the invariant.
-- Text (base/Data.h, base/Data.cpp): functions on texts: Text itself and Text/Trim on std::string,
--   Text/Buffer on `char *`, Text/Options, Text/Lines, Text/Indent with its proofs below it, and
--   Text/Wrappers on the text that the wrappers of arrays and of strings copy.
-- Tests: runs of the definitions, and the theorems at concrete inputs.
--
-- Numbers. Indices and sizes are natural numbers below 2 ^ 30 where a theorem needs it, so the code's
-- signed and unsigned arithmetic does not wrap there; the maximum size of a queue is below 2 ^ 29. What
-- does wrap is written `u32`: the counters of the statistics, the adjustment that `SyncQueue::resize`
-- passes on, the count of nested pauses. A pointer is an address, and `none` is NULL; dereferencing
-- NULL, or a slot of the queue that was never written, is a result of its own.
--
-- Loops. The copy loop of `resize` runs on fuel of one more than the size, which is enough for a
-- well-formed queue. The loops of `addToQueue` run on fuel for rounds and for retries; two rounds and
-- no retry are enough below the maximum size. The loop of `adjust` runs on fuel that its caller
-- gives; two more than the readers in front of the back are enough. The loops over a text run on its
-- length, and the one of `indent` on one more.
--
-- Concurrency. A critical section is one step. The circular queue's `add`, `remove` and `resize` are
-- one step each in Ring; in Ring/Concurrent `add` and `remove` are split at each access to what they
-- share, in the order of the source and with every write seen at once. In SyncQueue/Once the calls of
-- all readers and writers interleave: `add`, `startAccess` and `resize` are one step each, and `remove` is
-- two, `moveToFront` and `removeSlot`. Writers exclude each other there by `addMutex`, and `startAccess`
-- and `moveToFront` by `indexMutex`. The source runs `removeSlot`, and the copying of `resize` against
-- readers, under no mutex; that no other step falls into these is assumed there, and for `removeSlot`
-- the theorems do not hold without this assumption: see SyncQueue/Race.
-- Producers, the worker's thread and the caller of `getValue` are step relations too, with waits that
-- may end without a signal. What other threads do to a queue between two accesses of a producer is a
-- parameter, and so is the consumer of a worker, which may change the entry that it is handed. The
-- calls of a processor are made by one thread.
--
-- Parameters. `isspace` and `tolower` are functions on bytes, and the extraction of a `bool` from a
-- stream is a function on texts whose documented results on words are named hypotheses.
--
-- Readers that leave. SyncQueue/Once is about readers that stay and entries that are not null; what
-- follows when a reader leaves is in Readers/Leave, Readers/Replace and SyncQueue/Leave.
--
-- Not modelled: the wrappers of pthread (threading), printing and debugging output, the conversions of
-- numbers through string streams and the pointers of the wrappers of parameters in base/Data.h, threads
-- that block in `pause(true)` and `join`, what a `signal(true)` waits for but a pause, and the sample
-- program.
pub mod Base
pub mod Cells
pub mod Stats
pub mod Fifo
pub mod Growth
pub mod Ring
pub mod Readers
pub mod SyncQueue
pub mod ResizeControls
pub mod Producer
pub mod Worker
pub mod Processor
pub mod Receiver
pub mod Consumer
pub mod Text
pub mod Tests

-- ===== src/Lib.antt =====
-- MCoro is a C++20 library of coroutines over io_uring. This library models the parts of it that
-- hold its data and order its coroutines: the queues that pass values between coroutines and threads,
-- the locks, the coroutines themselves, the timers and the event loop, the thread pool, the result type
-- that its functions return, the buffered streams, and the string utilities.
--
--  - Strings: co_async/utils/string_utils.hpp, `lower_string`, `upper_string`, `trim_string` and
--    `SplitString`. A string is the list of its bytes.
--  - RingQueue: co_async/utils/ring_queue.hpp. A `RingQueue` is its array and three offsets; an
--    access outside of the array is the outcome `undefined` (Prelude.Memory). `InfinityQueue` is
--    RingQueue.Infinity.
--  - ConcurrentQueue: co_async/utils/concurrent_queue.hpp. A stamp is the value of the atomic
--    `mStamp`; the numbers that hold it are cut off at its width. The list of `Attempt`s that `pop`
--    and `push` take says what the exchanges of their loops find: a stamp that another thread has
--    stored, or a failure without a reason. Masks, shifts and `|` are written as arithmetic, and
--    ConcurrentQueue.Masks compares the two forms. The specialisation for capacity 0 and `SpinMutex`
--    (co_async/utils/spin_mutex.hpp) are ConcurrentQueue.Unbounded.
--  - Expected: co_async/utils/expected.hpp, `Expected<T>`; `co_await` of one in a task returns its
--    error, which is `and_then`.
--  - Stream: co_async/iostream/stream_base.hpp and bytes_buffer.hpp. A device is a record of the
--    virtual methods of `Stream` over a state, and `BorrowedStream` is its buffers, its indices and
--    that state. Stream.Input models the reading half, Stream.Output the writing half, and
--    Stream.Delimited the reads up to a delimiter of several bytes. An end of a span of `n` bytes
--    wraps as `std::size_t`. What a device does is a hypothesis: `Delivers` says that `raw_read` gives the next bytes of a text, `Accepts`
--    that `raw_write` adds a front part of its span to what was written.
--  - Task: co_async/awaiter/task.hpp. A machine has the frame of each coroutine, the awaiter of each
--    promise, and the answers that the kernel will give; a step is one transfer of control. Task.Call
--    compares it with the function that a task is when a `co_await` of a task is a call.
--    Task.Transform is `await_transform` for results; that for many results with values is left out,
--    since no `co_await` can choose it.
--  - WhenAll: co_async/awaiter/when_all.hpp. A state is the control block, the helpers of the tasks
--    and how often the caller was resumed; the tasks end in any order.
--  - Sync: co_async/generic/mutex.hpp, semaphore.hpp, condition_variable.hpp and queue.hpp. A system
--    is the atomic and where each coroutine stands; Sync.Mutex, Sync.Semaphore and Sync.Condition have
--    the moves of one coroutine, the steps of a system and the systems that are reached. The kernel's
--    futex is a wait that may return at any time, with or without an error. Sync.Queue is a ring
--    queue with the futex of its condition variable; the calls that wait are modelled by their rounds.
--  - IntrusiveList: co_async/utils/intrusive_list.hpp, `ListHead`, which the methods of
--    `IntrusiveList` call. The memory is a record of two functions from addresses, `listNext` and
--    `listPrev`; a command takes a memory and gives a result and a memory, or `undefined` for a member
--    of a null pointer. IntrusiveList.Ring says which memories hold a list, and the other children
--    have what each operation does to it.
--  - RbTree: co_async/utils/rbtree.hpp, on a memory of the same kind. A side is an argument, so
--    `rotateLeft` and `rotateRight`, and the two halves of `fixViolation`, are one definition each.
--    RbTree.Insert, RbTree.Erase and RbTree.Visit have the other operations. RbTree.Tree has trees,
--    the places in them, and which memories hold a tree at a place; RbTree.Turn, RbTree.Rotate, RbTree.Paint and
--    RbTree.Place are about a rotation, a color and a new node there, RbTree.Fix about a round of
--    `fixViolation`, RbTree.Loop about its loop, RbTree.Balance about `doInsert`, and RbTree.Detach, RbTree.Linked and
--    RbTree.Remove about `doErase` of a node with at most one child. The order of the
--    values is a parameter. A loop takes as fuel the nodes that it may visit.
--  - Timer: co_async/generic/generic_io.hpp, generic_io.cpp and timeout.hpp, on the memory of RbTree. The
--    clock and the coroutines that sleep are parameters.
--  - IoContext: co_async/generic/io_context.cpp, and `waitEventsFor` of co_async/platform/platform_io.cpp, over
--    Timer. What `io_uring_submit_and_wait_timeout` gives, and the coroutines, are parameters.
--    IoContext.Workers has the constructor and the contexts that `IOContextMT::run` makes.
--  - ThreadPool: co_async/generic/thread_pool.cpp, `submitJob` and the threads of the pool, as
--    a step relation. What a job does and the futex on which `rawRun` waits are not modelled.
--  - Registered: co_async/platform/platform_io.cpp, the tables of registered buffers and files.
--    `addBuffers` and `addFiles` are one definition over the type of an entry. The calls of liburing
--    are a record that the definitions take; `Succeeds` says that they return no error, but that an
--    update of no entries is refused.
--  - Cancel: co_async/generic/cancel.hpp. A source has the list of its cancellers in a memory of nodes,
--    whether it was canceled, and what is outside of it; a canceller is a command on all of that.
--  - Prelude: the shared names, lists over the native numbers, Boolean tests, and memory accesses.
--  - Tests: the results at concrete inputs.
--
-- In the other modules a `co_await` of a task is a call, as in Task.Call. A loop that may wait
-- for a device takes fuel, one unit for each round, and gives `none` when it runs out; each theorem
-- about such a loop says how much is enough, and that there is a result then. The loops that spin on
-- an atomic take the list of what they find there.
--
-- Not modelled: generators, allocators and adapters of co_async/awaiter, `when_any`, the end of the
-- thread pool and `rawRun`, and the rest of co_async/platform, which calls the operating
-- system; steps and examples hold earlier stages of the library and programs that use it,
-- and 3rd holds other projects.
pub mod Prelude
pub mod Strings
pub mod IntrusiveList
pub mod RbTree
pub mod Registered
pub mod Cancel
pub mod Task
pub mod Timer
pub mod IoContext
pub mod ThreadPool
pub mod WhenAll
pub mod RingQueue
pub mod ConcurrentQueue
pub mod Expected
pub mod Stream
pub mod Sync
mod Tests

-- ===== src/Lib.antt =====
-- kernelpanic: the queues, locks and scheduler of a small real-time kernel, and the maze of a mouse.
--
-- The kernel runs threads on one processor. kernel/scheduler.c owns the run queue and switches
-- threads from the crit interrupt; kernel/locking.c is the state machine through which the locks
-- (kernel/semaphore.c, signal.c, generation.c, barrier.c, resource.c) block and wake their callers;
-- kernel/pipe.c exchanges bytes between threads, on the byte queue of utils/ringbuffer.c;
-- kernel/worker.c is a thread that runs queued items; kernel/watchdog.c notices a part that does not
-- run. umouse/ keeps the walls of a maze, floods it with distances and chooses the next move.
--
-- Common        Boolean tests, lists, and the outcome of a call that can panic: an ASSERT that
--               fails, and a call of KernelPanic, is `panic`. DEBUG builds evaluate every ASSERT.
-- Utils.Fifo    The functions of utils/linkedlist.c that the kernel uses, on the sequence of the
--               elements of the list.
-- Utils.LinkedList
--               utils/linkedlist.c on a store of links with next and prev fields. Circle is the
--               chain of links that a list is, Queue each operation against the sequence, Lists
--               any number of lists in one memory.
-- Utils.AtomicList
--               utils/atomiclist.c, one access to memory after the other: a list of interrupts,
--               functions on the memory, says what comes in during each turn of a loop, and the
--               turns after them are not interrupted. Stack is the list without interrupts and a push over
--               a push, Interrupted a pop that an interrupt comes into.
-- Utils.Heap    utils/heap.c on a store of nodes with left, right and parent fields. The loops of HeapAdd and
--               HeapPop run on fuel, the size of the heap, which is at least the number of levels that a
--               node can move. Writes is what HeapPromote writes, Places a heap as an array, Find the way to
--               a place, Order and Sink the two loops, Add and Tail the nodes that come and go, Insert and
--               Extract the two operations. A node's weight is the argument of HeapAdd.
-- Utils.BHam    utils/bham.c; Slope counts the signals.
-- Utils.Counter utils/counter.c; Sums holds the theorem.
-- Utils.Bitmap  utils/bitmap.c on the sequence of the bits of a buffer, a word being 32 bits of it; the
--               loops recurse on the turns left.
-- Utils.RingBuffer
--               utils/ringbuffer.c, one function for each of the C file's. `read_small` and
--               `write_small` are the two chunk copies, `copy_out` and `copy_in` their do-while
--               loops on fuel (one more than the size of the ring, which is more than the
--               bytes of a chunk), `read_loop` and `write_loop` the loops of RingBufferRead
--               and RingBufferWrite on fuel (one more than the bytes asked for, and every turn
--               moves a byte). Slice and Copy hold the list lemmas, Contents the validity of a
--               ring and its contents as a sequence, ReadChunk, Read, WriteChunk and Write
--               the two operations, Fifo the bounded queue that they implement.
-- Kernel.State  The globals of kernel/scheduler.c, and the THREAD and LOCKING_CONTEXT objects as
--               functions of their addresses. The context of a thread has the thread's own
--               number, which is what container_of computes from its address; 0 is the
--               idle thread.
-- Kernel.Isr    kernel/isr.c: the counts of disabled levels and the mask of the hardware layer, which
--               blocks the signals of a level and of those below it (hal/unix_hal.c). The loops
--               of IsrDefer and IsrIsAtomic recurse on the level. Masks is the validity of the
--               mask, Nesting the pairs of disable and enable.
-- Kernel.Mutex  kernel/mutex.c; Exclusion holds the theorem.
-- Kernel.Handler, Kernel.Interrupt
--               kernel/handler.c, and the queues of kernel/softinterrupt.c and
--               kernel/critinterrupt.c, which have the same code. The code behind a handler's function
--               pointers is a parameter. The loop of the interrupt recurses on fuel: one more
--               than the handlers that wait is enough when none registers another (Drain).
-- Kernel.Scheduler
--               kernel/scheduler.c: critical sections, block, resume, the crit handler. The crit
--               interrupt is let in when the last critical section ends, as IsrEnable
--               does it; SchedulerCritHandler, SchedulerSwitch and PostCritHandler run then in one
--               step. Valid holds the invariant of a quiet kernel.
-- Kernel.Locking
--               kernel/locking.c. Waits, Granted, Calls, Blocks and Wakes are the laws that the
--               locks share: what a line of waiters is, a call that passes, one that blocks, and
--               one that wakes a line.
-- Kernel.Semaphore, Signal, Generation, Barrier, Resource
--               One file for each C file of that name, with one function per C function, and
--               its contract in a module below it: Permits, States, Values, Rounds; for Resource
--               Handover (which waiters ResourceWakeThreads takes), Exclusion (the contract),
--               Acquire and Release.
-- Kernel.Threads
--               kernel/scheduler.c again: threads from their creation to their death, the quantum and
--               shutdown. SchedulerThreadStartup is cut where the thread can sleep. Ends holds the
--               theorem on a thread's death, Join the one on waiting for it.
-- Kernel.Pipe   kernel/pipe.c, with any number of threads. A turn of a thread is one step between
--               the places where it can block or be interrupted: taking a side's semaphore, taking
--               the mutex of the ring and moving bytes, raising a semaphore. A semaphore is its
--               count, and a thread takes no turn while it is blocked there. The pipe also keeps
--               the bytes that went in and out, which the code does not. A call asks for a positive
--               number of bytes, as IsCall says. Reader and Writer are the turns of the two sides,
--               System the threads together, Invariant, Lanes and Turns the invariant, and Safety,
--               Stream, Progress and Zero the theorems.
-- Kernel.Socket kernel/socket.c: a handle names two pipes, and a call on it is a call on one of them.
-- Kernel.Worker kernel/worker.c: one queue, its thread, and the items. WorkerAddItem is cut between
--               SemaphoreUp and the section that links the item in. The check that the caller is
--               not a soft interrupt is left out. Safety holds the theorems.
-- Kernel.Watchdog
--               kernel/watchdog.c and the macros of utils/flags.h on a mask of 32 bits; Notify
--               holds the theorem.
-- Umouse.Map    umouse/map.c: Walls shows that every wall has a bit of its own, Layout where the two
--               lists of walls stand in the buffer.
-- Umouse.FloodFill
--               umouse/floodfill.c. FloodFillCalculate takes one event from its queue in each turn
--               and runs on fuel, one more than a bound (Weight) on the turns that are left: each
--               cell's event counts 5 to the power of what its value can still fall. Grid and
--               Invariant are the data, Turns, Clear and Start the operations, Distance and Shortest
--               compare the values with the lengths of paths.
-- Umouse.PositionLog
--               umouse/positionlog.c.
-- Umouse.SubMove
--               umouse/submove.c: Best is the order in which SubMoveFindBest compares moves, Places
--               the cells and walls that a move looks at, Choice the move that it returns.
-- Tests         Runs at concrete states.
--
-- An operation takes the object and the kernel state and returns them changed. A pointer to a
-- context that may be NULL is an Option. The state after a call that blocks is the state in which
-- the next thread goes on; the blocked thread goes on later, when it is switched to.
-- A size_t has 64 bits and its arithmetic is written with `% 2 ^ 64`, but where a file's first lines
-- say that it does not wrap. The theorems on the ring take sizes up to 2 ^ 62, those on the heap sizes
-- that the int mask of HeapFindElement can address.
--
-- Not modelled: the hardware layers in hal/ and the stacks that they switch, kernel/coroutine.c and
-- kernel/context.c, which switch them too; kernel/startup.c, kernel/serial.c, umouse/main.c and
-- umouse/motor.c, which drive devices; the test programs; and the Lisp interpreter in kernel/minilisp.c,
-- which is another project's code. Still to come: kernel/timer.c and kernel/sleep.c,
-- utils/avl.c, utils/primes.c.
pub mod Common
pub mod Utils
pub mod Kernel
pub mod Umouse

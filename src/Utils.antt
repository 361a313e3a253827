-- ===== src/Utils.antt =====
-- utils/: the data structures and small algorithms that the kernel and the mouse are built from.
pub mod RingBuffer
pub mod Fifo
pub mod LinkedList
pub mod AtomicList
pub mod Bitmap
pub mod Counter
pub mod BHam
pub mod Heap

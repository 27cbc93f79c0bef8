-- ===== src/Mm.antt =====
-- mm/: the memory areas of a task, the physical frames, and the heap of the kernel.
pub mod Vma
pub mod Pmm
pub mod Heap

-- ===== src/Util.antt =====
-- util/: a heap.
pub mod MinHeap
mod Tests

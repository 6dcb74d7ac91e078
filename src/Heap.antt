-- ===== src/Heap.antt =====
-- kernel/memory/heap_core.c: the heap of the kernel.
pub mod State
pub mod Validate
pub mod Blocks
pub mod Run
pub mod Give
pub mod Stats
pub mod Segment
pub mod Cut
pub mod Rewire
pub mod Links
pub mod Unlink
pub mod Reshape
pub mod Good
pub mod Trim
pub mod Kept
pub mod Payload
pub mod Take
pub mod Poisoned
pub mod Taken
pub mod Fit
pub mod Extend
pub mod Grow
pub mod Live
pub mod Allocate
pub mod Merge
pub mod Release
pub mod Free
pub mod Accepted
pub mod Resize
pub mod Member
pub mod Realloc
pub mod Growing
pub mod Answer
pub mod Supply
pub mod Init
pub mod Reach
mod Tests

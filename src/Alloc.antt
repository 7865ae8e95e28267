-- ===== src/Alloc.antt =====
-- minix/alloc.c: the memory allocator of the VM server.
pub mod Avl
pub mod BestFit
pub mod Cells
pub mod Chain
pub mod Dma
pub mod Order
pub mod Pages
pub mod Regions
pub mod Rewrites
pub mod Spec
pub mod Table
pub mod Unlinked
pub mod Vm
pub mod Holes
pub mod Lists

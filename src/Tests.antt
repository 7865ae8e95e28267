-- ===== src/Tests.antt =====
-- Concrete runs, and the theorems at inputs that meet their hypotheses.
mod Automaton
mod BestFit
mod BoundedBuffer
mod BubbleSort
mod Dma
mod Holes
mod LinkedList
mod Lists
mod Matrix
mod Menu
mod Pages
mod Sched
mod ThreadPool

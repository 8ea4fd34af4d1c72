-- ===== src/Examples.antt =====
-- The theorems at concrete inputs, and tests of the definitions.
mod Frames
mod Sessions
mod Solvers
mod Pools
mod Naturals
mod States
mod Filters
mod Rings
mod Loops
mod Machines
mod Nodes
mod Mains

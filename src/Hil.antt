-- ===== src/Hil.antt =====
-- The solvers of fpga_power_electronics_hil/: the reference in vsc_solver/ and the kernel in
-- hls_solver/.
pub mod Num
pub mod Lu
pub mod Norton
pub mod Network
pub mod Kernel

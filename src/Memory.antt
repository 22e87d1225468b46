-- ===== src/Memory.antt =====
-- Assignment 8: demand paging by four kinds of processes (master, scheduler, mmu, user process).
pub mod Table
pub mod Mmu
pub mod Master
pub mod Refstr
pub mod System
pub mod Start
mod Tests

-- ===== src/Foothread.antt =====
-- Assignment 7/foothread.c and foothread.h: threads, mutexes and barriers on Linux semaphores.
pub mod Mutex
pub mod Manager
pub mod Barrier
pub mod Gentree
pub mod Computesum

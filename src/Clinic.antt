-- ===== src/Clinic.antt =====
-- Assignment 6: the simulation of a doctor's session, driven by a queue of events.
pub mod Event
pub mod EventQueue
pub mod Clock
pub mod Session

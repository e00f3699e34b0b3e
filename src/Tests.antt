-- ===== src/Tests.antt =====
-- Runs of the model on concrete inputs.
mod Toy
mod Documents
mod Transport
mod Receiver
mod Configuration
mod Enrolling
mod Service
mod Enrollment

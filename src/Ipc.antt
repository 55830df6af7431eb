-- ===== src/Ipc.antt =====
-- kernel/ipc/ipc.c: spin locks, pipes, mutexes and signals.
pub mod Spin
pub mod Pipe
pub mod Mutex
mod Signal
mod Tests

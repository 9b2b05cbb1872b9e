-- ===== src/Limiter.antt =====
-- pkg/limiter/queue.go: the queue that serialises IPAM requests by IPPool name. A request waits
-- until none of its tickets is held; the conductor goroutine sweeps the queue in order.
pub mod Queue
pub mod Tickets
pub mod System
pub mod Sweep
pub mod Invariant
pub mod Safety
pub mod Unmatched

-- ===== src/Fork.antt =====
-- The exercises in fork/.
pub mod Primes
mod Tests

-- ===== src/Sched.antt =====
-- The scheduler of the JOS kernel: sched/kern/sched.c, and what it uses of sched/kern/env.c,
-- sched/kern/trap.c and sched/kern/syscall.c.
pub mod Env
pub mod Yield
pub mod Destroy
pub mod Ipc
pub mod Pages
pub mod Vm
pub mod Numbers
mod Tests

-- ===== src/Threads.antt =====
-- LinuxC/pthread and bite/pthread: the programs on threads. A thread is the point at which it stands
-- with its local variables, and a run is the order in which the threads take their steps.
pub mod Counter
pub mod Buffer
pub mod Tickets
pub mod Messages
pub mod Delicacy
mod Crew
mod Picks
pub mod Entries
pub mod BlockQueue
pub mod Pool
pub mod RingQueue
pub mod Philosophers

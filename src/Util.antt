-- ===== src/Util.antt =====
-- util/: containers and string helpers.
pub mod RingBuffer
pub mod StringUtil
pub mod ResourcePool
pub mod Cache

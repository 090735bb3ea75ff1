-- ===== src/TplPool.antt =====
-- Memory pools (Public/TPL/include/TplPool.h): `CPool` with its blocks, `TplArrayPool` and
-- `ItemClassPool`.
pub mod Items
pub mod MemBlock
pub mod ArrayPool
mod Tests
pub mod Pool
pub mod ItemPool

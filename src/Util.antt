-- ===== src/Util.antt =====
-- The helpers of src/util.
pub mod ByteBuffer
pub mod Byte
pub mod File
pub mod Rio
pub mod StringUtil
pub mod Int
pub mod IntUtil

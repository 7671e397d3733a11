-- ===== src/Common.antt =====
-- What every layer uses: src/common.
pub mod Status
pub mod Logger

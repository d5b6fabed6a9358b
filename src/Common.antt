-- ===== src/Common.antt =====
-- libs/common: what the services share.
pub mod MonthRange

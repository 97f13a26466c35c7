-- ===== src/Utils.antt =====
-- src/lib/utils.cpp and src/common/utils/utils.cpp: texts that users write.
pub mod Split
pub mod Routes

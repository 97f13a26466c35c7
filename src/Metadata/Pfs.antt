-- ===== src/Metadata/Pfs.antt =====
-- `pfs_storage_metadata`. Its client field is never written or read.
use io_scheduler.Types.{PfsStorage, PfsContext}

pub record PfsMetadata : Type 0 where
  pub pfs_storage : PfsStorage

unfoldable pub make : PfsStorage → PfsMetadata
make storage = record { pfs_storage = storage }

unfoldable pub update : PfsContext → PfsMetadata → PfsMetadata
update ctx m = record m { pfs_storage = record (m.pfs_storage) { context = ctx } }

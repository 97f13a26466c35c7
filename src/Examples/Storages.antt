-- ===== src/Examples/Storages.antt =====
-- The theorems on the managers of PFS storages and of transfers at concrete inputs.
use io_scheduler.Prelude.{◌≡◌, [], ℕ}
use io_scheduler.Prelude.Bytes.{codes}
use io_scheduler.Prelude.Map
use io_scheduler.Types.{
  PfsStorage, PfsContext, lustre, success, expected, unexpected, no_such_entity,
}
use io_scheduler.Metadata.{TransferMetadata}
use io_scheduler.Managers
use io_scheduler.Managers.{PfsManager, TransferManager}
use io_scheduler.Managers.Pfs.Contract
use io_scheduler.Managers.Pfs.Contract.{create-update-remove}

abbrev home : PfsContext
home = record { mount_point = codes "/home" }

abbrev scratch : PfsContext
scratch = record { mount_point = codes "/scratch" }

abbrev pfs_0 : PfsStorage
pfs_0 = record { type = lustre; name = codes "fs"; id = 0; context = home }

create-update-remove_example :
    (let m0 : PfsManager = Managers.Pfs.init in
      let m1 = (Managers.Pfs.create m0 lustre (codes "fs") home).0 in
      let m2 = (Managers.Pfs.update m1 0 scratch).0 in
      ((Managers.Pfs.create m0 lustre (codes "fs") home).1
        ≡ expected (record { pfs_storage = pfs_0 }))
      × (Managers.Pfs.find m1 0 ≡ expected (record { pfs_storage = pfs_0 }))
      × ((Managers.Pfs.update m1 0 scratch).1 ≡ success)
      × (Managers.Pfs.find m2 0
          ≡ expected (record { pfs_storage = record pfs_0 { context = scratch } }))
      × ((Managers.Pfs.remove m2 0).1 ≡ success)
      × (Managers.Pfs.find (Managers.Pfs.remove m2 0).0 0 ≡ unexpected no_such_entity))
unfolding Managers.Pfs.init Managers.Pfs.find Map.find
create-update-remove_example =
    create-update-remove Managers.Pfs.init Managers.Pfs.Contract.init-IsValid lustre (codes "fs")
      home scratch 0

abbrev transfer_0 : TransferMetadata ℕ ℕ
transfer_0 = record { id = 0; handle = 42; qos = []; measured_bandwidth = 1000 }

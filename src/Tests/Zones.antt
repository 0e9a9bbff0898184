-- ===== src/Tests/Zones.antt =====
-- The theorems on the manager of zones (src/include/utils.h), on a device of 32 zones with two slots each.
use lsm_based_on_zns_ssd.Base.{◌≡◌, arith, some, ap, ◌∙◌}
use lsm_based_on_zns_ssd.Zones.Reset.{manager_write_table}
use lsm_based_on_zns_ssd.Zones.Init.{Begins, memory_manager-Begins}
use lsm_based_on_zns_ssd.Zones.Placement.{place_of}
use lsm_based_on_zns_ssd.Zones.Write.{Places, place_table-Places, manager_write_table-Places}
use lsm_based_on_zns_ssd.Zones.Values.{Fetches, manager_get_value-Fetches}
use lsm_based_on_zns_ssd.Zones.Delete.{Deletes, manager_delete_table-Deletes}

memory_manager-Begins_example : Begins 2 16 4_294_967_296 32
memory_manager-Begins_example =
    memory_manager-Begins 2 1 16 4_294_967_296 (omega arith) (omega arith) (omega arith)
      (omega arith) (omega arith) (omega arith) (omega arith)

abbrev device : Begins 2 16 4_294_967_296 32
device =
    memory_manager-Begins 2 1 16 4_294_967_296 (omega arith) (omega arith) (omega arith)
      (omega arith) (omega arith) (omega arith) (omega arith)

manager_write_table-Places_example :
    (p : Places 2 0 5 device.m) × (manager_write_table 1 0 5 device.m ≡ some p.after)
manager_write_table-Places_example =
    manager_write_table-Places 2 0 5 device.m device.keeps 0 (omega arith) (device.no_table 0 5)
      (omega (arith, device.zones, device.left_empty))

abbrev written : Places 2 0 5 device.m
written =
    place_table-Places 2 0 5 device.m device.keeps (omega arith) (device.no_table 0 5)
      (omega (arith, device.zones, device.left_empty))

manager_get_value-Fetches_example :
    Fetches 2 0 5 20_000 40_000 written.slot
      (written.pending.0)
      written.after
      (written.keeps.pages.0)
manager_get_value-Fetches_example =
    manager_get_value-Fetches 2 0 5 20_000 40_000 written.slot written.after (written.keeps.pages.0)
      written.keeps (written.keeps.pages.1) (written.entry 0 5) (omega arith) (written.pending.0)
      (written.pending.1)

abbrev value_read :
    Fetches 2 0 5 20_000 40_000 written.slot
      (written.pending.0)
      written.after
      (written.keeps.pages.0)
value_read =
    manager_get_value-Fetches 2 0 5 20_000 40_000 written.slot written.after (written.keeps.pages.0)
      written.keeps (written.keeps.pages.1) (written.entry 0 5) (omega arith) (written.pending.0)
      (written.pending.1)

manager_delete_table-Deletes_example : Deletes 2 0 5 written.slot value_read.after
manager_delete_table-Deletes_example =
    manager_delete_table-Deletes 2 0 5 written.slot value_read.after value_read.keeps
      (ap (λ mapping. place_of mapping 0 5) value_read.same ∙ written.entry 0 5)
      (value_read.settled.0) (value_read.settled.1) (value_read.settled.2)

-- ===== src/Boot/Tests.antt =====
-- Runs of the boot guard: a flash of 16 MiB with two application slots.
use zectrix_note4_platform.Base.{[], ap, false, refl, replicate, true, ◌∷◌, ◌≡◌, ◌⊎◌}
use zectrix_note4_platform.Boot.{
  Partition, no_partition, BootInfo, overlaps, scan, verify_partitions, ok, ota_a, ota_b, ota_data,
  pending_verify, valid_image,
}
use zectrix_note4_platform.Boot.Layout.{Vouched, verify_partitions-Vouched}
use zectrix_note4_platform.Boot.Guard.{
  Guard, fresh, Answers, confirm_boot, select_update_target, pending, ready,
}
use zectrix_note4_platform.Boot.Guard.Watchdog.{
  run, Protected, fresh-Protected, begins, confirms_boot,
}
use zectrix_note4_platform.Boot.Guard.Protection.{
  Confirmed, Refused, confirm_boot-Confirmed, Selected, select_update_target-Selected,
}

abbrev slot_a : Partition
slot_a = record { kind = ota_a; address = 0x2_0000; size = 0x30_0000; readonly = false }

abbrev slot_b : Partition
slot_b = record { kind = ota_b; address = 0x32_0000; size = 0x30_0000; readonly = false }

abbrev boot_data : Partition
boot_data = record { kind = ota_data; address = 0xd000; size = 0x2000; readonly = false }

abbrev board : BootInfo
board = record {
  flash_bytes = 0x100_0000;
  partition_table_address = 0x8000;
  partitions = boot_data ∷ slot_a ∷ slot_b ∷ replicate 29 no_partition;
  partition_count = 3;
  running = slot_a;
  boot = slot_a;
  next_update = slot_b;
  image_state = pending_verify;
  rollback_available = true;
}

board-ok : verify_partitions board ≡ (ok, slot_b)
unfolding verify_partitions scan overlaps
board-ok = refl

verify_partitions-Vouched_example : Vouched board (verify_partitions board).1
verify_partitions-Vouched_example = verify_partitions-Vouched board (ap (λ r. r.0) board-ok)

abbrev healthy : Answers
healthy = record { now = 1000; later = 1200; armed = ok; read = ok; info = board; confirmed = ok }

abbrev on_trial : Guard
on_trial = record {
  status = record {
    running = slot_a;
    boot = slot_a;
    next_update = slot_b;
    image_state = pending_verify;
    layout_result = ok;
    confirmation_pending = true;
    rollback_available = true;
  };
  started_ms = 900;
  phase = pending;
}

fresh-Protected_example :
    Protected
      (run fresh [] (begins healthy ∷ confirms_boot healthy ∷ [])).0
      (run fresh [] (begins healthy ∷ confirms_boot healthy ∷ [])).1
fresh-Protected_example = fresh-Protected (begins healthy ∷ confirms_boot healthy ∷ [])

confirm_boot-Confirmed_example :
    ((confirm_boot on_trial healthy).0 ≡ ok)
      × Confirmed on_trial healthy (confirm_boot on_trial healthy)
    ⊎ Refused (confirm_boot on_trial healthy)
confirm_boot-Confirmed_example = confirm_boot-Confirmed on_trial healthy refl

abbrev settled : Answers
settled = record healthy { info = record board { image_state = valid_image } }

selected : (select_update_target (record on_trial { phase = ready }) settled 4096).0 ≡ ok
unfolding select_update_target verify_partitions scan overlaps
selected = refl

select_update_target-Selected_example :
    Selected
      (record on_trial { phase = ready })
      settled
      4096
      (select_update_target (record on_trial { phase = ready }) settled 4096).1
select_update_target-Selected_example =
    select_update_target-Selected (record on_trial { phase = ready }) settled 4096 selected

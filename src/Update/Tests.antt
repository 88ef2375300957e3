-- ===== src/Update/Tests.antt =====
-- Runs of a firmware transfer: 400 bytes in two chunks, to the board of the boot guard's tests.
use zectrix_note4_platform.Base.{
  List, [], arith, false, length, refl, replicate, true, ℕ, ◌++◌, ◌∷◌, ◌≡◌, ◌⊎◌,
}
use zectrix_note4_platform.Boot.{
  ota_a, ota_b, no_partition, BootInfo, ok, ota_data, valid_image, overlaps, scan,
  verify_partitions,
}
use zectrix_note4_platform.Boot.{
  verify_partitions, scan, overlaps, no_partition, BootInfo, ok, ota_a, ota_b, ota_data,
  valid_image,
}
use zectrix_note4_platform.Boot.Guard.{begin_boot, select_update_target, fresh}
use zectrix_note4_platform.Crc.{
  firmware_crc32, firmware_update, complement, firmware_bit, firmware_bits,
}
use zectrix_note4_platform.Update.{
  Service, no_firmware, Flash, write_firmware_chunk, commit_firmware, receiving, begin_firmware,
  write_rest, open_image,
}
use zectrix_note4_platform.Update.Receiving.{Receives, Fails, Takes}
use zectrix_note4_platform.Update.Chunk.{write_firmware_chunk-cases, Refuses}
use zectrix_note4_platform.Update.Transfer.{
  Seen, Call, run, IsReceived, boots, begins, writes, step,
}
use zectrix_note4_platform.Update.Commit.{Committed, Ended, commit_firmware-Committed}
use zectrix_note4_platform.Update.History.{run-IsReceived}

abbrev new_service : Service
new_service = record {
  boot = fresh;
  firmware = no_firmware;
  header = [];
  expected_crc32 = 0;
  received_crc32 = 0;
  image_open = false;
}

abbrev seen_nothing : Seen
seen_nothing = record { service = new_service; stream = []; image = [] }

seen_nothing-IsReceived : IsReceived seen_nothing
seen_nothing-IsReceived = record { receives = λ q. absurd (ground arith); closed = λ q. refl }

abbrev board : BootInfo
board = record {
  flash_bytes = 0x100_0000;
  partition_table_address = 0x8000;
  partitions =
      record { kind = ota_data; address = 0xd000; size = 0x2000; readonly = false }
      ∷ record { kind = ota_a; address = 0x2_0000; size = 0x30_0000; readonly = false }
      ∷ record { kind = ota_b; address = 0x32_0000; size = 0x30_0000; readonly = false }
      ∷ replicate 29 no_partition;
  partition_count = 3;
  running = record { kind = ota_a; address = 0x2_0000; size = 0x30_0000; readonly = false };
  boot = record { kind = ota_a; address = 0x2_0000; size = 0x30_0000; readonly = false };
  next_update = record { kind = ota_b; address = 0x32_0000; size = 0x30_0000; readonly = false };
  image_state = valid_image;
  rollback_available = true;
}

abbrev willing : Flash
willing = record {
  select = record { now = 10; later = 20; armed = ok; read = ok; info = board; confirmed = ok };
  begun = ok;
  header_written = ok;
  rest_written = ok;
  committed_image = ok;
}

abbrev first_half : List ℕ
first_half = replicate 200 7

abbrev second_half : List ℕ
second_half = replicate 200 9

abbrev transfer : List Call
transfer =
    boots willing
    ∷ begins willing 400 (firmware_crc32 (first_half ++ second_half) 0)
    ∷ writes willing 0 first_half (firmware_crc32 first_half 0)
    ∷ writes willing 200 second_half (firmware_crc32 second_half 0)
    ∷ []

-- The transfer ends with a commit that succeeds.
transfer-commits : (commit_firmware (run seen_nothing transfer).service willing).0 ≡ ok
unfolding run step begin_boot begin_firmware write_firmware_chunk write_rest open_image
    commit_firmware select_update_target verify_partitions scan overlaps firmware_crc32
    firmware_update firmware_bits firmware_bit complement
transfer-commits = refl

run-IsReceived_example : IsReceived (run seen_nothing transfer)
run-IsReceived_example =
    run-IsReceived seen_nothing transfer (tt, (omega arith, (tt, (tt, tt)))) seen_nothing-IsReceived

abbrev begun_transfer : Service
begun_transfer = record new_service {
  firmware = record {
    target = record { kind = ota_b; address = 0x32_0000; size = 0x30_0000; readonly = false };
    image_bytes = 400;
    received_bytes = 0;
    phase = receiving;
  };
}

begun-Receives : Receives begun_transfer [] []
unfolding firmware_crc32 firmware_update complement
begun-Receives = record {
  phase_now = refl;
  counted = refl;
  room = omega arith;
  word = omega arith;
  larger = omega arith;
  head = refl;
  checked = refl;
  opened = refl;
  written = λ q. refl;
}

write_firmware_chunk-cases_example :
    ((0 ≡ length {A = ℕ} [])
      × (firmware_crc32 (1 ∷ 2 ∷ []) 0 ≡ 77)
      × Takes ([] ++ 1 ∷ 2 ∷ []) [] (write_firmware_chunk begun_transfer willing 0 (1 ∷ 2 ∷ []) 77))
    ⊎ (Fails (write_firmware_chunk begun_transfer willing 0 (1 ∷ 2 ∷ []) 77)
        ⊎ Refuses begun_transfer (write_firmware_chunk begun_transfer willing 0 (1 ∷ 2 ∷ []) 77))
write_firmware_chunk-cases_example =
    write_firmware_chunk-cases begun_transfer willing 0 (1 ∷ 2 ∷ []) 77 [] [] begun-Receives

commit_firmware-Committed_example :
    ((commit_firmware (run seen_nothing transfer).service willing).0 ≡ ok)
      × Committed
          (run seen_nothing transfer)
          willing
          (commit_firmware (run seen_nothing transfer).service willing)
    ⊎ Ended
        (run seen_nothing transfer).service
        (commit_firmware (run seen_nothing transfer).service willing)
commit_firmware-Committed_example =
    commit_firmware-Committed (run seen_nothing transfer) willing run-IsReceived_example

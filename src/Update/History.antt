-- ===== src/Update/History.antt =====
-- Any history of a firmware service: while receiving, the flash holds what was accepted.
-- components/note4_update/note4_update_stream.cc.
use zectrix_note4_platform.Base.{
  All, Bool-cases, List, [], arith, false, inl, inr, leb, leb→lt, refl, sym, u32_mod, ℕ, ◌<◌, ◌||◌,
  ◌∷◌, ◌≡◌,
}
use zectrix_note4_platform.Boot.{is_ok, invalid_state}
use zectrix_note4_platform.Crc.{firmware_crc32, firmware_update, complement}
use zectrix_note4_platform.Boot.Guard.{Guard, select_update_target}
use zectrix_note4_platform.Update.{
  Service, Flash, Outcome, is_receiving, begin_firmware, write_firmware_chunk, commit_firmware,
  abort_firmware, firmware_header_bytes, is_committed,
}
use zectrix_note4_platform.Update.Bytes.{stored}
use zectrix_note4_platform.Update.Receiving.{Fails}
use zectrix_note4_platform.Update.Chunk.{write_firmware_chunk-cases}
use zectrix_note4_platform.Update.Transfer.{
  Seen, Call, note_begin, note_write, step, run, IsWord, IsReceived, boots, confirms_boot, begins,
  writes, commits, aborts,
}
use zectrix_note4_platform.Update.Commit.{commit_firmware-Committed}

Fails-IsReceived :
    (o : Outcome) (stream image : List ℕ)
    → Fails o
    → IsReceived (record { service = o.1; stream = stream; image = image })
Fails-IsReceived o stream image f = record {
  receives = λ q. absurd (ground (arith, f.phase_now));
  closed = λ q. f.closed;
}

-- A chunk outside a transfer is refused.
write_idle :
    (s : Service) (w : Flash) (offset : ℕ) (bytes : List ℕ) (crc : ℕ)
    → is_receiving s.firmware.phase ≡ false
    → write_firmware_chunk s w offset bytes crc ≡ (invalid_state, s, [])
unfolding write_firmware_chunk
write_idle s w offset bytes crc away = rw away refl

writes-IsReceived :
    (v : Seen) (w : Flash) (offset : ℕ) (bytes : List ℕ) (crc : ℕ)
    → IsReceived v
    → IsReceived (note_write v bytes (write_firmware_chunk v.service w offset bytes crc))
unfolding stored
writes-IsReceived v w offset bytes crc h =
    elim (Bool-cases (is_receiving v.service.firmware.phase)) [
      | inr away ↦ rw (write_idle v.service w offset bytes crc away) h
      | inl active ↦
          elim (write_firmware_chunk-cases v.service w offset bytes crc v.stream v.image
            (h.receives active)) [
              | inl (at, right, (done, r)) ↦
                  rw done (record {
                    receives = λ q. r;
                    closed = λ q. absurd (ground (arith, r.phase_now));
                  })
              | inr (inl gone) ↦
                  Fails-IsReceived (write_firmware_chunk v.service w offset bytes crc) _ _ gone
              | inr (inr kept) ↦ rw (kept.not_ok, kept.same, kept.no_effects) h
            ]
    ]

empty_crc : firmware_crc32 [] 0 ≡ 0
unfolding firmware_crc32 firmware_update complement
empty_crc = refl

begins-IsReceived :
    (v : Seen) (w : Flash) (size crc : ℕ)
    → size < u32_mod
    → IsReceived v
    → IsReceived (note_begin v (begin_firmware v.service w size crc))
unfolding begin_firmware stored
begins-IsReceived v w size crc word h =
    let chosen = select_update_target v.service.boot w.select size in
    elim (Bool-cases
      (is_receiving v.service.firmware.phase || is_committed v.service.firmware.phase)) [
        | inl busy ↦ rw busy h
        | inr free_now ↦ elim (Bool-cases (leb size firmware_header_bytes)) [
          | inl small ↦ rw (free_now, small) h
          | inr large ↦ elim (Bool-cases (is_ok chosen.0)) [
            | inr unavailable ↦ rw (free_now, large, unavailable, unavailable) h
            | inl available ↦
                let shut : v.service.image_open ≡ false = h.closed (ground arith) in
                rw (free_now, large, available)
                  (record {
                    receives = λ q. record {
                      phase_now = refl;
                      counted = refl;
                      room = omega arith;
                      word = word;
                      larger = leb→lt size firmware_header_bytes large;
                      head = refl;
                      checked = sym empty_crc;
                      opened = shut;
                      written = λ open_now. absurd (ground arith);
                    };
                    closed = λ q. shut;
                  })
          ]
        ]
      ]

-- A change of the boot guard alone.
boot_changed :
    (v : Seen) (g : Guard)
    → IsReceived v
    → IsReceived (record v { service = record v.service { boot = g } })
boot_changed v g h = record {
  receives = λ q.
      let r = h.receives q in
      record {
        phase_now = r.phase_now;
        counted = r.counted;
        room = r.room;
        word = r.word;
        larger = r.larger;
        head = r.head;
        checked = r.checked;
        opened = r.opened;
        written = r.written;
      };
  closed = h.closed;
}

commits-IsReceived : (v : Seen) (w : Flash) → IsReceived v → IsReceived (step v (commits w))
unfolding step stored
commits-IsReceived v w h = elim (commit_firmware-Committed v w h) [
  | inl (done, c) ↦ record {
    receives = λ q. absurd (ground (arith, c.phase_now));
    closed = λ q. c.shut;
  }
  | inr (inl gone) ↦ Fails-IsReceived (commit_firmware v.service w) v.stream _ gone
  | inr (inr kept) ↦ rw (kept.same, kept.no_effects) h
]

aborts-IsReceived : (v : Seen) → IsReceived v → IsReceived (step v aborts)
unfolding step abort_firmware
aborts-IsReceived v h = record { receives = λ q. absurd (ground arith); closed = λ q. refl }

step-IsReceived : (v : Seen) (c : Call) → IsWord c → IsReceived v → IsReceived (step v c)
unfolding step
step-IsReceived v (boots w) n h = boot_changed v _ h
step-IsReceived v (confirms_boot w) n h = boot_changed v _ h
step-IsReceived v (begins w size crc) n h = begins-IsReceived v w size crc n h
step-IsReceived v (writes w offset bytes crc) n h = writes-IsReceived v w offset bytes crc h
step-IsReceived v (commits w) n h = commits-IsReceived v w h
step-IsReceived v aborts n h = aborts-IsReceived v h

-- From a state where progress, CRC and flash agree with the accepted bytes, after any calls with 32-bit
-- image sizes and with any answers of the backend they agree again: while a transfer runs, the
-- progress is the number of bytes accepted since it began, the running CRC is theirs, and the flash
-- holds exactly them once the header is whole and the image open; and no image is open while no
-- transfer runs.
pub run-IsReceived :
    (v : Seen) (cs : List Call) → All IsWord cs → IsReceived v → IsReceived (run v cs)
unfolding run
run-IsReceived v [] n h = h
run-IsReceived v (c ∷ cs) n h = run-IsReceived (step v c) cs n.1 (step-IsReceived v c n.0 h)

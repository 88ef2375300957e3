-- ===== src/Update/Commit.antt =====
-- What a commit of `CommitFirmware`, components/note4_update/note4_update_stream.cc, vouches for.
use zectrix_note4_platform.Base.{
  ==_iff, Bool-cases, [], arith, false, inl, inr, leb, length, le→leb, refl, subst, sym, true, ◌==◌,
  ◌∙◌, ◌∷◌, ◌≡◌, ◌⊎◌,
}
use zectrix_note4_platform.Boot.{ok, is_ok, same_partition, invalid_layout, checksum_mismatch}
use zectrix_note4_platform.Boot.Guard.Protection.{
  Selected, is_ok-equal, select_update_target-Selected,
}
use zectrix_note4_platform.Boot.Scan.{same_partition-equal}
use zectrix_note4_platform.Crc.{firmware_crc32}
use zectrix_note4_platform.Boot.Guard.{select_update_target}
use zectrix_note4_platform.Boot.Guard.Protection.{
  Selected, is_ok-equal, select_update_target-Selected,
}
use zectrix_note4_platform.Update.{
  committed_outcome, Service, Flash, Outcome, is_receiving, commit_firmware, firmware_header_bytes,
  committed, commits_image,
}
use zectrix_note4_platform.Update.Receiving.{Fails, fail_firmware-Fails}
use zectrix_note4_platform.Update.Chunk.{Refuses}
use zectrix_note4_platform.Update.Transfer.{Seen, IsReceived}

-- What a commit that succeeds means.
pub record Committed (v : Seen) (w : Flash) (o : Outcome) : Type 0 where
  pub phase_now : o.1.firmware.phase ≡ committed
  pub shut : o.1.image_open ≡ false
  pub effects : o.2 ≡ commits_image v.service.expected_crc32 ∷ []
  pub complete : length v.stream ≡ v.service.firmware.image_bytes
  pub crc : firmware_crc32 v.stream 0 ≡ v.service.expected_crc32
  pub flash : v.image ≡ v.stream
  pub target :
      Selected v.service.boot w.select v.service.firmware.image_bytes v.service.firmware.target

abbrev pub Ended : Service → Outcome → Type 0
Ended s o = Fails o ⊎ Refuses s o

-- In a state where progress, CRC and flash agree with the accepted bytes, a commit either returns
-- `kOk`, and then the stream has the announced length and CRC, the flash holds exactly the stream, and
-- the target is still a vouched inactive slot that the image fits; or the transfer fails with no
-- image open; or the call is refused and changes nothing.
pub commit_firmware-Committed :
    (v : Seen) (w : Flash)
    → IsReceived v
    → ((commit_firmware v.service w).0 ≡ ok) × Committed v w (commit_firmware v.service w)
      ⊎ Ended v.service (commit_firmware v.service w)
unfolding commit_firmware
commit_firmware-Committed v w h =
    let s = v.service in
    let chosen = select_update_target s.boot w.select s.firmware.image_bytes in
    elim (Bool-cases (is_receiving s.firmware.phase)) [
      | inr away ↦ rw away (inr (inr (record { not_ok = refl; same = refl; no_effects = refl })))
      | inl active ↦ elim (Bool-cases (s.firmware.received_bytes == s.firmware.image_bytes)) [
        | inr short ↦
            rw (active, short)
              (inr (inr (record { not_ok = refl; same = refl; no_effects = refl })))
        | inl whole ↦ elim (Bool-cases (s.received_crc32 == s.expected_crc32)) [
          | inr wrong ↦
              rw (active, whole, wrong)
                (inr (inl (fail_firmware-Fails checksum_mismatch [] s refl)))
          | inl right ↦ elim (Bool-cases (is_ok chosen.0)) [
            | inr unavailable ↦
                rw (active, whole, right, unavailable)
                  (inr (inl (fail_firmware-Fails chosen.0 [] s unavailable)))
            | inl available ↦ elim (Bool-cases (same_partition chosen.1 s.firmware.target)) [
              | inr moved ↦
                  rw (active, whole, right, available, moved)
                    (inr (inl (fail_firmware-Fails invalid_layout [] s refl)))
              | inl still ↦ elim (Bool-cases (is_ok w.committed_image)) [
                | inr failed_commit ↦
                    rw (active, whole, right, available, still, failed_commit)
                      (inr (
                        inl (
                          fail_firmware-Fails w.committed_image
                            (commits_image s.expected_crc32 ∷ []) s failed_commit)))
                | inl done ↦
                    rw (active, whole, right, available, still, done)
                      (inl (refl, committed_now active whole right available still))
              ]
            ]
          ]
        ]
      ]
    ]
  where
    committed_now :
        is_receiving v.service.firmware.phase ≡ true
        → (v.service.firmware.received_bytes == v.service.firmware.image_bytes) ≡ true
        → (v.service.received_crc32 == v.service.expected_crc32) ≡ true
        → is_ok (select_update_target v.service.boot w.select v.service.firmware.image_bytes).0
          ≡ true
        → same_partition
            (select_update_target v.service.boot w.select v.service.firmware.image_bytes).1
            v.service.firmware.target
          ≡ true
        → Committed v w (committed_outcome v.service)
    committed_now active whole right available still =
        let r = h.receives active in
        let all : v.service.firmware.received_bytes ≡ v.service.firmware.image_bytes =
          (==_iff _ _).0 whole in
        let same_crc : v.service.received_crc32 ≡ v.service.expected_crc32 = (==_iff _ _).0 right in
        let long : leb firmware_header_bytes (length v.stream) ≡ true =
          le→leb firmware_header_bytes (length v.stream)
            (omega (arith, r.larger, r.counted, all)) in
        record {
          phase_now = refl;
          shut = refl;
          effects = refl;
          complete = sym r.counted ∙ all;
          crc = sym r.checked ∙ same_crc;
          flash = r.written (r.opened ∙ long);
          target =
              subst (λ p. Selected v.service.boot w.select v.service.firmware.image_bytes p)
                (same_partition-equal _ _ still)
                (select_update_target-Selected v.service.boot w.select
                  v.service.firmware.image_bytes (is_ok-equal _ available));
        }

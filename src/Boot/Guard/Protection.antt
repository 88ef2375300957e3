-- ===== src/Boot/Guard/Protection.antt =====
-- What is confirmed and what is handed out as an update target, by
-- components/note4_system/note4_boot_guard.cc.
use zectrix_note4_platform.Base.{
  Bool-cases, [], arith, false, inl, inr, leb, refl, subst, sym, true, ℕ, ◌<◌, ◌∷◌, ◌≡◌, ◌≤◌, ◌⊎◌,
}
use zectrix_note4_platform.Boot.{
  Partition, boot_confirmation_timeout_ms, Result, same_partition, known_good, BootInfo, factory,
  factory_image, ota_a, ota_b, valid_image, is_ok, since, verify_partitions, ok,
}
use zectrix_note4_platform.Boot.Scan.{Disjoint, same_partition-equal}
use zectrix_note4_platform.Boot.Layout.{Vouched, verify_partitions-Vouched}
use zectrix_note4_platform.Boot.Guard.{
  Guard, Answers, Outcome, confirmable, confirm_pending, confirm_boot, select_ready,
  select_update_target, pending, ready, failed, disarms, confirms,
}
use zectrix_note4_platform.Boot.Guard.Watchdog.{watchdog, confirm_boot-pending}

-- The image that is confirmed: nothing but the image that the guard booted, pending, in time.
pub record Confirmed (g : Guard) (w : Answers) (o : Outcome) : Type 0 where
  pub ready_now : o.1.phase ≡ ready
  pub effects : o.2 ≡ confirms g.status.running ok ∷ disarms ∷ []
  pub layout : Vouched w.info (verify_partitions w.info).1
  pub same_image : w.info.running ≡ g.status.running
  pub in_time : since g.started_ms w.later < boot_confirmation_timeout_ms
  pub written : is_ok w.confirmed ≡ true

pub record Refused (o : Outcome) : Type 0 where
  pub not_ok : is_ok o.0 ≡ false
  pub failed_now : o.1.phase ≡ failed
  pub still_armed : watchdog true o.2 ≡ true

pub is_ok-equal : (r : Result) → is_ok r ≡ true → r ≡ ok
is_ok-equal ok h = refl
is_ok-equal _ h = absurd (ground arith)

record Fine (g : Guard) (w : Answers) : Type 0 where
  checked : is_ok (verify_partitions w.info).0 ≡ true
  same : same_partition w.info.running g.status.running ≡ true
  early : leb boot_confirmation_timeout_ms (since g.started_ms w.later) ≡ false

confirmable-Fine : (g : Guard) (w : Answers) → is_ok (confirmable g w) ≡ true → Fine g w
confirmable-Fine g w h = record {
  checked = ground arith;
  same = ground arith;
  early = ground arith;
}

confirm_pending-Confirmed :
    (g : Guard) (w : Answers)
    → ((confirm_pending g w).0 ≡ ok) × Confirmed g w (confirm_pending g w)
      ⊎ Refused (confirm_pending g w)
unfolding watchdog
confirm_pending-Confirmed g w =
    elim (Bool-cases (leb boot_confirmation_timeout_ms (since g.started_ms w.now))) [
      | inl late ↦ rw late (inr (record { not_ok = refl; failed_now = refl; still_armed = refl }))
      | inr soon ↦ elim (Bool-cases (is_ok (confirmable g w))) [
        | inr refused ↦
            rw (soon, refused)
              (inr (record { not_ok = refused; failed_now = refl; still_armed = refl }))
        | inl fine ↦ elim (Bool-cases (is_ok w.confirmed)) [
          | inl written ↦
              let f = confirmable-Fine g w fine in
              rw (soon, fine, written)
                (inl (
                  refl,
                  record {
                    ready_now = refl;
                    effects = refl;
                    layout = verify_partitions-Vouched w.info (is_ok-equal _ f.checked);
                    same_image = same_partition-equal w.info.running g.status.running f.same;
                    in_time = ground (arith, f.early);
                    written = written;
                  },
                ))
          | inr unwritten ↦
              rw (soon, fine, unwritten)
                (inr (record { not_ok = unwritten; failed_now = refl; still_armed = refl }))
        ]
      ]
    ]

-- `ConfirmBoot` of a pending guard either returns `kOk`, and then the layout was vouched for, the
-- running image is the one the guard booted, the last reading of the clock is inside the limit, the
-- image was confirmed and only then the watchdog disarmed; or it returns an error, the guard has
-- failed and the watchdog stays armed.
pub confirm_boot-Confirmed :
    (g : Guard) (w : Answers)
    → g.phase ≡ pending
    → ((confirm_boot g w).0 ≡ ok) × Confirmed g w (confirm_boot g w) ⊎ Refused (confirm_boot g w)
confirm_boot-Confirmed g w at =
    subst (λ o. (o.0 ≡ ok) × Confirmed g w o ⊎ Refused o) (sym (confirm_boot-pending g w at))
      (confirm_pending-Confirmed g w)

-- The factory image, or a valid image in one of the two slots.
abbrev pub IsGood : BootInfo → Type 0
IsGood info =
    ((info.running.kind ≡ factory) × (info.image_state ≡ factory_image))
    ⊎ (((info.running.kind ≡ ota_a) ⊎ (info.running.kind ≡ ota_b))
        × (info.image_state ≡ valid_image))

known_good-IsGood : (info : BootInfo) → known_good info ≡ true → IsGood info
known_good-IsGood info h = ground arith

pub record Selected (g : Guard) (w : Answers) (image_bytes : ℕ) (target : Partition) : Type 0 where
  pub is_ready : g.phase ≡ ready
  pub good : IsGood w.info
  pub same_image : w.info.running ≡ g.status.running
  pub layout : Vouched w.info target
  pub fits : image_bytes ≤ target.size
  pub apart : Disjoint target g.status.running

select_ready-Selected :
    (g : Guard) (w : Answers) (image_bytes : ℕ)
    → g.phase ≡ ready
    → (select_ready g w image_bytes).0 ≡ ok
    → Selected g w image_bytes (select_ready g w image_bytes).1
select_ready-Selected g w image_bytes at h =
    let checked : (verify_partitions w.info).0 ≡ ok = ground arith in
    let layout = verify_partitions-Vouched w.info checked in
    let same = same_partition-equal w.info.running g.status.running (ground arith) in
    let target : select_ready g w image_bytes ≡ (ok, (verify_partitions w.info).1) = ground arith in
    rw target (record {
      is_ready = at;
      good = known_good-IsGood w.info (ground arith);
      same_image = same;
      layout = layout;
      fits = ground arith;
      apart = subst (λ p. Disjoint (verify_partitions w.info).1 p) same layout.apart;
    })

-- Where `SelectUpdateTarget` returns `kOk`, the guard is ready, the running image is the factory
-- image or a valid image in a slot and is the one it booted, and the target is a vouched slot that
-- the image fits, sharing no byte with the running image.
pub select_update_target-Selected :
    (g : Guard) (w : Answers) (image_bytes : ℕ)
    → (select_update_target g w image_bytes).0 ≡ ok
    → Selected g w image_bytes (select_update_target g w image_bytes).1
unfolding select_update_target
select_update_target-Selected g w image_bytes h =
    let at : g.phase ≡ ready = ground arith in
    let same : select_update_target g w image_bytes ≡ select_ready g w image_bytes = ground arith in
    rw same (select_ready-Selected g w image_bytes at (ground arith))

-- ===== src/Boot/Layout.antt =====
-- What `VerifyPartitions` of components/note4_system/note4_boot_guard.cc vouches for.
use zectrix_note4_platform.Base.{
  Bool, Bool-cases, List, Option-cases, [], arith, false, if◌then◌else◌, inl, inr, refl, some, sym,
  take, true, ◌%◌, ◌+◌, ◌<◌, ◌≡◌, ◌≢◌, ◌≤◌, ◌⊎◌,
}
use zectrix_note4_platform.Boot.{
  Partition, PartitionKind, same_kind, same_bool, same_partition, BootInfo, is_application, Slots,
  no_slots, end_of, is_misplaced, scan, has_bad_table, choose, judge, verify_partitions, ok, ota_a,
  ota_b,
}
use zectrix_note4_platform.Boot.Scan.{In, Disjoint, same_partition-equal, Scanned, scan-Scanned}

-- The update target that a layout vouches for.
pub record Vouched (info : BootInfo) (target : Partition) : Type 0 where
  pub listed : In target (take info.partition_count info.partitions)
  pub running_listed : In info.running (take info.partition_count info.partitions)
  pub is_slot : (target.kind ≡ ota_a) ⊎ (target.kind ≡ ota_b)
  pub inside : end_of target ≤ info.flash_bytes
  pub behind_table : info.partition_table_address + 0x1000 ≤ target.address
  pub aligned : target.address % 0x10000 ≡ 0
  pub not_empty : 0 < target.size
  pub writable : target.readonly ≡ false
  pub apart : Disjoint target info.running
  pub next : target ≡ info.next_update
  pub selected : info.running ≡ info.boot

-- What the tests behind the scan leave.
record Chosen (info : BootInfo) (a b : Partition) (s : Slots) (target : Partition) : Type 0 where
  one : (target ≡ a) ⊎ (target ≡ b)
  writable : target.readonly ≡ false
  found : s.running_found ≡ true
  selected : same_partition info.running info.boot ≡ true
  next : same_partition target info.next_update ≡ true
  not_running : same_partition target info.running ≡ false

abbrev inactive : BootInfo → Partition → Partition → Partition
inactive info a b = if same_kind info.running.kind ota_a then b else a

same_bool_refl : (b : Bool) → same_bool b b ≡ true
same_bool_refl true = refl
same_bool_refl false = refl

same_partition_refl : (p : Partition) → same_partition p p ≡ true
same_partition_refl p = ground (arith, same_bool_refl p.readonly)

aligned_slot :
    (info : BootInfo) (p : Partition)
    → is_misplaced info p ≡ false
    → is_application p.kind ≡ true
    → p.address % 0x10000 ≡ 0
aligned_slot info p good app = ground arith

slot_application : (k : PartitionKind) → (k ≡ ota_a) ⊎ (k ≡ ota_b) → is_application k ≡ true
slot_application k (inl e) = rw e refl
slot_application k (inr e) = rw e refl

choose-Chosen :
    (info : BootInfo) (a b d : Partition) (s : Slots)
    → (choose info a b d s).0 ≡ ok
    → Chosen info a b s (choose info a b d s).1
choose-Chosen info a b d s h =
    let chosen : choose info a b d s ≡ (ok, inactive info a b) = ground arith in
    let picked : (inactive info a b ≡ a) ⊎ (inactive info a b ≡ b) = ground arith in
    rw chosen (record {
      one = picked;
      writable = ground arith;
      found = ground arith;
      selected = ground arith;
      next = ground arith;
      not_running = ground arith;
    })

Chosen-Vouched :
    (info : BootInfo) (whole : List Partition) (s : Slots) (a b t : Partition)
    → Scanned info whole s
    → ((p : Partition) → In p whole → In p (take info.partition_count info.partitions))
    → s.a ≡ some a
    → s.b ≡ some b
    → Chosen info a b s t
    → Vouched info t
Chosen-Vouched info whole s a b t v from at_a at_b c = record {
  listed = from t seen.0;
  running_listed = from info.running running_seen;
  is_slot = seen.1;
  inside = ground (arith, good);
  behind_table = ground (arith, good);
  aligned = aligned_slot info t good (slot_application t.kind seen.1);
  not_empty = ground (arith, good);
  writable = c.writable;
  apart = elim (v.apart t info.running seen.0 running_seen) [
    | inl same ↦ absurd (not_same same)
    | inr d ↦ d
  ];
  next = same_partition-equal t info.next_update c.next;
  selected = same_partition-equal info.running info.boot c.selected;
}
  where
    seen : In t whole × ((t.kind ≡ ota_a) ⊎ (t.kind ≡ ota_b))
    seen = elim c.one [
      | inl is_a ↦ let (m, k) = v.at_a a at_a in rw is_a (m, inl k)
      | inr is_b ↦ let (m, k) = v.at_b b at_b in rw is_b (m, inr k)
    ]

    running_seen : In info.running whole
    running_seen = v.at_running c.found

    good : is_misplaced info t ≡ false
    good = v.placed t seen.0

    not_same : t ≢ info.running
    not_same e =
        let itself : same_partition t info.running ≡ true = rw (sym e) (same_partition_refl t) in
        absurd (ground (arith, itself, c.not_running))

judged :
    (info : BootInfo) (whole : List Partition) (s : Slots)
    → Scanned info whole s
    → ((p : Partition) → In p whole → In p (take info.partition_count info.partitions))
    → (judge info (some s)).0 ≡ ok
    → Vouched info (judge info (some s)).1
judged info whole s v from h = elim (Option-cases s.a) [
  | inl no_a ↦ absurd (ground arith)
  | inr (a, at_a) ↦ elim (Option-cases s.b) [
    | inl no_b ↦ absurd (ground arith)
    | inr (b, at_b) ↦ elim (Option-cases s.data_slot) [
      | inl no_data ↦ absurd (ground arith)
      | inr (d, at_d) ↦
          let chosen : judge info (some s) ≡ choose info a b d s = ground arith in
          rw chosen (
            Chosen-Vouched info whole s a b (choose info a b d s).1 v from at_a at_b
              (choose-Chosen info a b d s (ground arith)))
    ]
  ]
]

nothing_seen : (info : BootInfo) → Scanned info [] no_slots
nothing_seen info = record {
  placed = λ p m. absurd m;
  apart = λ p q m n. absurd m;
  at_a = λ p e. absurd (cc);
  at_b = λ p e. absurd (cc);
  at_running = λ e. absurd (cc);
}

-- Where `VerifyPartitions` returns `kOk`, the target is a listed, writable, non-empty OTA slot behind
-- the partition table and inside flash, on a 64 KiB boundary; it shares no byte with the running
-- image, which is listed and is the one selected for boot; and it is the one that the bootloader's
-- next update names.
pub verify_partitions-Vouched :
    (info : BootInfo) → (verify_partitions info).0 ≡ ok → Vouched info (verify_partitions info).1
unfolding verify_partitions
verify_partitions-Vouched info h = elim (Bool-cases (has_bad_table info)) [
  | inl bad ↦ absurd (ground arith)
  | inr good ↦
      elim (Option-cases (scan info [] (take info.partition_count info.partitions) no_slots)) [
        | inl refused ↦ absurd (ground arith)
        | inr (s, scanned) ↦
            let (whole, v, from) =
              scan-Scanned info [] (take info.partition_count info.partitions) no_slots s
                (nothing_seen info) scanned in
            rw (good, scanned)
              (judged info whole s v
                (λ p m. elim (from p m) [
                  | inl none_before ↦ absurd none_before
                  | inr listed ↦ listed
                ])
                (ground arith))
      ]
]

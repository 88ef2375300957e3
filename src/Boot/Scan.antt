-- ===== src/Boot/Scan.antt =====
-- The scan of the partitions in components/note4_system/note4_boot_guard.cc: every partition seen is
-- in the right place, and no two overlap.
use zectrix_note4_platform.Base.{
  Bool, Bool-cases, List, Option-cases, [], ap, arith, false, if◌then◌else◌, inl, inr, refl, some,
  subst, sym, true, ℕ, ◌==◌, ◌||◌, ◌∙◌, ◌∷◌, ◌≡◌, ◌≤◌, ◌⊎◌,
}
use zectrix_note4_platform.Boot.{
  Partition, PartitionKind, kind_code, same_kind, same_bool, same_partition, BootInfo, Slots,
  end_of, is_misplaced, overlaps, fill, note_running, scan, other, factory, ota_a, ota_b, ota_data,
  other_ota,
}

-- One of a list.
abbrev pub In : Partition → List Partition → Type 0
In p [] = ⊥
In p (q ∷ qs) = (p ≡ q) ⊎ In p qs

-- No byte of flash belongs to both.
abbrev pub Disjoint : Partition → Partition → Type 0
Disjoint p q = (end_of p ≤ q.address) ⊎ (end_of q ≤ p.address)

kind_of : ℕ → PartitionKind
kind_of n =
    if n == 0
    then other
    else if n == 1
    then factory
    else if n == 2
    then ota_a
    else if n == 3
    then ota_b
    else if n == 4
    then ota_data
    else other_ota

kind_of-kind_code : (k : PartitionKind) → kind_of (kind_code k) ≡ k
unfolding kind_of
kind_of-kind_code other = refl
kind_of-kind_code factory = refl
kind_of-kind_code ota_a = refl
kind_of-kind_code ota_b = refl
kind_of-kind_code ota_data = refl
kind_of-kind_code other_ota = refl

pub same_kind-equal : (a b : PartitionKind) → same_kind a b ≡ true → a ≡ b
same_kind-equal a b h =
    let codes : kind_code a ≡ kind_code b = ground arith in
    sym (kind_of-kind_code a) ∙ ap kind_of codes ∙ kind_of-kind_code b

same_bool-equal : (a b : Bool) → same_bool a b ≡ true → a ≡ b
same_bool-equal true b h = sym h
same_bool-equal false true h = absurd (ground arith)
same_bool-equal false false h = refl

pub same_partition-equal : (p q : Partition) → same_partition p q ≡ true → p ≡ q
same_partition-equal p q h =
    let kinds = same_kind-equal p.kind q.kind (ground arith) in
    let addresses : p.address ≡ q.address = ground arith in
    let sizes : p.size ≡ q.size = ground arith in
    let flags = same_bool-equal p.readonly q.readonly (ground arith) in cc

overlaps-Disjoint :
    (p q : Partition) (qs : List Partition) → overlaps p qs ≡ false → In q qs → Disjoint p q
unfolding overlaps
overlaps-Disjoint p q [] h m = absurd m
overlaps-Disjoint p q (r ∷ rs) h (inl same) = rw same (ground arith)
overlaps-Disjoint p q (r ∷ rs) h (inr m) = overlaps-Disjoint p q rs (ground arith) m

-- What the scan knows of the partitions that it has seen.
pub record Scanned (info : BootInfo) (seen : List Partition) (s : Slots) : Type 0 where
  pub placed : (p : Partition) → In p seen → is_misplaced info p ≡ false
  pub apart : (p q : Partition) → In p seen → In q seen → (p ≡ q) ⊎ Disjoint p q
  pub at_a : (p : Partition) → s.a ≡ some p → In p seen × (p.kind ≡ ota_a)
  pub at_b : (p : Partition) → s.b ≡ some p → In p seen × (p.kind ≡ ota_b)
  pub at_running : s.running_found ≡ true → In info.running seen

fill-a :
    (p q : Partition) (s s' : Slots)
    → fill p s ≡ some s'
    → s'.a ≡ some q
    → (s.a ≡ some q) ⊎ ((p ≡ q) × (p.kind ≡ ota_a))
fill-a p q s s' f h = ground arith

fill-b :
    (p q : Partition) (s s' : Slots)
    → fill p s ≡ some s'
    → s'.b ≡ some q
    → (s.b ≡ some q) ⊎ ((p ≡ q) × (p.kind ≡ ota_b))
fill-b p q s s' f h = ground arith

fill-running :
    (p : Partition) (s s' : Slots) → fill p s ≡ some s' → s'.running_found ≡ s.running_found
fill-running p s s' f = ground arith

swap : (q r p : Partition) → r ≡ p → Disjoint p q → Disjoint q r
swap q r p same d = rw same (ground arith)

Scanned-more :
    (info : BootInfo) (seen : List Partition) (s s' : Slots) (p : Partition)
    → Scanned info seen s
    → is_misplaced info p || overlaps p seen ≡ false
    → fill p s ≡ some s'
    → Scanned info (p ∷ seen) (note_running info p s')
Scanned-more info seen s s' p v h f = record {
  placed = λ q m. elim m [ inl same ↦ rw same (ground arith) | inr before ↦ v.placed q before ];
  apart = λ q r m n. elim m [
    | inl same ↦ elim n [
      | inl same' ↦ inl (same ∙ sym same')
      | inr before ↦ inr (rw same (overlaps-Disjoint p r seen (ground arith) before))
    ]
    | inr before ↦ elim n [
      | inl same' ↦ inr (swap q r p same' (overlaps-Disjoint p q seen (ground arith) before))
      | inr before' ↦ v.apart q r before before'
    ]
  ];
  at_a = λ q e. elim (fill-a p q s s' f (ground arith)) [
    | inl old ↦ let (m, k) = v.at_a q old in (inr m, k)
    | inr (same, k) ↦ (inl (sym same), subst (λ x. x.kind ≡ ota_a) same k)
  ];
  at_b = λ q e. elim (fill-b p q s s' f (ground arith)) [
    | inl old ↦ let (m, k) = v.at_b q old in (inr m, k)
    | inr (same, k) ↦ (inl (sym same), subst (λ x. x.kind ≡ ota_b) same k)
  ];
  at_running = λ e. elim (Bool-cases (same_partition p info.running)) [
    | inl same ↦ inl (sym (same_partition-equal p info.running same))
    | inr differs ↦ inr (v.at_running (ground (arith, fill-running p s s' f)))
  ];
}

scan-step :
    (info : BootInfo) (seen ps : List Partition) (s s1 : Slots) (p : Partition)
    → is_misplaced info p || overlaps p seen ≡ false
    → fill p s ≡ some s1
    → scan info seen (p ∷ ps) s ≡ scan info (p ∷ seen) ps (note_running info p s1)
unfolding scan
scan-step info seen ps s s1 p good filled = rw (scan, good, filled) refl

-- Every partition seen is in the right place and no two overlap.
pub scan-Scanned :
    (info : BootInfo) (seen ps : List Partition) (s s' : Slots)
    → Scanned info seen s
    → scan info seen ps s ≡ some s'
    → (whole : List Partition) × Scanned info whole s'
      × ((p : Partition) → In p whole → In p seen ⊎ In p ps)
unfolding scan
scan-Scanned info seen [] s s' v h =
    let same : s ≡ s' = ground arith in
    (seen, subst (λ x. Scanned info seen x) same v, λ p m. inl m)
scan-Scanned info seen (p ∷ ps) s s' v h =
    elim (Bool-cases (is_misplaced info p || overlaps p seen)) [
      | inl bad ↦ absurd (ground arith)
      | inr good ↦ elim (Option-cases (fill p s)) [
        | inl twice ↦ absurd (ground arith)
        | inr (s1, filled) ↦
            let (whole, w, from) =
              scan-Scanned info (p ∷ seen) ps (note_running info p s1) s'
                (Scanned-more info seen s s1 p v good filled)
                (sym (scan-step info seen ps s s1 p good filled) ∙ h) in
            (
              whole,
              w,
              λ q m. elim (from q m) [
                | inl (inl same) ↦ inr (inl same)
                | inl (inr before) ↦ inl before
                | inr after ↦ inr (inr after)
              ],
            )
      ]
    ]

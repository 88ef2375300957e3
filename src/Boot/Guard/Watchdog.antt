-- ===== src/Boot/Guard/Watchdog.antt =====
-- The watchdog over any history of calls of the boot guard.

use zectrix_note4_platform.Base.{
  Bool, Bool-cases, List, [], ap, arith, false, inl, inr, leb, refl, subst, sym, true, ℕ, ◌++◌, ◌+◌,
  ◌<◌, ◌∷◌, ◌≡◌, ◌≤◌, ◌⊎◌,
}
use zectrix_note4_platform.Boot.Guard.{
  invalid_state, since, boot_confirmation_timeout_ms, is_ok, ok, Guard, Phase, Answers, Effect,
  Outcome, begin_boot, confirm_boot, initial, pending, ready, failed, arms, disarms, confirms,
  fresh, confirmable, confirm_pending,
}

pub data Call : Type 0 where
  begins confirms_boot : Answers → Call

pub call : Guard → Call → Outcome
call g (begins w) = begin_boot g w
call g (confirms_boot w) = confirm_boot g w

-- The guard with all that it has asked for.
pub run : Guard → List Effect → List Call → Guard × List Effect
run g trace [] = (g, trace)
run g trace (c ∷ cs) = run (call g c).1 (trace ++ (call g c).2) cs

-- The watchdog after the effects, in their order.
unfoldable pub watchdog : Bool → List Effect → Bool
watchdog armed [] = armed
watchdog armed (arms ms ∷ es) = watchdog true es
watchdog armed (disarms ∷ es) = watchdog false es
watchdog armed (confirms p r ∷ es) = watchdog armed es

-- How often a confirmation was asked for.
pub confirmations : List Effect → ℕ
confirmations [] = 0
confirmations (arms ms ∷ es) = confirmations es
confirmations (disarms ∷ es) = confirmations es
confirmations (confirms p r ∷ es) = confirmations es + 1

abbrev pub guards : Phase → Bool
guards pending = true
guards failed = true
guards initial = false
guards ready = false

abbrev is_open : Phase → Bool
is_open initial = true
is_open pending = true
is_open ready = false
is_open failed = false

-- The watchdog is armed just while the image is on trial or has failed, and the running image is
-- confirmed at most once, never before the trial ends.
pub record Protected (g : Guard) (trace : List Effect) : Type 0 where
  pub armed : watchdog false trace ≡ guards g.phase
  pub once : confirmations trace ≤ 1
  pub none_yet : is_open g.phase ≡ true → confirmations trace ≡ 0

watchdog-append :
    (armed : Bool) (es es' : List Effect)
    → watchdog armed (es ++ es') ≡ watchdog (watchdog armed es) es'
unfolding watchdog
watchdog-append armed [] es' = refl
watchdog-append armed (arms ms ∷ es) es' = watchdog-append true es es'
watchdog-append armed (disarms ∷ es) es' = watchdog-append false es es'
watchdog-append armed (confirms p r ∷ es) es' = watchdog-append armed es es'

confirmations-append :
    (es es' : List Effect) → confirmations (es ++ es') ≡ confirmations es + confirmations es'
unfolding confirmations
confirmations-append [] es' = omega arith
confirmations-append (arms ms ∷ es) es' = confirmations-append es es'
confirmations-append (disarms ∷ es) es' = confirmations-append es es'
confirmations-append (confirms p r ∷ es) es' = omega (arith, confirmations-append es es')

abbrev is_pending : Phase → Bool
is_pending pending = true
is_pending _ = false

-- What one call adds.
record Adds (g g' : Guard) (es : List Effect) : Type 0 where
  armed : watchdog (guards g.phase) es ≡ guards g'.phase
  few : confirmations es ≤ 1
  asked : 0 < confirmations es → (is_open g.phase ≡ true) × (is_open g'.phase ≡ false)
  opened : is_open g'.phase ≡ true → is_open g.phase ≡ true

begin_boot-Adds : (g : Guard) (w : Answers) → Adds g (begin_boot g w).1 (begin_boot g w).2
unfolding begin_boot watchdog confirmations
begin_boot-Adds g w = ground arith

confirm_pending-Adds :
    (g : Guard) (w : Answers)
    → g.phase ≡ pending
    → Adds g (confirm_pending g w).1 (confirm_pending g w).2
unfolding watchdog confirmations
confirm_pending-Adds g w at =
    elim (Bool-cases (leb boot_confirmation_timeout_ms (since g.started_ms w.now))) [
      | inl late ↦ rw late (ground arith)
      | inr soon ↦ elim (Bool-cases (is_ok (confirmable g w))) [
        | inr refused ↦ rw (soon, refused) (ground arith)
        | inl fine ↦ elim (Bool-cases (is_ok w.confirmed)) [
          | inl written ↦ rw (soon, fine, written) (ground arith)
          | inr unwritten ↦ rw (soon, fine, unwritten) (ground arith)
        ]
      ]
    ]

phase-cases : (p : Phase) → (p ≡ pending) ⊎ (is_pending p ≡ false)
phase-cases pending = inl refl
phase-cases initial = inr refl
phase-cases ready = inr refl
phase-cases failed = inr refl

pub confirm_boot-pending :
    (g : Guard) (w : Answers) → g.phase ≡ pending → confirm_boot g w ≡ confirm_pending g w
unfolding confirm_boot
confirm_boot-pending g w at =
    ap
      (λ p. elim p [
        | ready ↦ (ok, g, [])
        | pending ↦ confirm_pending g w
        | initial ↦ (invalid_state, g, [])
        | failed ↦ (invalid_state, g, [])
      ])
      at

confirm_boot_idle :
    (g : Guard) (w : Answers)
    → is_pending g.phase ≡ false
    → ((confirm_boot g w).1 ≡ g) × ((confirm_boot g w).2 ≡ [])
unfolding confirm_boot
confirm_boot_idle g w away = ground arith

confirm_boot-Adds : (g : Guard) (w : Answers) → Adds g (confirm_boot g w).1 (confirm_boot g w).2
unfolding watchdog confirmations
confirm_boot-Adds g w = elim (phase-cases g.phase) [
  | inl at ↦
      subst (λ o. Adds g o.1 o.2) (sym (confirm_boot-pending g w at)) (confirm_pending-Adds g w at)
  | inr away ↦ let (a, b) = confirm_boot_idle g w away in rw (a, b) (ground arith)
]

call-Adds : (g : Guard) (c : Call) → Adds g (call g c).1 (call g c).2
unfolding call
call-Adds g (begins w) = begin_boot-Adds g w
call-Adds g (confirms_boot w) = confirm_boot-Adds g w

Adds-Protected :
    (g g' : Guard) (trace es : List Effect)
    → Protected g trace
    → Adds g g' es
    → Protected g' (trace ++ es)
Adds-Protected g g' trace es v a = record {
  armed = ground (arith, watchdog-append false trace es, v.armed, a.armed);
  once = ground (arith, confirmations-append trace es, v.once, v.none_yet, a.few, a.asked);
  none_yet = λ q. ground (arith, confirmations-append trace es, v.none_yet, a.asked, a.opened q);
}

run-Protected :
    (g : Guard) (trace : List Effect) (cs : List Call)
    → Protected g trace
    → Protected (run g trace cs).0 (run g trace cs).1
unfolding run
run-Protected g trace [] v = v
run-Protected g trace (c ∷ cs) v =
    run-Protected (call g c).1 (trace ++ (call g c).2) cs
      (Adds-Protected g (call g c).1 trace (call g c).2 v (call-Adds g c))

-- After any calls of `BeginBoot` and `ConfirmBoot` on a fresh guard, whatever the backend answers,
-- the watchdog that was asked for is armed exactly while the guard is pending or failed, and the
-- backend was asked at most once to confirm the running image, and never while the guard is
-- still initial or pending.
pub fresh-Protected : (cs : List Call) → Protected (run fresh [] cs).0 (run fresh [] cs).1
unfolding watchdog confirmations
fresh-Protected cs =
    run-Protected fresh [] cs (record { armed = refl; once = omega arith; none_yet = λ q. refl })

-- ===== src/Services/Lifecycle.antt =====
-- A start that fails is undone in reverse order. components/note4_platform/note4_service_registry.cc.
use zectrix_note4_platform.Base.{
  All, Bool-cases, List, [], ap, append-nil, arith, false, if◌then◌else◌, inl, inr, refl, sym, true,
  ℕ, ◌++◌, ◌∙◌, ◌∷◌, ◌≡◌, ◌⊎◌,
}
use zectrix_note4_platform.Services.{
  Registry, Result, Entry, Callbacks, Effect, is_ok, start_service, start_entries, stop_entries,
  stop_entered, start_all, configuring, running, stopped, inits, starts, stops,
}

abbrev pub backwards : List ℕ → List ℕ
backwards [] = []
backwards (x ∷ xs) = backwards xs ++ x ∷ []

-- The services in the order of their `Init`, and in that of their `Stop`.
unfoldable pub inited : List Effect → List ℕ
inited [] = []
inited (inits x ∷ es) = x ∷ inited es
inited (starts x ∷ es) = inited es
inited (stops x ∷ es) = inited es

unfoldable pub stopped_of : List Effect → List ℕ
stopped_of [] = []
stopped_of (inits x ∷ es) = stopped_of es
stopped_of (starts x ∷ es) = stopped_of es
stopped_of (stops x ∷ es) = x ∷ stopped_of es

inited-append : (es es' : List Effect) → inited (es ++ es') ≡ inited es ++ inited es'
unfolding inited
inited-append [] es' = refl
inited-append (inits x ∷ es) es' = ap (λ xs. x ∷ xs) (inited-append es es')
inited-append (starts x ∷ es) es' = inited-append es es'
inited-append (stops x ∷ es) es' = inited-append es es'

stopped_of-append :
    (es es' : List Effect) → stopped_of (es ++ es') ≡ stopped_of es ++ stopped_of es'
unfolding stopped_of
stopped_of-append [] es' = refl
stopped_of-append (inits x ∷ es) es' = stopped_of-append es es'
stopped_of-append (starts x ∷ es) es' = stopped_of-append es es'
stopped_of-append (stops x ∷ es) es' = ap (λ xs. x ∷ xs) (stopped_of-append es es')

-- The services that were entered, in the order of the entries.
entered_of : List Entry → List ℕ
entered_of [] = []
entered_of (e ∷ es) = if e.entered then e.service ∷ entered_of es else entered_of es

abbrev pub IsDown : Entry → Type 0
IsDown e = (e.entered ≡ false) × (e.is_running ≡ false)

-- Entered and running, and every callback has succeeded.
abbrev pub IsUp : (ℕ → Callbacks) → Entry → Type 0
IsUp callbacks e =
    (e.entered ≡ true)
    × (e.is_running ≡ true)
    × ((callbacks e.service).init ≡ 0)
    × ((callbacks e.service).start ≡ 0)
    × ((callbacks e.service).has_interface ≡ true)

start_service-succeeds :
    (c : Callbacks) (x : ℕ)
    → is_ok (start_service c x).0 ≡ true
    → (c.init ≡ 0) × (c.start ≡ 0) × (c.has_interface ≡ true)
unfolding start_service
start_service-succeeds c x h = (ground arith, ground arith, ground arith)

-- `Init` was called once, and nothing was stopped.
start_service-effects :
    (c : Callbacks) (x : ℕ)
    → (inited (start_service c x).1 ≡ x ∷ []) × (stopped_of (start_service c x).1 ≡ [])
unfolding start_service inited stopped_of
start_service-effects c x = ground arith

entered_of-down : (es : List Entry) → All IsDown es → entered_of es ≡ []
unfolding entered_of
entered_of-down [] h = refl
entered_of-down (e ∷ es) h = let down = h.0.0 in rw down (entered_of-down es h.1)

record Begun (callbacks : ℕ → Callbacks) (o : Result × List Entry × List Effect) : Type 0 where
  order : entered_of o.1 ≡ inited o.2
  none_stopped : stopped_of o.2 ≡ []
  all_up : is_ok o.0 ≡ true → All (IsUp callbacks) o.1

start_entries-Begun :
    (callbacks : ℕ → Callbacks) (es : List Entry)
    → All IsDown es
    → Begun callbacks (start_entries callbacks es)
unfolding start_entries entered_of inited stopped_of
start_entries-Begun callbacks [] h = record { order = refl; none_stopped = refl; all_up = λ q. tt }
start_entries-Begun callbacks (e ∷ es) h =
    let one = start_service (callbacks e.service) e.service in
    let (began, kept) = start_service-effects (callbacks e.service) e.service in
    let rest = start_entries-Begun callbacks es h.1 in
    let succeeds = start_service-succeeds (callbacks e.service) e.service in
    elim (Bool-cases (is_ok one.0)) [
      | inl fine ↦ rw fine (record {
        order = sym (
            inited-append one.1 (start_entries callbacks es).2
            ∙ ap (λ xs. xs ++ inited (start_entries callbacks es).2) began
            ∙ ap (λ xs. e.service ∷ xs) (sym rest.order));
        none_stopped =
            stopped_of-append one.1 (start_entries callbacks es).2
            ∙ ap (λ xs. xs ++ stopped_of (start_entries callbacks es).2) kept
            ∙ rest.none_stopped;
        all_up = λ q.
            ((refl, refl, (succeeds fine).0, (succeeds fine).1, (succeeds fine).2), rest.all_up q);
      })
      | inr bad ↦ rw bad (record {
        order = ap (λ xs. e.service ∷ xs) (entered_of-down es h.1) ∙ sym began;
        none_stopped = kept;
        all_up = λ q. absurd (ground (arith, bad, q));
      })
    ]

record Ended (es : List Entry) (o : Result × List Entry × List Effect) : Type 0 where
  order : stopped_of o.2 ≡ backwards (entered_of es)
  none_inited : inited o.2 ≡ []
  all_out : All (λ e. e.entered ≡ false) o.1

stop_entries-Ended :
    (callbacks : ℕ → Callbacks) (es : List Entry) → Ended es (stop_entries callbacks es)
unfolding stop_entries entered_of inited stopped_of
stop_entries-Ended callbacks [] = record { order = refl; none_inited = refl; all_out = tt }
stop_entries-Ended callbacks (e ∷ es) =
    let rest = stop_entries-Ended callbacks es in
    elim (Bool-cases e.entered) [
      | inl inside ↦ rw inside (record {
        order =
            stopped_of-append (stop_entries callbacks es).2 (stops e.service ∷ [])
            ∙ ap (λ xs. xs ++ e.service ∷ []) rest.order;
        none_inited =
            inited-append (stop_entries callbacks es).2 (stops e.service ∷ [])
            ∙ ap (λ xs. xs ++ []) rest.none_inited;
        all_out = (refl, rest.all_out);
      })
      | inr outside ↦ rw outside (record {
        order = rest.order;
        none_inited = rest.none_inited;
        all_out = (refl, rest.all_out);
      })
    ]

-- The two ends of a start.
pub record Started (callbacks : ℕ → Callbacks) (o : Result × Registry × List Effect) : Type 0 where
  pub now : o.1.phase ≡ running
  pub up : All (IsUp callbacks) o.1.entries
  pub unstopped : stopped_of o.2 ≡ []

pub record Undone (o : Result × Registry × List Effect) : Type 0 where
  pub now : o.1.phase ≡ stopped
  pub out : All (λ e. e.entered ≡ false) o.1.entries
  pub reverse_order : stopped_of o.2 ≡ backwards (inited o.2)

-- `StartAll` of a registry that is being configured, with no service entered, either succeeds,
-- and then every service is entered and running, its `Init`, its `Start` and the request for its
-- interface have succeeded, and none was stopped; or it fails, and
-- then no service is entered any more, and exactly the services whose `Init` was called were
-- stopped, in the reverse order.
pub start_all-Started :
    (callbacks : ℕ → Callbacks) (r : Registry)
    → r.phase ≡ configuring
    → All IsDown r.entries
    → (is_ok (start_all callbacks r).0 ≡ true) × Started callbacks (start_all callbacks r)
      ⊎ (is_ok (start_all callbacks r).0 ≡ false) × Undone (start_all callbacks r)
unfolding start_all stop_entered
start_all-Started callbacks r at down =
    let begun = start_entries-Begun callbacks r.entries down in
    let undone = stop_entries-Ended callbacks (start_entries callbacks r.entries).1 in
    let es = (start_entries callbacks r.entries).2 in
    let es' = (stop_entries callbacks (start_entries callbacks r.entries).1).2 in
    elim (Bool-cases (is_ok (start_entries callbacks r.entries).0)) [
      | inl fine ↦
          rw (at, fine)
            (inl
              (refl, record { now = refl; up = begun.all_up fine; unstopped = begun.none_stopped }))
      | inr bad ↦
          let stops_here =
            stopped_of-append es es'
            ∙ ap (λ xs. xs ++ stopped_of es') begun.none_stopped
            ∙ undone.order
            ∙ ap backwards begun.order in
          let inits_here =
            inited-append es es'
            ∙ ap (λ xs. inited es ++ xs) undone.none_inited
            ∙ append-nil (inited es) in
          rw (at, bad)
            (inr (
              bad,
              record {
                now = refl;
                out = undone.all_out;
                reverse_order = stops_here ∙ sym (ap backwards inits_here);
              },
            ))
    ]

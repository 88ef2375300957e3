-- ===== src/Button/Retention.antt =====
-- What the buffer keeps and what it gives up.
use zectrix_note4_platform.Base.{
  ==_iff, All, Bool, Bool-cases, Option-cases, [], ap, arith, false, inl, inr, length, none, refl,
  some, true, ℕ, ◌++◌, ◌==◌, ◌∷◌, ◌≡◌, ◌≢◌, ◌⊎◌,
}
use zectrix_note4_platform.Button.{
  Event, Buffer, capacity, is_click, is_long_press, is_wake, is_direction, is_shutdown, newest,
  erase, victim, push_full, is_closed, push,
}

abbrev pub None : (Event → Bool) → Buffer → Type 0
None p = All (λ e. p e ≡ false)

-- The last event that `p` holds of stands at index `i`.
abbrev pub Slot : (Event → Bool) → Buffer → ℕ → Type 0
Slot p es i =
    (before : Buffer) × (x : Event) × (after : Buffer) × (es ≡ before ++ x ∷ after)
    × (erase i es ≡ before ++ after)
    × (p x ≡ true)
    × None p after

newest-None : (p : Event → Bool) (es : Buffer) → newest p es ≡ none → None p es
unfolding newest
newest-None p [] h = tt
newest-None p (e ∷ es) h = (ground arith, newest-None p es (ground arith))

newest-Slot : (p : Event → Bool) (es : Buffer) (i : ℕ) → newest p es ≡ some i → Slot p es i
unfolding newest erase
newest-Slot p [] i h = cc
newest-Slot p (e ∷ es) i h = elim (Option-cases (newest p es)) [
  | inl none_later ↦ elim (Bool-cases (p e)) [
    | inl hit ↦ ([], e, es, refl, ground arith, hit, newest-None p es none_later)
    | inr miss ↦ absurd (ground arith)
  ]
  | inr (j, found) ↦
      let (before, x, after, split, erased, holds, last) = newest-Slot p es j found in
      (e ∷ before, x, after, ap (◌∷◌ e) split, ground arith, holds, last)
]

-- A full buffer gives up `x` for `e`: a direction, or for a long press a click when no direction
-- is left.
abbrev pub Yields : Event → Buffer → Event → Buffer → Type 0
Yields e es x after =
    ((is_direction x ≡ true) × None is_direction after)
    ⊎ ((is_long_press e.action ≡ true)
        × None is_direction es
        × (is_click x.action ≡ true)
        × None (λ y. is_click y.action) after)

-- Nothing in a full buffer may be given up for `e`.
abbrev pub IsRetained : Event → Buffer → Type 0
IsRetained e es =
    None is_direction es × ((is_long_press e.action ≡ false) ⊎ None (λ y. is_click y.action) es)

-- How a push ends.
pub data Pushed (e : Event) (es : Buffer) : Bool × Buffer → Type 0 where
  ignored : is_wake e.action ≡ true → Pushed e es (false, es)
  shut : is_wake e.action ≡ false → is_shutdown e ≡ true → Pushed e es (true, e ∷ [])
  closed :
      is_wake e.action ≡ false
      → is_shutdown e ≡ false
      → is_closed es ≡ true
      → Pushed e es (false, es)
  appended :
      is_wake e.action ≡ false
      → is_shutdown e ≡ false
      → is_closed es ≡ false
      → length es ≢ capacity
      → Pushed e es (true, es ++ e ∷ [])
  turned_away :
      is_wake e.action ≡ false
      → is_shutdown e ≡ false
      → is_closed es ≡ false
      → length es ≡ capacity
      → (is_direction e ≡ true) ⊎ IsRetained e es
      → Pushed e es (false, es)
  replaced :
      (before : Buffer) (x : Event) (after : Buffer)
      → is_wake e.action ≡ false
      → is_shutdown e ≡ false
      → is_closed es ≡ false
      → length es ≡ capacity
      → is_direction e ≡ false
      → es ≡ before ++ x ∷ after
      → Yields e es x after
      → Pushed e es (true, (before ++ after) ++ e ∷ [])

victim-IsRetained : (e : Event) (es : Buffer) → victim e es ≡ none → IsRetained e es
unfolding victim
victim-IsRetained e es h = elim (Option-cases (newest is_direction es)) [
  | inl a ↦ (
    newest-None is_direction es a,
    elim (Bool-cases (is_long_press e.action)) [
      | inl l ↦ inr (newest-None (λ y. is_click y.action) es (ground arith))
      | inr l ↦ inl l
    ],
  )
  | inr (i, a) ↦ absurd (ground arith)
]

abbrev Victim : Event → Buffer → ℕ → Type 0
Victim e es i =
    (before : Buffer) × (x : Event) × (after : Buffer) × (es ≡ before ++ x ∷ after)
    × (erase i es ≡ before ++ after)
    × Yields e es x after

victim-Victim : (e : Event) (es : Buffer) (i : ℕ) → victim e es ≡ some i → Victim e es i
unfolding victim
victim-Victim e es i h = elim (Option-cases (newest is_direction es)) [
  | inl a ↦ elim (Bool-cases (is_long_press e.action)) [
    | inl l ↦
        let (before, x, after, split, erased, holds, last) =
          newest-Slot (λ y. is_click y.action) es i (ground arith) in
        (before, x, after, split, erased, inr (l, newest-None is_direction es a, holds, last))
    | inr l ↦ absurd (ground arith)
  ]
  | inr (j, a) ↦
      let (before, x, after, split, erased, holds, last) =
        newest-Slot is_direction es i (ground arith) in
      (before, x, after, split, erased, inl (holds, last))
]

push_full-Pushed :
    (e : Event) (es : Buffer)
    → is_wake e.action ≡ false
    → is_shutdown e ≡ false
    → is_closed es ≡ false
    → length es ≡ capacity
    → Pushed e es (push_full e es)
unfolding push_full
push_full-Pushed e es w s c n = elim (Bool-cases (is_direction e)) [
  | inl d ↦ rw d (turned_away w s c n (inl d))
  | inr d ↦ elim (Option-cases (victim e es)) [
    | inl v ↦ rw (d, v, push_full) (turned_away w s c n (inr (victim-IsRetained e es v)))
    | inr (i, v) ↦
        let (before, x, after, split, erased, yields) = victim-Victim e es i v in
        rw (d, v, push_full, erased) (replaced before x after w s c n d split yields)
  ]
]

-- Every push ends in one of six ways. A wake event is refused; a shutdown event is taken and wipes
-- what stood in the buffer; behind a shutdown anything else is refused. Otherwise an event is
-- appended while there is room; to a full buffer it is appended in place of the newest direction,
-- or for a long press of the newest click once no direction is left, with the others kept in order;
-- and it is refused there if it is a direction itself or if nothing may be given up for it.
pub push-Pushed : (e : Event) (es : Buffer) → Pushed e es (push e es)
unfolding push
push-Pushed e es = elim (Bool-cases (is_wake e.action)) [
  | inl w ↦ rw w (ignored w)
  | inr w ↦ elim (Bool-cases (is_shutdown e)) [
    | inl s ↦ rw (w, s) (shut w s)
    | inr s ↦ elim (Bool-cases (is_closed es)) [
      | inl c ↦ rw (w, s, c) (closed w s c)
      | inr c ↦ elim (Bool-cases (length es == capacity)) [
        | inl n ↦ rw (w, s, c, n) (push_full-Pushed e es w s c ((==_iff _ _).0 n))
        | inr n ↦ rw (w, s, c, n) (appended w s c (λ q. ground arith))
      ]
    ]
  ]
]

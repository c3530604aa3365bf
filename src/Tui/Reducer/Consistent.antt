-- ===== src/Tui/Reducer/Consistent.antt =====
-- lib/sippycup_tui/state.py: the reducer is total on what it makes itself, and its counts add up.
use sippycup.Prelude.{
  ℕ, ◌+◌, ◌-◌, ◌≤◌, String, true, List, [], ◌∷◌, ◌++◌, none, some, Result, ok, ◌≡◌, refl, arith,
  str_eq, length, length-drop, length-snoc, drop, all, if_keeps, Bool-cases, Option-cases, inl, inr,
}
use sippycup.Tui.Event.{Event, EventError}
use sippycup.Tui.Reducer.{
  ViewState, Warning, initial, is_phase, phase_of, phase_actions, warn, is_late, phase_from,
  kind_to_phase, mark_late, mark_dropped, mark_schema_error, mark_phase, reduce_event, replay,
}

-- What holds after `seen` events: each is counted as processed or as late, at most 100 warnings
-- are kept, and the actions are those of the phase.
pub record Consistent (seen : ℕ) (s : ViewState) : Type 0 where
  pub counted : s.processed + s.late ≡ seen
  pub few : length s.warnings ≤ 100
  pub offered : phase_actions s.phase ≡ some s.actions

phase_actions-is_phase :
    (phase : String) (actions : List String)
    → phase_actions phase ≡ some actions
    → is_phase phase ≡ true
unfolding phase_actions is_phase
phase_actions-is_phase phase actions h = ground arith

phase_actions-none : (phase : String) → phase_actions phase ≡ none → is_phase phase ≡ true → ⊥
unfolding phase_actions is_phase
phase_actions-none phase n h = ground arith

is_phase-phase_actions :
    (phase : String)
    → is_phase phase ≡ true
    → (actions : List String) × (phase_actions phase ≡ some actions)
is_phase-phase_actions phase h = elim (Option-cases (phase_actions phase)) [
  | inl missing ↦ absurd (phase_actions-none phase missing h)
  | inr found ↦ found
]

phase_from-is_phase :
    (table : List (String × String)) (kind phase : String)
    → all (λ (entry : String × String). is_phase entry.1) table ≡ true
    → is_phase phase ≡ true
    → is_phase (phase_from table kind phase) ≡ true
unfolding phase_from
phase_from-is_phase [] kind phase h k = k
phase_from-is_phase ((name, p) ∷ rest) kind phase h k =
    ground (arith, phase_from-is_phase rest kind phase)

phase_of-is_phase :
    (kind phase : String) → is_phase phase ≡ true → is_phase (phase_of kind phase) ≡ true
unfolding is_phase
phase_of-is_phase kind phase h = phase_from-is_phase kind_to_phase kind phase refl h

length-warn : (ws : List Warning) (w : Warning) → length (warn ws w) ≤ 100
unfolding warn
length-warn ws w = omega (arith, length-drop (length ws + 1 - 100) (ws ++ w ∷ []), length-snoc ws w)

trimmed : (ws : List Warning) → length (drop (length ws - 100) ws) ≤ 100
trimmed ws = omega (arith, length-drop (length ws - 100) ws)

pub initial-Consistent : Consistent 0 initial
unfolding phase_actions
initial-Consistent = record { counted = refl; few = omega arith; offered = refl }

-- The outcome of one event after a consistent state: a consistent state.
abbrev pub Goes : ℕ → Result EventError ViewState → Type 0
Goes seen r = (s : ViewState) × (r ≡ ok s) × Consistent seen s

mark_phase-Consistent :
    (seen : ℕ) (s : ViewState) (e : Event) (actions : List String)
    → Consistent seen s
    → phase_actions (phase_of e.kind s.phase) ≡ some actions
    → Consistent (seen + 1) (mark_phase s e actions)
unfolding mark_phase
mark_phase-Consistent seen s e actions c found = record {
  counted = omega (arith, c.counted);
  few =
      if_keeps (λ (ws : List Warning). length ws ≤ 100) (str_eq e.kind "run.warning")
        (length-warn s.warnings _) (trimmed s.warnings);
  offered = found;
}

mark_late-Consistent :
    (seen : ℕ) (s : ViewState) (e : Event) (last : ℕ)
    → Consistent seen s
    → Consistent (seen + 1) (mark_late s e last)
unfolding mark_late
mark_late-Consistent seen s e last c = record {
  counted = omega (arith, c.counted);
  few = length-warn s.warnings _;
  offered = c.offered;
}

mark_dropped-Consistent :
    (seen : ℕ) (s : ViewState) (e : Event)
    → Consistent seen s
    → Consistent (seen + 1) (mark_dropped s e)
unfolding mark_dropped phase_actions
mark_dropped-Consistent seen s e c = record {
  counted = omega (arith, c.counted);
  few = length-warn s.warnings _;
  offered = refl;
}

mark_schema_error-Consistent :
    (seen : ℕ) (s : ViewState) (e : Event)
    → Consistent seen s
    → Consistent (seen + 1) (mark_schema_error s e)
unfolding mark_schema_error phase_actions
mark_schema_error-Consistent seen s e c = record {
  counted = omega (arith, c.counted);
  few = length-warn s.warnings _;
  offered = refl;
}

reduce_event-Goes :
    (seen : ℕ) (s : ViewState) (e : Event) → Consistent seen s → Goes (seen + 1) (reduce_event s e)
unfolding reduce_event
reduce_event-Goes seen s e c =
    let known = phase_actions-is_phase s.phase s.actions c.offered in
    elim (Option-cases (is_late s e)) [
      | inr (last, old) ↦
          (mark_late s e last, rw (known, old) refl, mark_late-Consistent seen s e last c)
      | inl new ↦ elim (Bool-cases (str_eq e.kind "ui.dropped")) [
        | inl gap ↦
            (mark_dropped s e, rw (known, new, gap) refl, mark_dropped-Consistent seen s e c)
        | inr other ↦ elim (Bool-cases (str_eq e.kind "ui.schema-error")) [
          | inl broken ↦ (
            mark_schema_error s e,
            rw (known, new, other, broken) refl,
            mark_schema_error-Consistent seen s e c,
          )
          | inr usual ↦
              let (actions, found) =
                is_phase-phase_actions (phase_of e.kind s.phase)
                  (phase_of-is_phase e.kind s.phase known) in
              (
                mark_phase s e actions,
                rw (known, new, other, usual, found) refl,
                mark_phase-Consistent seen s e actions c found,
              )
        ]
      ]
    ]

pub replay-Goes :
    (es : List Event) (seen total : ℕ) (s : ViewState)
    → seen + length es ≡ total
    → Consistent seen s
    → Goes total (replay es s)
unfolding replay
replay-Goes [] seen total s sum c =
    let same : seen ≡ total = omega arith in (s, refl, rw (← same) c)
replay-Goes (e ∷ es) seen total s sum c =
    let (s', p, c') = reduce_event-Goes seen s e c in
    let (t, q, d) = replay-Goes es (seen + 1) total s' (omega arith) c' in (t, rw p q, d)

-- From the initial state every sequence of events is replayed without an error, and then each event
-- is counted once, as processed or as late, at most 100 warnings are kept, and the actions are
-- those of the phase.
pub replay-Consistent :
    (es : List Event) → (s : ViewState) × (replay es initial ≡ ok s) × Consistent (length es) s
replay-Consistent es = replay-Goes es 0 (length es) initial (omega arith) initial-Consistent

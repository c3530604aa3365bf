-- ===== src/Matrix/Sequence/Traces.antt =====
-- lib/sippycup/covering.py, `_valid_action_sequence`, against the steps of a call.
use mathlib.Core.Path.{subst}
use mathlib.Core.Option.{some-injective}
use sippycup.Prelude.{
  String, Bool, true, false, Option, none, some, List, [], ◌∷◌, ◌≡◌, ◌↔◌, refl, sym, arith, str_eq,
  eq_iff, if◌then◌else◌, Bool-cases, Option-cases, inl, inr,
}
use sippycup.Matrix.Sequence.{after, valid_from, ends_in_hangup, valid_action_sequence}

-- The actions of a call up to its hangup, from a state of the hold and of a failure: nothing but a
-- recovery follows a failure, and hold and resume alternate.
pub data Trace : Bool → Bool → List String → Type 0 where
  hang_up : {held failed : Bool} → Trace held failed ("hangup" ∷ [])
  recover :
      {held : Bool} {rest : List String}
      → Trace held false rest
      → Trace held true ("recover" ∷ rest)
  hold : {rest : List String} → Trace true false rest → Trace false false ("hold" ∷ rest)
  resume : {rest : List String} → Trace false false rest → Trace true false ("resume" ∷ rest)
  dtmf :
      {held : Bool} {rest : List String} → Trace held false rest → Trace held false ("dtmf" ∷ rest)
  reinvite :
      {held : Bool} {rest : List String}
      → Trace held false rest
      → Trace held false ("reinvite" ∷ rest)
  failure :
      {held : Bool} {rest : List String}
      → Trace held true rest
      → Trace held false ("failure" ∷ rest)

-- A trace whose first action has this name.
renamed :
    (name action : String) (held failed : Bool) (rest : List String)
    → str_eq action name ≡ true
    → Trace held failed (name ∷ rest)
    → Trace held failed (action ∷ rest)
renamed name action held failed rest e t =
    subst (λ n. Trace held failed (n ∷ rest)) (sym ((eq_iff action name).0 e)) t

moved :
    (next : Bool × Bool) (held failed : Bool) (rest : List String)
    → ◌≡◌ {A = Option (Bool × Bool)} (some (held, failed)) (some next)
    → Trace next.0 next.1 rest
    → Trace held failed rest
moved next held failed rest e t =
    subst (λ (n : Bool × Bool). Trace n.0 n.1 rest) (sym (some-injective _ _ e)) t

after-failure :
    (held : Bool) (action : String) (next : Bool × Bool) (rest : List String)
    → after held true action ≡ some next
    → Trace next.0 next.1 rest
    → Trace held true (action ∷ rest)
unfolding after
after-failure held action next rest h t = elim (Bool-cases (str_eq action "recover")) [
  | inl e ↦
      renamed "recover" action held true rest e (recover (moved next held false rest (rw e at h) t))
  | inr e ↦ cc (rw e at h)
]

after-call :
    (held : Bool) (action : String) (next : Bool × Bool) (rest : List String)
    → after held false action ≡ some next
    → Trace next.0 next.1 rest
    → Trace held false (action ∷ rest)
unfolding after
after-call held action next rest h t = elim (Bool-cases (str_eq action "hold")) [
  | inl e ↦ hold_step e held (rw e at h)
  | inr e1 ↦ elim (Bool-cases (str_eq action "resume")) [
    | inl e ↦ resume_step e held (rw (e1, e) at h)
    | inr e2 ↦ elim (Bool-cases (str_eq action "dtmf")) [
      | inl e ↦
          renamed "dtmf" action held false rest e
            (dtmf (moved next held false rest (rw (e1, e2, e) at h) t))
      | inr e3 ↦ elim (Bool-cases (str_eq action "reinvite")) [
        | inl e ↦
            renamed "reinvite" action held false rest e
              (reinvite (moved next held false rest (rw (e1, e2, e3, e) at h) t))
        | inr e4 ↦ elim (Bool-cases (str_eq action "failure")) [
          | inl e ↦
              renamed "failure" action held false rest e
                (failure (moved next held true rest (rw (e1, e2, e3, e4, e) at h) t))
          | inr e5 ↦ cc (rw (e1, e2, e3, e4, e5) at h)
        ]
      ]
    ]
  ]
]
  where
    hold_step :
        str_eq action "hold" ≡ true
        → (b : Bool) → (if b then none else some (true, false)) ≡ some next
        → Trace b false (action ∷ rest)
    hold_step e true k = cc k
    hold_step e false k =
        renamed "hold" action false false rest e (hold (moved next true false rest k t))

    resume_step :
        str_eq action "resume" ≡ true
        → (b : Bool) → (if b then some (false, false) else none) ≡ some next
        → Trace b false (action ∷ rest)
    resume_step e false k = cc k
    resume_step e true k =
        renamed "resume" action true false rest e (resume (moved next false false rest k t))

after-Trace :
    (held failed : Bool) (action : String) (next : Bool × Bool) (rest : List String)
    → after held failed action ≡ some next
    → Trace next.0 next.1 rest
    → Trace held failed (action ∷ rest)
after-Trace held true = after-failure held
after-Trace held false = after-call held

valid_from-Trace :
    (held failed : Bool) (s : List String)
    → ends_in_hangup s ≡ true
    → valid_from held failed s ≡ true
    → Trace held failed s
unfolding valid_from
valid_from-Trace held failed [] e v = cc
valid_from-Trace held failed (action ∷ []) e v = renamed "hangup" action held failed [] e hang_up
valid_from-Trace held failed (action ∷ following ∷ rest) e v =
    let going : str_eq action "hangup" ≡ false = ground arith in
    elim (Option-cases (after held failed action)) [
      | inl stopped ↦ cc (rw (going, stopped, valid_from) at v)
      | inr (next, p) ↦ after-Trace held failed action next (following ∷ rest) p (
          valid_from-Trace next.0 next.1 (following ∷ rest) (ground arith)
            (rw (going, p, valid_from) at v))
    ]

ends_later :
    (action : String) (rest : List String)
    → str_eq action "hangup" ≡ false
    → ends_in_hangup rest ≡ true
    → ends_in_hangup (action ∷ rest) ≡ true
ends_later action [] e h = cc
ends_later action (following ∷ rest) e h = rw e h

pub Trace-ends :
    (held failed : Bool) (s : List String) → Trace held failed s → ends_in_hangup s ≡ true
Trace-ends _ _ _ hang_up = refl
Trace-ends _ _ _ (recover {rest = rest} t) = ends_later "recover" rest refl (Trace-ends _ _ _ t)
Trace-ends _ _ _ (hold {rest = rest} t) = ends_later "hold" rest refl (Trace-ends _ _ _ t)
Trace-ends _ _ _ (resume {rest = rest} t) = ends_later "resume" rest refl (Trace-ends _ _ _ t)
Trace-ends _ _ _ (dtmf {rest = rest} t) = ends_later "dtmf" rest refl (Trace-ends _ _ _ t)
Trace-ends _ _ _ (reinvite {rest = rest} t) = ends_later "reinvite" rest refl (Trace-ends _ _ _ t)
Trace-ends _ _ _ (failure {rest = rest} t) = ends_later "failure" rest refl (Trace-ends _ _ _ t)

Trace-valid :
    (held failed : Bool) (s : List String) → Trace held failed s → valid_from held failed s ≡ true
unfolding valid_from after
Trace-valid _ _ _ hang_up = refl
Trace-valid _ _ _ (recover t) = Trace-valid _ _ _ t
Trace-valid _ _ _ (hold t) = Trace-valid _ _ _ t
Trace-valid _ _ _ (resume t) = Trace-valid _ _ _ t
Trace-valid _ _ _ (dtmf t) = Trace-valid _ _ _ t
Trace-valid _ _ _ (reinvite t) = Trace-valid _ _ _ t
Trace-valid _ _ _ (failure t) = Trace-valid _ _ _ t

-- A sequence of actions is accepted exactly if it is a trace of a call that is neither on hold nor
-- failed.
pub valid_action_sequence_iff :
    (s : List String) → (valid_action_sequence s ≡ true) ↔ Trace false false s
unfolding valid_action_sequence
valid_action_sequence_iff s = elim (Bool-cases (ends_in_hangup s)) [
  | inl ends ↦ (
    λ h. valid_from-Trace false false s ends (rw ends at h),
    λ t. rw ends (Trace-valid false false s t),
  )
  | inr open_end ↦ (λ h. cc (rw open_end at h), λ t. cc (Trace-ends false false s t, open_end))
]

-- ===== src/Store/Events.antt =====
-- The lifecycle events of src/store.rs, keyed by run and revision.
use wyd.Common.{
  ℕ, ◌≡◌, refl, ap, inl, inr, ==_iff, Bool, not, ◌&&◌, Option, List, [], ◌∷◌, arith, ◌==◌,
  if◌then◌else◌, retain, Bool-cases, String, total,
}
use wyd.Store.{RunId, RunEvent, Store, run_event}

abbrev pub has_key : RunId → ℕ → RunEvent → Bool
has_key id revision e = e.run_id == id && e.revision == revision

-- The events of one run and revision.
abbrev pub events_at : RunId → ℕ → List RunEvent → ℕ
events_at id revision = total (λ e. if has_key id revision e then 1 else 0)

retain_twice :
    (id : RunId) (revision : ℕ) (es : List RunEvent)
    → retain (λ e. not (has_key id revision e)) (retain (λ e. not (has_key id revision e)) es)
      ≡ retain (λ e. not (has_key id revision e)) es
unfolding retain
retain_twice id revision [] = refl
retain_twice id revision (e ∷ es) = elim (Bool-cases (not (has_key id revision e))) [
  | inl keep ↦ rw (keep, keep) (ap (◌∷◌ e) (retain_twice id revision es))
  | inr drop ↦ rw drop (retain_twice id revision es)
]

events_at-retain :
    (id other : RunId) (revision v : ℕ) (es : List RunEvent)
    → events_at other v (retain (λ e. not (has_key id revision e)) es)
      ≡ (if other == id && v == revision then 0 else events_at other v es)
unfolding retain
events_at-retain id other revision v [] = ground arith
events_at-retain id other revision v (e ∷ es) =
    ground (arith, events_at-retain id other revision v es)

-- An event replaces every earlier one of the same run and revision, so that of two events written
-- at one revision the first is lost: the store is as if it had never been written. Events of
-- other runs and revisions stay.
run_event-replaces :
    (s : Store) (id other : RunId) (revision v : ℕ) (kind kind' : String)
    (detail detail' : Option String) (now now' : ℕ)
    → (run_event (run_event s id revision kind detail now) id revision kind' detail' now'
        ≡ run_event s id revision kind' detail' now')
      × (events_at other v (run_event s id revision kind detail now).events
          ≡ (if other == id && v == revision then 1 else events_at other v s.events))
unfolding run_event retain
run_event-replaces s id other revision v kind kind' detail detail' now now' = (
  ap
      (λ es. record s {
        events =
            record { run_id = id; revision = revision; at = now'; kind = kind'; detail = detail' }
            ∷ es;
      })
      (rw ((==_iff id id).1 refl, (==_iff revision revision).1 refl)
        (retain_twice id revision s.events)),
  ground (arith, events_at-retain id other revision v s.events),
)

-- ===== src/Collection/Marks.antt =====
-- The marks of src/collect.rs on items that come from a session that has ended.
use wyd.Common.{
  ◌+◌, ◌++◌, min, ◌≡◌, refl, ap, ◌∙◌, sym, subst, ◌⊎◌, inl, inr, Bool, true, false, not, ◌&&◌, ◌||◌,
  Option, none, some, Bool-cases, [], ◌∷◌, any, any-append, arith,
}
use mathlib.Core.Path.{ap₂}
use wyd.Runtime.{
  Head, RuntimeItem, item, Children, no_more, child, Suspicion, suspicious, session_owner_ended,
}
use wyd.Ownership.{is_agent}
use wyd.Collection.{
  Pass, is_owner_ended, add_owner_ended, is_persistent, origin_ended, session_leftover_head,
  session_leftovers,
}

add_owner_ended-has : (o : Option Suspicion) → any is_owner_ended (add_owner_ended o).reasons ≡ true
unfolding any
add_owner_ended-has none = refl
add_owner_ended-has (some s) = elim (Bool-cases (any is_owner_ended s.reasons)) [
  | inl e ↦ rw e e
  | inr e ↦ rw e (
      any-append is_owner_ended s.reasons (session_owner_ended ∷ [])
      ∙ or-true (any is_owner_ended s.reasons))
]
  where
    or-true : (b : Bool) → (b || true) ≡ true
    or-true b = ground arith

add_owner_ended-again :
    (o : Option Suspicion) → add_owner_ended (some (add_owner_ended o)) ≡ add_owner_ended o
add_owner_ended-again o = rw (add_owner_ended-has o) refl

abbrev marked : Head → Head
marked h = record h { state = suspicious; suspicion = some (add_owner_ended h.suspicion) }

-- An item that is marked: no agent, not persistent, and from a session that has ended.
abbrev pub is_marked : Pass → Head → Bool
is_marked env h = not (is_agent h.category || is_persistent h.state) && origin_ended env h

head-unmarked : (env : Pass) (h : Head) → is_marked env h ≡ false → session_leftover_head env h ≡ h
unfolding session_leftover_head
head-unmarked env h e = elim (Bool-cases (is_agent h.category || is_persistent h.state)) [
  | inl k ↦ rw k refl
  | inr k ↦ let n : origin_ended env h ≡ false = ground arith in rw k (rw n refl)
]

head-marked :
    (env : Pass) (h : Head) → is_marked env h ≡ true → session_leftover_head env h ≡ marked h
unfolding session_leftover_head
head-marked env h e =
    let k : (is_agent h.category || is_persistent h.state) ≡ false = ground arith in
    let n : origin_ended env h ≡ true = ground arith in rw k (rw n refl)

marked-is_marked :
    (env : Pass) (h : Head) → is_marked env h ≡ true → is_marked env (marked h) ≡ true
unfolding origin_ended
marked-is_marked env h e = ground arith

session_leftover_head-again :
    (env : Pass) (h : Head)
    → session_leftover_head env (session_leftover_head env h) ≡ session_leftover_head env h
session_leftover_head-again env h = elim (Bool-cases (is_marked env h)) [
  | inr e ↦ ap (session_leftover_head env) (head-unmarked env h e)
  | inl e ↦
      ap (session_leftover_head env) (head-marked env h e)
      ∙ head-marked env (marked h) (marked-is_marked env h e)
      ∙ ap (λ s. record (marked h) { suspicion = some s }) (add_owner_ended-again h.suspicion)
      ∙ sym (head-marked env h e)
]

-- What a mark makes of the suspicion that an item has: the reason is added once, after the earlier
-- ones, with 30 points, of which the sum stays at most 100.
abbrev pub Suspected : Option Suspicion → Suspicion → Type 0
Suspected none s = (s.score ≡ 30) × (s.reasons ≡ session_owner_ended ∷ [])
Suspected (some old) s =
    ((any is_owner_ended old.reasons ≡ true) × (s ≡ old))
    ⊎ ((any is_owner_ended old.reasons ≡ false)
        × (s.score ≡ min (old.score + 30) 100)
        × (s.reasons ≡ old.reasons ++ session_owner_ended ∷ []))

add_owner_ended-Suspected : (o : Option Suspicion) → Suspected o (add_owner_ended o)
add_owner_ended-Suspected none = (refl, refl)
add_owner_ended-Suspected (some s) = elim (Bool-cases (any is_owner_ended s.reasons)) [
  | inl e ↦ rw e (inl (refl, refl))
  | inr e ↦ rw e (inr (refl, omega arith, refl))
]

-- What the marks leave of an item's own fields.
abbrev pub Marks : Pass → Head → Head → Type 0
Marks env h h' =
    ((is_marked env h ≡ false) × (h' ≡ h))
    ⊎ ((is_marked env h ≡ true)
        × (s : Suspicion) × (h' ≡ record h { state = suspicious; suspicion = some s })
        × Suspected h.suspicion s)

-- An item and what it has become, and the same of all below it.
abbrev mutual
  pub MarksAll : Pass → Children → Children → Type 0
  MarksAll env no_more no_more = Unit
  MarksAll env no_more (child j js) = ⊥
  MarksAll env (child i is) no_more = ⊥
  MarksAll env (child i is) (child j js) = MarksOne env i j × MarksAll env is js

  pub MarksOne : Pass → RuntimeItem → RuntimeItem → Type 0
  MarksOne env (item h is) (item h' js) = Marks env h h' × MarksAll env is js

head-Marks : (env : Pass) (h : Head) → Marks env h (session_leftover_head env h)
head-Marks env h = elim (Bool-cases (is_marked env h)) [
  | inr e ↦ inl (e, head-unmarked env h e)
  | inl e ↦
      subst (Marks env h) (sym (head-marked env h e))
        (inr (e, add_owner_ended h.suspicion, refl, add_owner_ended-Suspected h.suspicion))
]

mutual
  unfolding session_leftovers

  session_leftovers-MarksAll :
      (env : Pass) (is : Children) → MarksAll env is (session_leftovers env is)
  session_leftovers-MarksAll env no_more = tt
  session_leftovers-MarksAll env (child (item h js) is) =
      ((head-Marks env h, session_leftovers-MarksAll env js), session_leftovers-MarksAll env is)

  again :
      (env : Pass) (is : Children)
      → session_leftovers env (session_leftovers env is) ≡ session_leftovers env is
  again env no_more = refl
  again env (child (item h js) is) =
      ap₂ child (ap₂ item (session_leftover_head-again env h) (again env js)) (again env is)

-- The marks fall on exactly the items that are no agents, are not persistent, and have a process whose
-- recorded session has ended, at any depth. Such an item becomes suspicious: that reason is added
-- to those it has, unless it is among them, and 30 points to its score, up to 100. Nothing else of it
-- changes, nor anything of the other items. To mark twice is to mark once.
pub session_leftovers-Marks :
    (env : Pass) (items : Children)
    → MarksAll env items (session_leftovers env items)
      × (session_leftovers env (session_leftovers env items) ≡ session_leftovers env items)
session_leftovers-Marks env items = (session_leftovers-MarksAll env items, again env items)

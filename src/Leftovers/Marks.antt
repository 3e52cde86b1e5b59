-- ===== src/Leftovers/Marks.antt =====
-- Which items `mark` of src/classify/leftovers.rs takes for left over.
use wyd.Common.{
  ◌≤◌, ◌≡◌, refl, ap, ◌∙◌, sym, subst, inl, inr, Bool, true, false, not, ◌&&◌, ◌||◌, Option, none,
  some, List, [], ◌∷◌, arith, leb, is_some, Bool-cases, min, total, OnSome,
}
use wyd.Runtime.{
  Category, agent, mcp, browser, dev_server, language_server, database, worker, unknown_dev,
  dev_service, active, Suspicion, Head, RuntimeItem, item, Children, no_more, child,
}
use wyd.Leftovers.{Env, root_proc, reparented, test, exempt}
use wyd.Leftovers.Scoring.{
  is_agent, needs_owner, tally, is_unowned, is_interactive, score_of, judge, mark_head, mark_one,
  mark_children, mark, is_suspicious, one_if, count_item, leftover_count,
}

-- The items that count: of a kind that an agent owns and not below another item, not exempt, with no
-- terminal, and of a kind that needs an owner or re-parented.
abbrev pub is_left_over : Env → Option Category → Head → Bool
is_left_over env parent h =
    not (exempt env h)
    && ((is_unowned parent h.category && not (is_interactive env h))
        && (needs_owner h.category || test (reparented env) (root_proc env h)))

tally-score :
    (c : Category) (lost orphan old : Bool)
    → leb 30 (min (tally c lost orphan old).score 100) ≡ (lost && (needs_owner c || orphan))
unfolding tally
tally-score agent lost orphan old = ground arith
tally-score mcp lost orphan old = ground arith
tally-score browser lost orphan old = ground arith
tally-score dev_server lost orphan old = ground arith
tally-score language_server lost orphan old = ground arith
tally-score database lost orphan old = ground arith
tally-score worker lost orphan old = ground arith
tally-score unknown_dev lost orphan old = ground arith
tally-score dev_service lost orphan old = ground arith

-- What an item that is marked carries.
abbrev pub Scored : Bool → Head → Type 0
Scored flag h =
    (is_suspicious h.state ≡ flag)
    × (is_some h.suspicion ≡ flag)
    × OnSome (λ s. (30 ≤ s.score) × (s.score ≤ 100)) h.suspicion

judge-Scored :
    (h : Head) (s : Suspicion)
    → h.state ≡ active
    → h.suspicion ≡ none
    → Scored (leb 30 (min s.score 100)) (judge h s)
unfolding judge
judge-Scored h s fresh clear = elim (Bool-cases (leb 30 (min s.score 100))) [
  | inl e ↦ rw e (refl, refl, (ground arith, omega arith))
  | inr e ↦ rw e (rw (fresh, clear) (refl, refl, tt))
]

and-false : (b : Bool) → (b && false) ≡ false
and-false true = refl
and-false false = refl

unowned_agent :
    (parent : Option Category) (c : Category) → is_agent c ≡ true → is_unowned parent c ≡ false
unfolding is_unowned
unowned_agent parent c e = ground arith

-- An item that comes unmarked is marked suspicious exactly if it counts as left over; then, and only
-- then, it carries a suspicion, of a score from 30 to 100. Age never decides: an old dev server or
-- worker is marked only if it is re-parented, unowned and without a terminal as well.
pub mark_head-Scored :
    (env : Env) (parent : Option Category) (h : Head)
    → h.state ≡ active
    → h.suspicion ≡ none
    → Scored (is_left_over env parent h) (mark_head env parent h)
unfolding mark_head score_of
mark_head-Scored env parent h fresh clear = elim (Bool-cases (is_agent h.category)) [
  | inl e ↦
      rw (e, unowned_agent parent h.category e)
        (
          ap is_suspicious fresh ∙ sym (and-false (not (exempt env h))),
          sym (and-false (not (exempt env h))),
          tt,
        )
  | inr e ↦ rw e (elim (Bool-cases (exempt env h)) [
    | inl x ↦ rw x (refl, refl, tt)
    | inr x ↦ rw x (
        subst (λ flag. Scored flag (judge h (score_of env parent h))) (tally-score h.category _ _ _)
          (judge-Scored h (score_of env parent h) fresh clear))
  ])
]

-- The items of a forest come unmarked.
unfoldable mutual
  pub Unmarked : RuntimeItem → Type 0
  Unmarked (item h children) = (h.state ≡ active) × (h.suspicion ≡ none) × UnmarkedAll children

  pub UnmarkedAll : Children → Type 0
  UnmarkedAll no_more = Unit
  UnmarkedAll (child i rest) = Unmarked i × UnmarkedAll rest

-- The items at the top of a forest.
unfoldable pub tops : Children → List Head
tops no_more = []
tops (child (item h children) rest) = h ∷ tops rest

below : (env : Env) (category : Category) (h : Head) → is_left_over env (some category) h ≡ false
unfolding is_unowned
below env category h = and-false (not (exempt env h))

mutual
  unfolding mark_children mark_one count_item leftover_count Unmarked UnmarkedAll

  count_below :
      (env : Env) (category : Category) (is : Children)
      → UnmarkedAll is
      → leftover_count (mark_children env (some category) is) ≡ 0
  count_below env category no_more h = refl
  count_below env category (child i rest) (hi, hs) =
      omega (arith, count_item_below env category i hi, count_below env category rest hs)

  count_item_below :
      (env : Env) (category : Category) (i : RuntimeItem)
      → Unmarked i
      → count_item (mark_one env (some category) i) ≡ 0
  count_item_below env category (item h children) (fresh, clear, hs) =
      let (flag, _, _) = mark_head-Scored env (some category) h fresh clear in
      omega (arith, ap one_if (flag ∙ below env category h), count_below env h.category children hs)

-- The items that `mark` takes for left over in an unmarked forest are the top ones that count as
-- left over: an item below another is never counted.
pub mark-leftover_count :
    (env : Env) (items : Children)
    → UnmarkedAll items
    → leftover_count (mark env items) ≡ total (λ h. one_if (is_left_over env none h)) (tops items)
unfolding mark leftover_count mark_children mark_one count_item tops Unmarked UnmarkedAll
mark-leftover_count env no_more h = refl
mark-leftover_count env (child (item top children) rest) ((fresh, clear, hs), hr) =
    let (flag, _, _) = mark_head-Scored env none top fresh clear in
    omega (
      arith,
      ap one_if flag,
      count_below env top.category children hs,
      mark-leftover_count env rest hr,
    )

-- ===== src/Resolver/Sorting.antt =====
-- What the descending stable sort of src/classify/ownership/resolver.rs puts first.
use wyd.Common.{
  ◌-◌, ◌≤◌, ◌<◌, ◌≡◌, refl, ap, ◌⊎◌, inl, inr, true, List, [], ◌∷◌, ◌++◌, arith, leb, Bool-cases,
  All, All-map, All-append, All-append_right,
}
use wyd.Resolver.{AttributionCandidate, ResolverRules}
use wyd.Resolver.Selection.{insert_by_total, sort_by_total, is_clear}

-- The first candidate of a list with the greatest total, taken out of it.
abbrev pub Top : List AttributionCandidate → List AttributionCandidate → Type 0
Top cs sorted =
    ((cs ≡ []) × (sorted ≡ []))
    ⊎ ((front : List AttributionCandidate) × (c : AttributionCandidate) × (back : List
          AttributionCandidate)
        × (cs ≡ front ++ c ∷ back)
        × (sorted ≡ c ∷ sort_by_total (front ++ back))
        × All (λ d. d.total < c.total) front
        × All (λ d. d.total ≤ c.total) back)

pub sort_by_total-Top : (cs : List AttributionCandidate) → Top cs (sort_by_total cs)
unfolding sort_by_total insert_by_total
sort_by_total-Top [] = inl (refl, refl)
sort_by_total-Top (x ∷ cs) = elim (sort_by_total-Top cs) [
  | inl (e, o) ↦ inr ([], x, [], ap (◌∷◌ x) e, rw (o, sort_by_total) (refl), tt, tt)
  | inr (front, c, back, e, o, high, low) ↦ elim (Bool-cases (leb c.total x.total)) [
    | inl le ↦ inr (
      [],
      x,
      cs,
      refl,
      rw (o, sort_by_total) (rw le refl),
      tt,
      rw e (
          All-append (λ d. d.total ≤ x.total) front (c ∷ back)
            (All-map (λ d h. ground arith) front high)
            (ground arith, All-map (λ d h. ground arith) back low)),
    )
    | inr gt ↦ inr (
      x ∷ front,
      c,
      back,
      ap (◌∷◌ x) e,
      rw (o, sort_by_total) (rw gt refl),
      (ground arith, high),
      low,
    )
  ]
]

-- The margin of the top over the best of the others is its margin over all of them.
pub is_clear-All :
    (rules : ResolverRules) (top : AttributionCandidate) (others : List AttributionCandidate)
    → is_clear rules top (sort_by_total others) ≡ true
    → All (λ d. rules.ambiguity_margin ≤ top.total - d.total) others
unfolding is_clear
is_clear-All rules top others h = elim (sort_by_total-Top others) [
  | inl (e, o) ↦ rw e tt
  | inr (front, c, back, e, o, high, low) ↦
      let margin : rules.ambiguity_margin ≤ top.total - c.total = ground (arith, o) in
      rw e (
        All-append (λ d. rules.ambiguity_margin ≤ top.total - d.total) front (c ∷ back)
          (All-map (λ d k. omega arith) front high) (margin, All-map (λ d k. omega arith) back low))
]

pub All-is_clear :
    (rules : ResolverRules) (top : AttributionCandidate) (others : List AttributionCandidate)
    → All (λ d. rules.ambiguity_margin ≤ top.total - d.total) others
    → is_clear rules top (sort_by_total others) ≡ true
unfolding is_clear
All-is_clear rules top others h = elim (sort_by_total-Top others) [
  | inl (e, o) ↦ rw (o, is_clear) refl
  | inr (front, c, back, e, o, high, low) ↦
      let far =
        (All-append_right (λ d. rules.ambiguity_margin ≤ top.total - d.total) front (c ∷ back)
          (rw e at h)).0 in
      rw (o, is_clear) (ground arith)
]

insert_before :
    (c : AttributionCandidate) (back : List AttributionCandidate)
    → All (λ d. d.total < c.total) back
    → insert_by_total c (sort_by_total back) ≡ c ∷ sort_by_total back
unfolding insert_by_total
insert_before c back h = elim (sort_by_total-Top back) [
  | inl (e, o) ↦ rw (o, insert_by_total) refl
  | inr (front, d, rest, e, o, high, low) ↦
      let less = (All-append_right (λ x. x.total < c.total) front (d ∷ rest) (rw e at h)).0 in
      rw (o, insert_by_total) (ground arith)
]

-- A candidate ahead of all the others is sorted first.
pub sort_by_total-leader :
    (front : List AttributionCandidate) (c : AttributionCandidate)
    (back : List AttributionCandidate)
    → All (λ d. d.total < c.total) (front ++ back)
    → sort_by_total (front ++ c ∷ back) ≡ c ∷ sort_by_total (front ++ back)
unfolding sort_by_total insert_by_total
sort_by_total-leader [] c back h = insert_before c back h
sort_by_total-leader (x ∷ front) c back h =
    rw (sort_by_total-leader front c back h.1, insert_by_total) (ground arith)

-- ===== src/Collection/Attribution.antt =====
-- The attribution of src/collect.rs: one decision for each resource, and what it says.
use wyd.Common.{
  ℕ, ◌≡◌, refl, ap, ◌∙◌, sym, inl, inr, Bool, true, false, not, ◌&&◌, ◌||◌, Option, none, some,
  Bool-cases, List, [], ◌∷◌, ◌++◌, ◌==◌, ltb, All, OnSome, All-append, any, any-append, arith,
}
use wyd.Identity.{ProcessIdentity, resource_id}
use wyd.Runtime.{Head, RuntimeItem, item, Children, no_more, child}
use wyd.Ownership.{is_agent, root_of}
use wyd.Resolver.{resolver_version, v1}
use wyd.Resolver.Selection.{resolve, select}
use wyd.Provenance.Lookup.{Explanation}
use wyd.Collection.{
  DecisionRow, persist_decision, later_of, latest_decision, Pass, pids_of, first_explained,
  candidate_of, is_decided, attribute_to, attribute_root, attribute, attribution_for,
  attribution_for_all,
}

abbrev decided : List DecisionRow → ℕ → Bool
decided rows resource = any (λ r. r.resource == resource) rows

unfoldable pub once_each : List DecisionRow → Bool
once_each [] = true
once_each (r ∷ rows) = not (decided rows r.resource) && once_each rows

abbrev Current : DecisionRow → Type 0
Current r = r.decision.resolver_version ≡ resolver_version

-- Each resource has at most one decision, made by the current rules.
pub record Decided (rows : List DecisionRow) : Type 0 where
  pub current : All Current rows
  pub once : once_each rows ≡ true

or-true : (a : Bool) → (a || true) ≡ true
or-true a = ground arith

Current-is_decided : (r : DecisionRow) → Current r → is_decided (some r) ≡ true
Current-is_decided r h = ap (λ v. v == resolver_version) h

later_of-decided :
    (resource : ℕ) (r : DecisionRow) (o : Option DecisionRow)
    → Current r
    → OnSome Current o
    → (is_decided (later_of resource r o) ≡ ((r.resource == resource) || is_decided o))
      × OnSome Current (later_of resource r o)
later_of-decided resource r none cur h = elim (Bool-cases (r.resource == resource)) [
  | inl e ↦ rw e (Current-is_decided r cur, cur)
  | inr e ↦ rw e (refl, tt)
]
later_of-decided resource r (some q) cur h =
    elim (Bool-cases (r.resource == resource && ltb q.observed_at r.observed_at)) [
      | inl e ↦
          let same : (r.resource == resource) ≡ true = ground arith in
          rw e (Current-is_decided r cur ∙ ap (λ b. b || is_decided (some q)) (sym same), cur)
      | inr e ↦ rw e (
        Current-is_decided q h
            ∙ sym (
                ap (◌||◌ (r.resource == resource)) (Current-is_decided q h)
                ∙ or-true (r.resource == resource)),
        h,
      )
    ]

latest_decision-decided :
    (resource : ℕ) (rows : List DecisionRow)
    → All Current rows
    → (is_decided (latest_decision resource rows) ≡ decided rows resource)
      × OnSome Current (latest_decision resource rows)
unfolding latest_decision any
latest_decision-decided resource [] h = (refl, tt)
latest_decision-decided resource (r ∷ rows) h =
    let (e, cur) = latest_decision-decided resource rows h.1 in
    let (e', cur') = later_of-decided resource r (latest_decision resource rows) h.0 cur in
    (e' ∙ ap (◌||◌ (r.resource == resource)) e, cur')

once_each-append :
    (rows : List DecisionRow) (r : DecisionRow)
    → once_each rows ≡ true
    → decided rows r.resource ≡ false
    → once_each (rows ++ r ∷ []) ≡ true
unfolding once_each any
once_each-append [] r h k = refl
once_each-append (q ∷ rows) r h k =
    let e : decided (rows ++ r ∷ []) q.resource
        ≡ (decided rows q.resource || decided (r ∷ []) q.resource) =
      any-append (λ x. x.resource == q.resource) rows (r ∷ []) in
    ground (arith, e, once_each-append rows r)

-- A resource without a decision gets one.
persist_decision-Decided :
    (resource : ℕ) (now : ℕ) (rows : List DecisionRow) (h : Head) (root : ProcessIdentity)
    (e : Explanation)
    → Decided rows
    → is_decided (latest_decision resource rows) ≡ false
    → Decided (persist_decision resource (resolve v1 (candidate_of h root e ∷ [])) now rows)
unfolding persist_decision resolve select
persist_decision-Decided resource now rows h root e ok new = record {
  current = All-append Current rows _ ok.current (refl, tt);
  once =
      once_each-append rows _ ok.once
        (sym (latest_decision-decided resource rows ok.current).0 ∙ new);
}

attribute_root-Decided :
    (env : Pass) (h : Head) (root : Option ProcessIdentity) (rows : List DecisionRow)
    → Decided rows
    → Decided (attribute_root env h root rows)
attribute_root-Decided env h none rows ok = ok
attribute_root-Decided env h (some root) rows ok =
    elim (Bool-cases (is_decided (latest_decision (resource_id root) rows))) [
      | inl old ↦ rw old ok
      | inr new ↦ rw new (elim (Bool-cases (env.undecided (resource_id root))) [
        | inl lost ↦ rw lost ok
        | inr kept ↦ rw kept (to (first_explained env (pids_of h)) new)
      ])
    ]
  where
    to :
        (o : Option Explanation)
        → is_decided (latest_decision (resource_id root) rows) ≡ false
        → Decided (attribute_to h root env.now o rows)
    to none new = ok
    to (some e) new = persist_decision-Decided (resource_id root) env.now rows h root e ok new

attribute-Decided :
    (env : Pass) (h : Head) (rows : List DecisionRow)
    → Decided rows
    → Decided (attribute env h rows)
unfolding attribute
attribute-Decided env h rows ok = elim (Bool-cases (is_agent h.category)) [
  | inl e ↦ rw e ok
  | inr e ↦ rw e (attribute_root-Decided env h (root_of env.identities h) rows ok)
]

mutual
  unfolding attribution_for

  attribution_for-Decided :
      (env : Pass) (i : RuntimeItem) (rows : List DecisionRow)
      → Decided rows
      → Decided (attribution_for env i rows)
  attribution_for-Decided env (item h children) rows ok =
      attribute-Decided env h _ (attribution_for_all-Decided env children rows ok)

  pub attribution_for_all-Decided :
      (env : Pass) (is : Children) (rows : List DecisionRow)
      → Decided rows
      → Decided (attribution_for_all env is rows)
  attribution_for_all-Decided env no_more rows ok = ok
  attribution_for_all-Decided env (child i rest) rows ok =
      attribution_for_all-Decided env rest _ (attribution_for-Decided env i rows ok)

-- ===== src/Ownership/Owners.antt =====
-- The walk of src/classify/ownership/mod.rs names as owners only sessions that it has found.
use wyd.Common.{
  ℕ, ◌≡◌, refl, sym, subst, true, ◌||◌, Option, none, some, List, [], ◌∷◌, ◌++◌, ◌==◌, All, All-map,
  All-append, any, any-append, arith, ◌∙◌, ap, OnSome,
}
use wyd.Identity.{ProcessIdentity}
use wyd.Runtime.{Head, RuntimeItem, item, Children, no_more, child}
use wyd.Ownership.{
  RuntimeSession, OwnedResource, OwnershipResult, root_of, started, resource_of, visit, visit_owned,
  visit_started, walk, walk_children, derive_ownership,
}

abbrev pub IsSession : List RuntimeSession → ℕ → Type 0
IsSession ss id = any (λ (s : RuntimeSession). s.id == id) ss ≡ true

abbrev pub Owners : OwnershipResult → Type 0
Owners out = All (λ (o : OwnedResource). IsSession out.sessions o.session) out.owned

-- The session around is one of the result's.
abbrev Around : OwnershipResult → Option ℕ → Type 0
Around out outer = OnSome (IsSession out.sessions) outer

IsSession-append :
    (xs ys : List RuntimeSession) (id : ℕ) → IsSession xs id → IsSession (xs ++ ys) id
IsSession-append xs ys id h =
    any-append (λ s. s.id == id) xs ys ∙ ap (λ b. b || any (λ s. s.id == id) ys) h

IsSession-last : (xs : List RuntimeSession) (s : RuntimeSession) → IsSession (xs ++ s ∷ []) s.id
unfolding any
IsSession-last xs s = any-append (λ r. r.id == s.id) xs (s ∷ []) ∙ grind arith

-- Every session of one result is one of another.
abbrev Grows : OwnershipResult → OwnershipResult → Type 0
Grows out out' = (id : ℕ) → IsSession out.sessions id → IsSession out'.sessions id

Around-Grows :
    (out out' : OwnershipResult) (outer : Option ℕ)
    → Grows out out'
    → Around out outer
    → Around out' outer
Around-Grows out out' none grow h = tt
Around-Grows out out' (some s) grow h = grow s h

module _ (identities : ℕ → Option ProcessIdentity) (now : ℕ) where
  visit_owned-Owners :
      (h : Head) (outer : Option ℕ) (root : Option ProcessIdentity) (out : OwnershipResult)
      → Owners out
      → Around out outer
      → Owners (visit_owned identities h outer root out)
  visit_owned-Owners h none root out ok around = ok
  visit_owned-Owners h (some s) none out ok around = ok
  visit_owned-Owners h (some s) (some root) out ok around =
      All-append (λ (o : OwnedResource). IsSession out.sessions o.session) out.owned
        (resource_of identities h s root ∷ []) ok (around, tt)

  visit_owned-sessions :
      (h : Head) (outer : Option ℕ) (root : Option ProcessIdentity) (out : OwnershipResult)
      → (visit_owned identities h outer root out).sessions ≡ out.sessions
  visit_owned-sessions h none root out = refl
  visit_owned-sessions h (some s) none out = refl
  visit_owned-sessions h (some s) (some root) out = refl

  visit_started-Owners :
      (h : Head) (outer : Option ℕ) (o : Option RuntimeSession) (out : OwnershipResult)
      → Owners out
      → Around out outer
      → Owners (visit_started identities h outer o out).0
        × Grows out (visit_started identities h outer o out).0
        × Around
            (visit_started identities h outer o out).0
            (visit_started identities h outer o out).1
  visit_started-Owners h outer none out ok around =
      let root = root_of identities h in
      let out' = visit_owned identities h outer root out in
      let grow : Grows out out' =
        λ id k. subst (λ ss. IsSession ss id) (sym (visit_owned-sessions h outer root out)) k in
      (visit_owned-Owners h outer root out ok around, grow, Around-Grows out out' outer grow around)
  visit_started-Owners h outer (some s) out ok around = (
    All-map (λ o k. IsSession-append out.sessions (s ∷ []) o.session k) out.owned ok,
    IsSession-append out.sessions (s ∷ []),
    IsSession-last out.sessions s,
  )

  mutual
    unfolding walk walk_children visit

    walk-Owners :
        (i : RuntimeItem) (outer : Option ℕ) (out : OwnershipResult)
        → Owners out
        → Around out outer
        → Owners (walk identities now i outer out) × Grows out (walk identities now i outer out)
    walk-Owners (item h children) outer out ok around =
        let (ok₁, grow₁, around₁) =
          visit_started-Owners h outer (started identities now h) out ok around in
        let (ok₂, grow₂) = walk_children-Owners children _ _ ok₁ around₁ in
        (ok₂, λ id k. grow₂ id (grow₁ id k))

    walk_children-Owners :
        (is : Children) (outer : Option ℕ) (out : OwnershipResult)
        → Owners out
        → Around out outer
        → Owners (walk_children identities now is outer out)
          × Grows out (walk_children identities now is outer out)
    walk_children-Owners no_more outer out ok around = (ok, λ id k. k)
    walk_children-Owners (child i rest) outer out ok around =
        let out₁ = walk identities now i outer out in
        let (ok₁, grow₁) = walk-Owners i outer out ok around in
        let (ok₂, grow₂) =
          walk_children-Owners rest outer out₁ ok₁ (Around-Grows out out₁ outer grow₁ around) in
        (ok₂, λ id k. grow₂ id (grow₁ id k))

  -- Each owner of a pass is a session of the pass.
  pub derive_ownership-Owners : (items : Children) → Owners (derive_ownership items identities now)
  unfolding derive_ownership
  derive_ownership-Owners items =
      (walk_children-Owners items none (record { sessions = []; owned = [] }) tt tt).0

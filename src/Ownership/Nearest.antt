-- ===== src/Ownership/Nearest.antt =====
-- The walk of src/classify/ownership/mod.rs against a description that looks at each item alone.
use mathlib.Core.List.{append_assoc, append-nil}
use wyd.Common.{ℕ, ◌≡◌, refl, ap, ◌∙◌, sym, Option, none, some, List, [], ◌∷◌, ◌++◌}
use wyd.Identity.{ProcessIdentity}
use wyd.Runtime.{Head, RuntimeItem, item, Children, no_more, child}
use wyd.Ownership.{
  RuntimeSession, OwnedResource, OwnershipResult, push, root_of, started, resource_of, visit,
  visit_started, walk, walk_children, derive_ownership,
}

-- An item and the items around it, the nearest first.
abbrev pub Place : Type 0
Place = List Head × Head

-- The items of a tree, an item before its children.
unfoldable mutual
  pub places : List Head → RuntimeItem → List Place
  places around (item h children) = (around, h) ∷ places_of_children (h ∷ around) children

  pub places_of_children : List Head → Children → List Place
  places_of_children around no_more = []
  places_of_children around (child i rest) = places around i ++ places_of_children around rest

unfoldable pub filter_map {ℓ κ} : {A : Type ℓ} {B : Type κ} → (A → Option B) → List A → List B
filter_map f [] = []
filter_map f (x ∷ xs) = push (f x) (filter_map f xs)

push-append {ℓ} : {A : Type ℓ} (o : Option A) (xs ys : List A) → push o (xs ++ ys) ≡ push o xs ++ ys
push-append none xs ys = refl
push-append (some x) xs ys = refl

filter_map-append {ℓ κ} :
    {A : Type ℓ} {B : Type κ} (f : A → Option B) (xs ys : List A)
    → filter_map f (xs ++ ys) ≡ filter_map f xs ++ filter_map f ys
unfolding filter_map
filter_map-append f [] ys = refl
filter_map-append f (x ∷ xs) ys =
    ap (push (f x)) (filter_map-append f xs ys)
    ∙ push-append (f x) (filter_map f xs) (filter_map f ys)

module _ (identities : ℕ → Option ProcessIdentity) (now : ℕ) where
  abbrev session_or : Option RuntimeSession → Option ℕ → Option ℕ
  session_or (some s) outer = some s.id
  session_or none outer = outer

  -- The session that the nearest of some items starts.
  unfoldable pub nearest : List Head → Option ℕ
  nearest [] = none
  nearest (h ∷ hs) = session_or (started identities now h) (nearest hs)

  abbrev owned_from :
      Head → Option RuntimeSession → Option ℕ → Option ProcessIdentity → Option OwnedResource
  owned_from h none (some session) (some root) = some (resource_of identities h session root)
  owned_from h _ _ _ = none

  -- An item that starts no session itself, has an identity and has a session around it is owned by
  -- the nearest one.
  unfoldable pub owned_at : Place → Option OwnedResource
  owned_at (around, h) =
      owned_from h (started identities now h) (nearest around) (root_of identities h)

  unfoldable pub started_at : Place → Option RuntimeSession
  started_at (around, h) = started identities now h

  abbrev extended : OwnershipResult → List Place → OwnershipResult
  extended out ps = record {
    sessions = out.sessions ++ filter_map started_at ps;
    owned = out.owned ++ filter_map owned_at ps;
  }

  result_path :
      {out out' : OwnershipResult}
      → out.sessions ≡ out'.sessions
      → out.owned ≡ out'.owned
      → out ≡ out'
  result_path e f = λ i. record { sessions = e i; owned = f i }

  visit-started :
      (h : Head) (outer : Option ℕ) (o : Option RuntimeSession) (root : Option ProcessIdentity)
      (out : OwnershipResult)
      → root_of identities h ≡ root
      → visit_started identities h outer o out ≡ (
        record {
          sessions = out.sessions ++ push o [];
          owned = out.owned ++ push (owned_from h o outer root) [];
        },
        session_or o outer,
      )
  visit-started h outer (some s) root out e =
      ap (λ r. (r, some s.id)) (result_path refl (sym (append-nil out.owned)))
  visit-started h none none root out e =
      ap (λ r. (r, none)) (result_path (sym (append-nil out.sessions)) (sym (append-nil out.owned)))
  visit-started h (some session) none none out e = rw e (
      ap (λ r. (r, some session))
        (result_path (sym (append-nil out.sessions)) (sym (append-nil out.owned))))
  visit-started h (some session) none (some root) out e =
      rw e (ap (λ r. (r, some session)) (result_path (sym (append-nil out.sessions)) refl))

  extended-append :
      (out : OwnershipResult) (xs ys : List Place)
      → extended (extended out xs) ys ≡ extended out (xs ++ ys)
  extended-append out xs ys =
      result_path
        (append_assoc out.sessions (filter_map started_at xs) (filter_map started_at ys)
          ∙ ap (◌++◌ out.sessions) (sym (filter_map-append started_at xs ys)))
        (append_assoc out.owned (filter_map owned_at xs) (filter_map owned_at ys)
          ∙ ap (◌++◌ out.owned) (sym (filter_map-append owned_at xs ys)))

  visit-extended :
      (h : Head) (around : List Head) (out : OwnershipResult)
      → visit identities now h (nearest around) out
        ≡ (extended out ((around, h) ∷ []), nearest (h ∷ around))
  unfolding visit nearest owned_at started_at filter_map
  visit-extended h around out =
      visit-started h (nearest around) (started identities now h) (root_of identities h) out refl

  mutual
    unfolding walk walk_children places places_of_children filter_map

    walk-extended :
        (i : RuntimeItem) (around : List Head) (out : OwnershipResult)
        → walk identities now i (nearest around) out ≡ extended out (places around i)
    walk-extended (item h children) around out =
        let out₁ = extended out ((around, h) ∷ []) in
        ap (λ (v : OwnershipResult × Option ℕ). walk_children identities now children v.1 v.0)
          (visit-extended h around out)
        ∙ walk_children-extended children (h ∷ around) out₁
        ∙ extended-append out ((around, h) ∷ []) (places_of_children (h ∷ around) children)

    walk_children-extended :
        (is : Children) (around : List Head) (out : OwnershipResult)
        → walk_children identities now is (nearest around) out
          ≡ extended out (places_of_children around is)
    walk_children-extended no_more around out =
        result_path (sym (append-nil out.sessions)) (sym (append-nil out.owned))
    walk_children-extended (child i rest) around out =
        ap (walk_children identities now rest (nearest around)) (walk-extended i around out)
        ∙ walk_children-extended rest around (extended out (places around i))
        ∙ extended-append out (places around i) (places_of_children around rest)

  -- The walk finds, item by item and in the order of the tree, the session of each agent that has
  -- an identity, and the resource of each other item that has an identity and an agent with one
  -- around it: the nearest such agent is the owner, whatever stands between.
  pub derive_ownership-nearest :
      (items : Children)
      → derive_ownership items identities now ≡ record {
        sessions = filter_map started_at (places_of_children [] items);
        owned = filter_map owned_at (places_of_children [] items);
      }
  unfolding derive_ownership nearest
  derive_ownership-nearest items =
      walk_children-extended items [] (record { sessions = []; owned = [] })

-- ===== src/Provenance/Applied.antt =====
-- `apply_ownership` of src/store.rs: when its transaction succeeds, and what it then has recorded.
use wyd.Common.{
  ℕ, ◌≡◌, refl, ap, ◌∙◌, sym, inl, inr, Bool, true, false, not, ◌&&◌, ◌||◌, List, [], ◌∷◌, ◌++◌,
  ◌==◌, Option, none, some, is_some, Option-cases, Bool-cases, retain, any, any-append, arith,
}
use wyd.Identity.{ProcessIdentity}
use wyd.Ownership.{OwnedResource, OwnershipResult}
use wyd.Provenance.{
  MemberRow, Tables, same_process, insert_members, apply_sessions, apply_owned, with_members,
  apply_all_owned, apply_ownership,
}

-- No process comes twice.
unfoldable pub distinct : List ProcessIdentity → Bool
distinct [] = true
distinct (p ∷ ps) = not (any (same_process p) ps) && distinct ps

unfoldable pub all_distinct : List OwnedResource → Bool
all_distinct [] = true
all_distinct (o ∷ os) = distinct o.members && all_distinct os

abbrev pub is_member : ℕ → List MemberRow → ProcessIdentity → Bool
is_member rid rows p = any (λ m. m.resource == rid && same_process m.process p) rows

any-or :
    (q r : ProcessIdentity → Bool) (rs : ProcessIdentity → Bool) (ps : List ProcessIdentity)
    → ((p : ProcessIdentity) → rs p ≡ (q p || r p))
    → any rs ps ≡ (any q ps || any r ps)
unfolding any
any-or q r rs [] e = refl
any-or q r rs (p ∷ ps) e = ground (arith, e p, any-or q r rs ps e)

or-same : (a s : Bool) (n : ℕ) → (a || (((n == n) && s) || false)) ≡ (a || s)
or-same a s n = ground arith

not-or : (a b d : Bool) → (not (a || b) && d) ≡ (not a && (not b && d))
not-or a b d = ground arith

pub is_member-append :
    (rid : ℕ) (rows : List MemberRow) (p q : ProcessIdentity)
    → is_member rid (rows ++ record { resource = rid; process = p } ∷ []) q
      ≡ (is_member rid rows q || same_process p q)
unfolding any
is_member-append rid rows p q =
    any-append _ rows (record { resource = rid; process = p } ∷ [])
    ∙ or-same (any (λ m. m.resource == rid && same_process m.process q) rows) (same_process p q) rid

insert_members-is_some :
    (rid : ℕ) (ps : List ProcessIdentity) (rows : List MemberRow)
    → is_some (insert_members rid ps rows) ≡ (not (any (is_member rid rows) ps) && distinct ps)
unfolding insert_members distinct any
insert_members-is_some rid [] rows = refl
insert_members-is_some rid (p ∷ ps) rows = elim (Bool-cases (is_member rid rows p)) [
  | inl e ↦ rw e refl
  | inr e ↦ rw e (
      insert_members-is_some rid ps (rows ++ record { resource = rid; process = p } ∷ [])
      ∙ ap (λ b. not b && distinct ps)
          (any-or (is_member rid rows) (same_process p)
            (is_member rid (rows ++ record { resource = rid; process = p } ∷ [])) ps
            (is_member-append rid rows p))
      ∙ not-or (any (is_member rid rows) ps) (any (same_process p) ps) (distinct ps))
]

is_member-retain :
    (rid : ℕ) (rows : List MemberRow) (p : ProcessIdentity)
    → is_member rid (retain (λ m. not (m.resource == rid)) rows) p ≡ false
unfolding any retain
is_member-retain rid [] p = refl
is_member-retain rid (m ∷ rows) p = elim (Bool-cases (m.resource == rid)) [
  | inl e ↦ rw e (is_member-retain rid rows p)
  | inr e ↦ rw e (rw e (is_member-retain rid rows p))
]

any-none :
    (q : ProcessIdentity → Bool) (ps : List ProcessIdentity)
    → ((p : ProcessIdentity) → q p ≡ false)
    → any q ps ≡ false
unfolding any
any-none q [] h = refl
any-none q (p ∷ ps) h = ground (arith, h p, any-none q ps h)

apply_owned-is_some :
    (o : OwnedResource) (now : ℕ) (t : Tables) → is_some (apply_owned o now t) ≡ distinct o.members
unfolding apply_owned
apply_owned-is_some o now t =
    let rest = retain (λ (m : MemberRow). not (m.resource == o.resource)) t.members in
    same_some (insert_members o.resource o.members rest)
    ∙ insert_members-is_some o.resource o.members rest
    ∙ ap (λ b. not b && distinct o.members)
        (any-none (is_member o.resource rest) o.members (is_member-retain o.resource t.members))
  where
    same_some :
        (found : Option (List MemberRow)) → is_some (with_members o now t found) ≡ is_some found
    same_some none = refl
    same_some (some ms) = refl

pub apply_all_owned-is_some :
    (os : List OwnedResource) (now : ℕ) (t : Tables)
    → is_some (apply_all_owned os now t) ≡ all_distinct os
unfolding apply_all_owned all_distinct
apply_all_owned-is_some [] now t = refl
apply_all_owned-is_some (o ∷ os) now t = elim (Option-cases (apply_owned o now t)) [
  | inl e ↦
      rw (e, apply_all_owned)
        (ap (λ b. b && all_distinct os) (sym (ap is_some e) ∙ apply_owned-is_some o now t))
  | inr (t₁, e) ↦
      rw (e, apply_all_owned)
        (apply_all_owned-is_some os now t₁
          ∙ ap (λ b. b && all_distinct os) (sym (ap is_some e) ∙ apply_owned-is_some o now t))
]

-- The transaction of a pass succeeds exactly if no resource of the pass lists a process twice,
-- whatever the tables hold already.
pub apply_ownership-is_some :
    (result : OwnershipResult) (now : ℕ) (t : Tables)
    → is_some (apply_ownership result now t) ≡ all_distinct result.owned
unfolding apply_ownership
apply_ownership-is_some result now t =
    apply_all_owned-is_some result.owned now (apply_sessions result.sessions now t)

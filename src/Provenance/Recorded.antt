-- ===== src/Provenance/Recorded.antt =====
-- What `apply_ownership` of src/store.rs has recorded of a pass when it succeeds.
use wyd.Common.{
  ℕ, ◌≡◌, refl, ap, ◌∙◌, sym, subst, ◌⊎◌, inl, inr, Bool, true, false, not, ◌&&◌, ◌||◌, List, [],
  ◌∷◌, ◌++◌, ◌==◌, ==_iff, if◌then◌else◌, Option, none, some, is_some, and-eq_true, Option-cases,
  Bool-cases, All, All-map, retain, any, any-append, any-upsert, any-upsert_key, upsert-All,
  upsert-sets, any-retain_kept, flat_map, arith,
}
use wyd.Identity.{ProcessIdentity}
use wyd.Ownership.{OwnedResource, OwnershipResult}
use wyd.Provenance.{
  MemberRow, OwnershipRow, Tables, has, same_process, insert_members, apply_sessions,
  apply_resource, apply_edge, apply_owned, with_members, apply_all_owned, apply_ownership,
}
use wyd.Provenance.Lookup.{owners, owner_rows, member_owners, root_owners}
use wyd.Provenance.Applied.{is_member, is_member-append, all_distinct, apply_ownership-is_some}

-- What the tables hold of an owned resource: an owner, no other owner, and each member.
record Recorded (o : OwnedResource) (t : Tables) : Type 0 where
  owned : any (λ e. e.resource == o.resource) t.ownership ≡ true
  alone : All (λ e. ((e.resource == o.resource) ≡ false) ⊎ (e.session ≡ o.session)) t.ownership
  members : All (λ p. is_member o.resource t.members p ≡ true) o.members

or_self : (a : Bool) (p : ProcessIdentity) → (a || same_process p p) ≡ true
or_self a p = ground arith

abbrev with_row : ℕ → ProcessIdentity → List MemberRow → List MemberRow
with_row rid p rows = rows ++ record { resource = rid; process = p } ∷ []

insert_members-step :
    (rid : ℕ) (p : ProcessIdentity) (ps : List ProcessIdentity) (rows ms : List MemberRow)
    → insert_members rid (p ∷ ps) rows ≡ some ms
    → insert_members rid ps (with_row rid p rows) ≡ some ms
unfolding insert_members
insert_members-step rid p ps rows ms e = elim (Bool-cases (is_member rid rows p)) [
  | inl k ↦ let failed : insert_members rid (p ∷ ps) rows ≡ none = rw k refl in absurd (cc)
  | inr k ↦
      let passed : insert_members rid (p ∷ ps) rows ≡ insert_members rid ps (with_row rid p rows) =
        rw k refl in
      sym passed ∙ e
]

insert_members-more :
    (rid r : ℕ) (q : ProcessIdentity) (ps : List ProcessIdentity) (rows ms : List MemberRow)
    → insert_members rid ps rows ≡ some ms
    → is_member r rows q ≡ true
    → is_member r ms q ≡ true
unfolding insert_members
insert_members-more rid r q [] rows ms e h = subst (λ xs. is_member r xs q ≡ true) (cc) h
insert_members-more rid r q (p ∷ ps) rows ms e h =
    insert_members-more rid r q ps (with_row rid p rows) ms (insert_members-step rid p ps rows ms e)
      (any-append (λ m. m.resource == r && same_process m.process q) rows _
        ∙ ap (λ b. b || is_member r (with_row rid p []) q) h)

insert_members-All :
    (rid : ℕ) (ps : List ProcessIdentity) (rows ms : List MemberRow)
    → insert_members rid ps rows ≡ some ms
    → All (λ p. is_member rid ms p ≡ true) ps
insert_members-All rid [] rows ms e = tt
insert_members-All rid (p ∷ ps) rows ms e =
    let e' = insert_members-step rid p ps rows ms e in
    (
      insert_members-more rid rid p ps (with_row rid p rows) ms e'
          (is_member-append rid rows p p ∙ or_self (is_member rid rows p) p),
      insert_members-All rid ps (with_row rid p rows) ms e',
    )

-- What a success of `apply_owned` is made of.
apply_owned-split :
    (o : OwnedResource) (now : ℕ) (t t' : Tables)
    → apply_owned o now t ≡ some t'
    → (insert_members o.resource o.members (retain (λ m. not (m.resource == o.resource)) t.members)
        ≡ some t'.members)
      × (t'.ownership ≡ apply_edge o t.ownership)
unfolding apply_owned
apply_owned-split o now t t' e =
    split
      (insert_members o.resource o.members (retain (λ m. not (m.resource == o.resource)) t.members))
      e
  where
    split :
        (found : Option (List MemberRow))
        → with_members o now t found ≡ some t'
        → (found ≡ some t'.members) × (t'.ownership ≡ apply_edge o t.ownership)
    split none e = absurd (cc)
    split (some ms) e =
        let same : record t {
          resources = apply_resource o now t.resources;
          members = ms;
          ownership = apply_edge o t.ownership;
        }
            ≡ t' =
          cc in
        (ap (λ (x : Tables). some x.members) same, sym (ap (λ (x : Tables). x.ownership) same))

-- The rows of `exact_ownership` that are not another resource's have the session.
abbrev Alone : OwnedResource → OwnershipRow → Type 0
Alone o e = ((e.resource == o.resource) ≡ false) ⊎ (e.session ≡ o.session)

other_id : (a b c : ℕ) → (b == c) ≡ false → (a == b) ≡ true → (a == c) ≡ false
other_id a b c h k = ground arith

stays : (a b c : ℕ) (s : Bool) → (b == c) ≡ false → ((a == c) && s) ≡ true → not (a == b) ≡ true
stays a b c s h k = ground arith

apply_owned-Recorded :
    (o : OwnedResource) (now : ℕ) (t t' : Tables) → apply_owned o now t ≡ some t' → Recorded o t'
unfolding apply_edge
apply_owned-Recorded o now t t' e =
    let (ms, es) = apply_owned-split o now t t' e in
    record {
      owned =
          ap (any (λ e. e.resource == o.resource)) es
          ∙ any-upsert_key (λ e. e.resource == o.resource) _ _ t.ownership (λ e. refl)
              (grind arith);
      alone = subst (All (Alone o)) (sym es) (
          upsert-sets (Alone o) (λ e. e.resource == o.resource) _ _ t.ownership (λ e k. inl k)
            (λ e k. inr refl) (inr refl));
      members = insert_members-All o.resource o.members _ t'.members ms;
    }

apply_owned-keeps :
    (o o' : OwnedResource) (now : ℕ) (t t' : Tables)
    → (o'.resource == o.resource) ≡ false
    → apply_owned o' now t ≡ some t'
    → Recorded o t
    → Recorded o t'
unfolding apply_edge
apply_owned-keeps o o' now t t' other e r =
    let (ms, es) = apply_owned-split o' now t t' e in
    record {
      owned =
          ap (any (λ e. e.resource == o.resource)) es
          ∙ any-upsert (λ e. e.resource == o'.resource) (λ e. e.resource == o.resource) _ _
              t.ownership (λ e. refl) r.owned;
      alone = subst (All (Alone o)) (sym es) (
          upsert-All (Alone o) (λ e. e.resource == o'.resource) _ _ t.ownership
            (λ e k h. inl (other_id e.resource o'.resource o.resource other k)) (inl other)
            r.alone);
      members =
          All-map
            (λ p h. insert_members-more o'.resource o.resource p o'.members _ t'.members ms (
              any-retain_kept (λ m. not (m.resource == o'.resource))
                (λ m. m.resource == o.resource && same_process m.process p) t.members
                (λ m k. stays m.resource o'.resource o.resource _ other k) h))
            o.members r.members;
    }

apply_all_owned-split :
    (o : OwnedResource) (os : List OwnedResource) (now : ℕ) (t t' : Tables)
    → apply_all_owned (o ∷ os) now t ≡ some t'
    → (t₁ : Tables) × (apply_owned o now t ≡ some t₁) × (apply_all_owned os now t₁ ≡ some t')
unfolding apply_all_owned
apply_all_owned-split o os now t t' e = elim (Option-cases (apply_owned o now t)) [
  | inl k ↦
      absurd
        (let failed : apply_all_owned (o ∷ os) now t ≡ none = rw (k, apply_all_owned) refl in cc)
  | inr (t₁, k) ↦
      let passed : apply_all_owned (o ∷ os) now t ≡ apply_all_owned os now t₁ =
        rw (k, apply_all_owned) refl in
      (t₁, k, sym passed ∙ e)
]

apply_all_owned-keeps :
    (o : OwnedResource) (os : List OwnedResource) (now : ℕ) (t t' : Tables)
    → All (λ x. (x.resource == o.resource) ≡ false) os
    → apply_all_owned os now t ≡ some t'
    → Recorded o t
    → Recorded o t'
unfolding apply_all_owned
apply_all_owned-keeps o [] now t t' others e r = subst (Recorded o) (cc) r
apply_all_owned-keeps o (x ∷ os) now t t' others e r =
    let (t₁, first, rest) = apply_all_owned-split x os now t t' e in
    apply_all_owned-keeps o os now t₁ t' others.1 rest
      (apply_owned-keeps o x now t t₁ others.0 first r)

apply_all_owned-Recorded :
    (o : OwnedResource) (before after : List OwnedResource) (now : ℕ) (t t' : Tables)
    → All (λ x. (x.resource == o.resource) ≡ false) after
    → apply_all_owned (before ++ o ∷ after) now t ≡ some t'
    → Recorded o t'
apply_all_owned-Recorded o [] after now t t' others e =
    let (t₁, first, rest) = apply_all_owned-split o after now t t' e in
    apply_all_owned-keeps o after now t₁ t' others rest (apply_owned-Recorded o now t t₁ first)
apply_all_owned-Recorded o (x ∷ before) after now t t' others e =
    let (t₁, first, rest) = apply_all_owned-split x (before ++ o ∷ after) now t t' e in
    apply_all_owned-Recorded o before after now t₁ t' others rest

or-right : (a b : Bool) → b ≡ true → (a || b) ≡ true
or-right a b h = ground arith

owners-Alone :
    (o : OwnedResource) (rows : List OwnershipRow)
    → All (Alone o) rows
    → All (λ s. s ≡ o.session) (owners rows o.resource)
unfolding owners retain
owners-Alone o [] h = tt
owners-Alone o (e ∷ rows) h = elim (Bool-cases (e.resource == o.resource)) [
  | inr k ↦ rw k (owners-Alone o rows h.1)
  | inl k ↦ rw k (elim h.0 [ inl other ↦ absurd (cc) | inr same ↦ (same, owners-Alone o rows h.1) ])
]

owners-has :
    (o : OwnedResource) (rows : List OwnershipRow)
    → All (Alone o) rows
    → any (λ e. e.resource == o.resource) rows ≡ true
    → has (owners rows o.resource) o.session ≡ true
unfolding owners retain any
owners-has o [] h k = absurd (cc)
owners-has o (e ∷ rows) h k = elim (Bool-cases (e.resource == o.resource)) [
  | inr l ↦ rw l (owners-has o rows h.1 (ground arith))
  | inl l ↦ rw l (elim h.0 [ inl other ↦ absurd (cc) | inr same ↦ ground arith ])
]

member_owners-has :
    (rows : List OwnershipRow) (p : ProcessIdentity) (rid s : ℕ) (ms : List MemberRow)
    → is_member rid ms p ≡ true
    → has (owners rows rid) s ≡ true
    → has (flat_map (member_owners rows p) ms) s ≡ true
unfolding any flat_map
member_owners-has rows p rid s [] h k = absurd (cc)
member_owners-has rows p rid s (m ∷ ms) h k =
    any-append (◌==◌ s) (member_owners rows p m) (flat_map (member_owners rows p) ms)
    ∙ elim (Bool-cases (m.resource == rid && same_process m.process p)) [
      | inl e ↦
          let (id, same) = and-eq_true (m.resource == rid) (same_process m.process p) e in
          let found : has (member_owners rows p m) s ≡ true =
            ap (any (◌==◌ s)) (
              ap (λ b. if b then owners rows m.resource else []) same
              ∙ ap (owners rows) ((==_iff m.resource rid).0 id))
            ∙ k in
          ap (λ b. b || any (◌==◌ s) (flat_map (member_owners rows p) ms)) found
      | inr e ↦ or-right _ _ (member_owners-has rows p rid s ms (ground arith) k)
    ]

-- What a pass whose items list no process twice has recorded, with the result it succeeds with.
abbrev pub Records : OwnershipResult → ℕ → Tables → OwnedResource → Type 0
Records result now t o =
    (t' : Tables) × (apply_ownership result now t ≡ some t')
    × (has (owners t'.ownership o.resource) o.session ≡ true)
    × All (λ s. s ≡ o.session) (owners t'.ownership o.resource)
    × All (λ p. has (owner_rows t' p) o.session ≡ true) o.members

-- A pass that lists no process twice within a resource succeeds. Then a resource of the pass, the last
-- one with its id, has the session of the pass for its owner and no other, whatever was recorded
-- before, and the query for the owner of each of its members finds that session.
pub apply_ownership-Records :
    (result : OwnershipResult) (now : ℕ) (t : Tables) (o : OwnedResource)
    (before after : List OwnedResource)
    → all_distinct result.owned ≡ true
    → result.owned ≡ before ++ o ∷ after
    → All (λ x. (x.resource == o.resource) ≡ false) after
    → Records result now t o
unfolding apply_ownership owner_rows
apply_ownership-Records result now t o before after d e others =
    elim (Option-cases (apply_ownership result now t)) [
      | inl k ↦
          absurd (let failed = sym (ap is_some k) ∙ apply_ownership-is_some result now t ∙ d in cc)
      | inr (t', k) ↦
          let done =
            apply_all_owned-Recorded o before after now (apply_sessions result.sessions now t) t'
              others
              (ap (λ os. apply_all_owned os now (apply_sessions result.sessions now t)) (sym e)
                ∙ k) in
          let found = owners-has o t'.ownership done.alone done.owned in
          (
            t',
            k,
            found,
            owners-Alone o t'.ownership done.alone,
            All-map
                (λ p h.
                  any-append (◌==◌ o.session) (flat_map (member_owners t'.ownership p) t'.members) _
                  ∙ ap
                      (λ b.
                        b
                        || any (◌==◌ o.session)
                            (flat_map (root_owners t'.ownership p) t'.resources))
                      (member_owners-has t'.ownership p o.resource o.session t'.members h found))
                o.members done.members,
          )
    ]

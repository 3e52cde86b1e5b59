-- ===== src/Provenance/Explain.antt =====
-- What `explain_process` of src/store.rs answers.
use mathlib.Core.Option
use wyd.Common.{
  ℕ, ◌≡◌, refl, ap, ◌∙◌, sym, subst, ◌⊎◌, inl, inr, Bool, true, List, [], ◌∷◌, ◌++◌, ◌==◌, ==_iff,
  map, retain, flat_map, if◌then◌else◌, Option, none, some, Bool-cases, All, All-map, All-append,
  All-any, any, retain-keep, retain-drop, find?, arith,
}
use wyd.Identity.{ProcessIdentity}
use wyd.Provenance.{
  SessionRow, ResourceRow, MemberRow, OwnershipRow, Tables, no_tables, has, same_process,
}
use wyd.Provenance.Gc.{has_session}
use wyd.Provenance.Integrity.{Integrity}
use wyd.Provenance.History.{Call, steps, steps-Integrity, no_tables-Integrity}
use wyd.Provenance.Lookup.{
  Picks, Explanation, explained, unexplained, owner_rows, owners, root_owners, session_record,
  session_record_of, resource_rows, owning_session_for_process, explain_process,
}

owners-known :
    (ss : List SessionRow) (rows : List OwnershipRow) (id : ℕ)
    → All (λ e. has_session ss e.session ≡ true) rows
    → All (λ s. has_session ss s ≡ true) (owners rows id)
unfolding owners retain
owners-known ss [] id ok = tt
owners-known ss (e ∷ rows) id ok = elim (Bool-cases (e.resource == id)) [
  | inl k ↦ rw k (ok.0, owners-known ss rows id ok.1)
  | inr k ↦ rw k (owners-known ss rows id ok.1)
]

module _ {A : Type 0} (test : A → Bool) (id : A → ℕ) (rows : List OwnershipRow) where
  abbrev joined : A → List ℕ
  joined x = if test x then owners rows (id x) else []

  joined-known :
      (ss : List SessionRow) (xs : List A)
      → All (λ e. has_session ss e.session ≡ true) rows
      → All (λ s. has_session ss s ≡ true) (flat_map joined xs)
  unfolding flat_map
  joined-known ss [] ok = tt
  joined-known ss (x ∷ xs) ok = elim (Bool-cases (test x)) [
    | inl k ↦ rw k (
        All-append (λ s. has_session ss s ≡ true) _ _ (owners-known ss rows (id x) ok)
          (joined-known ss xs ok))
    | inr k ↦ rw k (joined-known ss xs ok)
  ]

  joined-none : (xs : List A) → map id (retain test xs) ≡ [] → flat_map joined xs ≡ []
  unfolding flat_map retain
  joined-none [] h = refl
  joined-none (x ∷ xs) h = elim (Bool-cases (test x)) [
    | inl k ↦ absurd (
        let e : map id (x ∷ retain test xs) ≡ [] =
          sym (ap (map id) (retain-keep test x xs k)) ∙ h in
        cc)
    | inr k ↦ rw k (joined-none xs (sym (ap (map id) (retain-drop test x xs k)) ∙ h))
  ]

append-none : (xs ys : List ℕ) → xs ++ ys ≡ [] → (xs ≡ []) × (ys ≡ [])
append-none [] ys h = (refl, h)
append-none (x ∷ xs) ys h = absurd (cc)

find?-session :
    (ss : List SessionRow) (id : ℕ)
    → has_session ss id ≡ true
    → (r : SessionRow) × (find? (λ r. r.id == id) ss ≡ some r) × (r.id ≡ id)
unfolding any find?
find?-session [] id h = absurd (cc)
find?-session (r ∷ ss) id h = elim (Bool-cases (r.id == id)) [
  | inl e ↦ (r, rw e refl, (==_iff r.id id).0 e)
  | inr e ↦ let (r', o, same) = find?-session ss id (ground arith) in (r', rw e o, same)
]

-- An owner is answered with its record, no owner with no explanation.
abbrev pub Answers : (List ℕ → Option ℕ) → Tables → ProcessIdentity → Type 0
Answers pick t p =
    ((owning_session_for_process pick t p ≡ none) × (explain_process pick t p ≡ unexplained))
    ⊎ ((e : Explanation) × (owning_session_for_process pick t p ≡ some e.owner)
        × (explain_process pick t p ≡ explained e)
        × (session_record e.owner t ≡ some e.session)
        × (e.session.id ≡ e.owner)
        × (has (resource_rows t p) e.resource_id ≡ true))

module _ (pick : List ℕ → Option ℕ) (picks : Picks pick) (t : Tables) (p : ProcessIdentity) where
  owner_rows-known : Integrity t → All (λ s. has_session t.sessions s ≡ true) (owner_rows t p)
  unfolding owner_rows
  owner_rows-known ok =
      let edges = All-map (λ e k. k.1) t.ownership ok.edges_known in
      All-append (λ s. has_session t.sessions s ≡ true) _ _
        (joined-known (λ (m : MemberRow). same_process m.process p) (λ m. m.resource) t.ownership
          t.sessions t.members edges)
        (joined-known (λ (r : ResourceRow). same_process r.root p) (λ r. r.id) t.ownership
          t.sessions t.resources edges)

  -- A process with no resource has no owner.
  resource_rows-none : resource_rows t p ≡ [] → owner_rows t p ≡ []
  unfolding resource_rows owner_rows
  resource_rows-none h =
      let (members, roots) = append-none _ _ h in
      ap (λ xs. xs ++ flat_map (root_owners t.ownership p) t.resources)
        (joined-none (λ (m : MemberRow). same_process m.process p) (λ m. m.resource) t.ownership
          t.members members)
      ∙ joined-none (λ (r : ResourceRow). same_process r.root p) (λ r. r.id) t.ownership t.resources
          roots

  explain_process-Answers : Integrity t → Answers pick t p
  unfolding explain_process owning_session_for_process session_record any
  explain_process-Answers ok = elim (picks (owner_rows t p)) [
    | inl (rows, e) ↦ inl (e, rw (e, explain_process) refl)
    | inr (owner, e, found) ↦ elim (picks (resource_rows t p)) [
      | inl (rows, f) ↦ absurd (
          let k : has [] owner ≡ true =
            subst (λ xs. has xs owner ≡ true) (resource_rows-none rows) found in
          cc)
      | inr (resource, f, at) ↦
          let (r, o, same) = find?-session t.sessions owner (
            All-any (λ s. has_session t.sessions s ≡ true) (owner_rows t p) owner
              (owner_rows-known ok) found) in
          let known : session_record owner t ≡ some (session_record_of r) =
            ap (Option.map session_record_of) o in
          inr (
            record { resource_id = resource; owner = owner; session = session_record_of r },
            e,
            rw (e, explain_process) (rw (f, explain_process) (rw known refl)),
            known,
            same,
            at,
          )
    ]
  ]

-- After any history of calls from empty tables, the error that ownership references a missing session
-- never occurs: a process for which a query finds no owner is not explained, and every other is
-- explained by its owner, the session row of that owner, and one of the process's resources. The only
-- assumption on `query_row` is that it takes one of the rows found, if there are any.
pub explain_process-total :
    (pick : List ℕ → Option ℕ) (cs : List Call) (p : ProcessIdentity)
    → Picks pick
    → Answers pick (steps cs no_tables) p
explain_process-total pick cs p picks =
    explain_process-Answers pick picks (steps cs no_tables) p
      (steps-Integrity cs no_tables no_tables-Integrity)

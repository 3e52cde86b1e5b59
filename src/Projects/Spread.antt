-- ===== src/Projects/Spread.antt =====
-- Directories outside every repository, for the cache of src/classify/project.rs.
use wyd.Common.{
  ◌≡◌, refl, sym, ap, ◌∙◌, subst, Bool, false, Option, none, some, List, [], ◌∷◌, ◌++◌, inl, inr,
  Bool-cases, Option-cases, All, All-map,
}
use wyd.Runtime.{Project}
use wyd.Projects.{
  Dir, dir_eq, ProjectCache, Walked, stopped, exhausted, insert, insert_all, is_repository, walk,
  marked, recorded, with_roots, detect, detect_each, normalize,
}
use wyd.Projects.Nearest.{nearest, dir_eq-eq, Coherent, Good, walk-Good, detect-Coherent}

-- A directory and all above it.
abbrev chain : Dir → List Dir
chain [] = [] ∷ []
chain (part ∷ parent) = (part ∷ parent) ∷ chain parent

snoc-append : (xs : List Dir) (y : Dir) (ys : List Dir) → (xs ++ y ∷ []) ++ ys ≡ xs ++ y ∷ ys
snoc-append [] y ys = refl
snoc-append (x ∷ xs) y ys = ap (◌∷◌ x) (snoc-append xs y ys)

abbrev Same : Option Project → Option (Option Project) → Type 0
Same found none = Unit
Same found (some project) = project ≡ found

insert_all-Same :
    (found : Option Project) (dirs : List Dir) (c : ProjectCache)
    → ((d : Dir) → Same found (c.by_dir d))
    → (d : Dir) → Same found ((insert_all dirs found c).by_dir d)
unfolding insert_all
insert_all-Same found [] c same = same
insert_all-Same found (dir ∷ dirs) c same =
    insert_all-Same found dirs (insert dir found c)
      (λ d. elim (Bool-cases (dir_eq d dir)) [ inl e ↦ rw e refl | inr e ↦ rw e (same d) ])

-- The root is among the directories that the walk records.
insert_all-root :
    (found : Option Project) (dir : Dir) (c : ProjectCache)
    → (insert_all (chain dir) found c).by_dir [] ≡ some found
unfolding insert_all dir_eq
insert_all-root found [] c = refl
insert_all-root found (part ∷ parent) c =
    insert_all-root found parent (insert (part ∷ parent) found c)

module _ (exists : Dir → Bool) (roots : List Dir) where
  outside : (dir : Dir) → nearest exists roots dir ≡ none → is_repository exists roots dir ≡ false
  unfolding nearest
  outside [] h = elim (Bool-cases (is_repository exists roots [])) [
    | inl e ↦ absurd (let inside : nearest exists roots [] ≡ some [] = rw e refl in cc)
    | inr e ↦ e
  ]
  outside (part ∷ parent) h = elim (Bool-cases (is_repository exists roots (part ∷ parent))) [
    | inl e ↦
        absurd (
          let inside : nearest exists roots (part ∷ parent) ≡ some (part ∷ parent) = rw e refl in
          cc)
    | inr e ↦ e
  ]

  outside-parent :
      (part : _) (parent : Dir)
      → nearest exists roots (part ∷ parent) ≡ none
      → nearest exists roots parent ≡ none
  unfolding nearest
  outside-parent part parent h =
      let here : nearest exists roots (part ∷ parent) ≡ nearest exists roots parent =
        rw (outside (part ∷ parent) h) refl in
      sym here ∙ h

  walk-fresh :
      (dir : Dir) (walked : List Dir)
      → nearest exists roots dir ≡ none
      → walk exists (record { by_dir = λ _. none; extra_roots = roots }) dir walked
        ≡ exhausted (walked ++ chain dir)
  unfolding walk
  walk-fresh [] walked h = rw (outside [] h) refl
  walk-fresh (part ∷ parent) walked h = rw (outside (part ∷ parent) h) (
      walk-fresh parent (walked ++ (part ∷ parent) ∷ []) (outside-parent part parent h)
      ∙ ap exhausted (snoc-append walked (part ∷ parent) (chain parent)))

  -- The entries of directories outside the repositories are that answer, and the root has one.
  abbrev Spread : Option Project → (Dir → Option (Option Project)) → Type 0
  Spread found entries =
      (entries [] ≡ some found)
      × ((d : Dir) → nearest exists roots d ≡ none → Same found (entries d))

  walk-found :
      (entries : Dir → Option (Option Project)) (found : Option Project) (c : ProjectCache)
      → Spread found entries
      → (dir : Dir) (walked : List Dir) → nearest exists roots dir ≡ none
      → (recorded exists c
          (walk exists (record { by_dir = entries; extra_roots = roots }) dir walked)).0
        ≡ found
  unfolding walk
  walk-found entries found c spread [] walked h = rw spread.0 refl
  walk-found entries found c spread (part ∷ parent) walked h =
      elim (Option-cases (entries (part ∷ parent))) [
        | inl e ↦
            rw (e, outside (part ∷ parent) h)
              (walk-found entries found c spread parent (walked ++ (part ∷ parent) ∷ [])
                (outside-parent part parent h))
        | inr (project, e) ↦ rw e (subst (Same found) e (spread.1 (part ∷ parent) h))
      ]

  -- What is recorded for directories outside the repositories is that answer.
  abbrev Keeps : Option Project → Option Project → Dir → Type 0
  Keeps found project d = nearest exists roots d ≡ none → project ≡ found

  insert-Spread :
      (found : Option Project) (dir : Dir) (project : Option Project) (c : ProjectCache)
      → nearest exists roots [] ≡ none
      → Keeps found project dir
      → Spread found c.by_dir
      → Spread found (insert dir project c).by_dir
  insert-Spread found dir project c top keeps spread = (
    elim (Bool-cases (dir_eq [] dir)) [
      | inl e ↦
          rw e
            (ap some (keeps (subst (λ d. nearest exists roots d ≡ none) (dir_eq-eq [] dir e) top)))
      | inr e ↦ rw e spread.0
    ],
    λ d h. elim (Bool-cases (dir_eq d dir)) [
      | inl e ↦ rw e (keeps (subst (λ i. nearest exists roots i ≡ none) (dir_eq-eq d dir e) h))
      | inr e ↦ rw e (spread.1 d h)
    ],
  )

  insert_all-Spread :
      (found : Option Project) (dirs : List Dir) (project : Option Project) (c : ProjectCache)
      → nearest exists roots [] ≡ none
      → All (Keeps found project) dirs
      → Spread found c.by_dir
      → Spread found (insert_all dirs project c).by_dir
  unfolding insert_all
  insert_all-Spread found [] project c top keeps spread = spread
  insert_all-Spread found (dir ∷ dirs) project c top keeps spread =
      insert_all-Spread found dirs project (insert dir project c) top keeps.1
        (insert-Spread found dir project c top keeps.0 spread)

  top-outside : (dir : Dir) → nearest exists roots dir ≡ none → nearest exists roots [] ≡ none
  top-outside [] h = h
  top-outside (part ∷ parent) h = top-outside parent (outside-parent part parent h)

  -- A walk records its answer for directories with the same nearest repository.
  recorded-Spread :
      (found : Option Project) (o : Option Dir) (w : Walked) (c : ProjectCache)
      → nearest exists roots [] ≡ none
      → (o ≡ none → (recorded exists c w).0 ≡ found)
      → Good exists roots o w
      → Spread found c.by_dir
      → Spread found (recorded exists c w).1.by_dir
  recorded-Spread found o (stopped walked project) c top answer good =
      insert_all-Spread found walked project c top
        (All-map (λ d e h. answer (sym e ∙ h)) walked good.1)
  recorded-Spread found o (exhausted walked) c top answer good =
      insert_all-Spread found walked (marked exists walked) c top
        (All-map (λ d e h. answer (sym e ∙ h)) walked good.1)

  module _ (canonicalize : Dir → Option Dir) where
    detect-found :
        (found : Option Project) (c : ProjectCache) (start : Dir)
        → Coherent exists roots c
        → Spread found c.by_dir
        → nearest exists roots (normalize exists canonicalize start) ≡ none
        → (detect exists canonicalize c start).0 ≡ found
    unfolding detect
    detect-found found c start ok spread h =
        let dir = normalize exists canonicalize start in
        subst
          (λ r.
            (recorded exists c
              (walk exists (record { by_dir = c.by_dir; extra_roots = r }) dir [])).0
            ≡ found)
          (sym ok.0) (walk-found c.by_dir found c spread dir [] h)

    detect-Spread :
        (found : Option Project) (c : ProjectCache) (start : Dir)
        → Coherent exists roots c
        → nearest exists roots [] ≡ none
        → Spread found c.by_dir
        → Spread found (detect exists canonicalize c start).1.by_dir
    unfolding detect
    detect-Spread found c start ok top spread =
        let dir = normalize exists canonicalize start in
        recorded-Spread found (nearest exists roots dir) (walk exists c dir []) c top
          (detect-found found c start ok spread)
          (subst
            (λ r.
              Good exists roots (nearest exists roots dir)
                (walk exists (record { by_dir = c.by_dir; extra_roots = r }) dir []))
            (sym ok.0) (walk-Good exists roots c.by_dir ok.1 dir [] tt))
          spread

    detect_each-found :
        (found : Option Project) (c : ProjectCache) (starts : List Dir) (other : Dir)
        → Coherent exists roots c
        → nearest exists roots [] ≡ none
        → Spread found c.by_dir
        → nearest exists roots (normalize exists canonicalize other) ≡ none
        → (detect exists canonicalize (detect_each exists canonicalize c starts) other).0 ≡ found
    unfolding detect_each
    detect_each-found found c [] other ok top spread h = detect-found found c other ok spread h
    detect_each-found found c (start ∷ starts) other ok top spread h =
        detect_each-found found (detect exists canonicalize c start).1 starts other
          (detect-Coherent exists roots canonicalize c start ok).1 top
          (detect-Spread found c start ok top spread) h

-- The first directory that `detect` is asked about, where it lies outside every repository, decides for
-- all others: whatever it is asked next, and in whatever order, every directory outside the
-- repositories is given the answer that the first one got, a project or none, because the walk records
-- it for the root of the file system too. The file system stays as it is.
pub detect-spreads :
    (exists : Dir → Bool) (canonicalize : Dir → Option Dir) (roots : List Dir) (start : Dir)
    (starts : List Dir) (other : Dir)
    → let c = with_roots exists canonicalize roots in
      nearest exists c.extra_roots (normalize exists canonicalize start) ≡ none
      → nearest exists c.extra_roots (normalize exists canonicalize other) ≡ none
      → (detect exists canonicalize (detect_each exists canonicalize c (start ∷ starts)) other).0
        ≡ (detect exists canonicalize c start).0
unfolding detect_each detect
detect-spreads exists canonicalize roots start starts other h k =
    let c = with_roots exists canonicalize roots in
    let dir = normalize exists canonicalize start in
    let dirs = chain dir in
    let found = marked exists dirs in
    let first : detect exists canonicalize c start ≡ (found, insert_all dirs found c) =
      ap (recorded exists c) (walk-fresh exists c.extra_roots dir [] h) in
    let spread : Spread exists c.extra_roots found (detect exists canonicalize c start).1.by_dir =
      subst (λ r. Spread exists c.extra_roots found r.1.by_dir) (sym first)
        (insert_all-root found dir c, λ d _. insert_all-Same found dirs c (λ d. tt) d) in
    detect_each-found exists c.extra_roots canonicalize found (detect exists canonicalize c start).1
      starts other (detect-Coherent exists c.extra_roots canonicalize c start (refl, λ d. tt)).1
      (top-outside exists c.extra_roots dir h) spread k
    ∙ sym (ap (λ r. r.0) first)

-- ===== src/Projects/Nearest.antt =====
-- Directories in a repository, for the cache of src/classify/project.rs.
use wyd.Common.{
  ◌≡◌, refl, sym, subst, Bool, true, false, Option, none, some, List, [], ◌∷◌, ◌++◌, if◌then◌else◌,
  inl, inr, Bool-cases, All, All-map, All-append, and-eq_true,
}
use wyd.Runtime.{Project}
use wyd.Store.{bytes_eq}
use wyd.Grouping.Collapse.{bytes_eq-eq}
use wyd.Projects.{
  Dir, dir_eq, project_at, ProjectCache, Walked, stopped, exhausted, insert, insert_all,
  is_repository, walk, marked, recorded, with_roots, detect, detect_each, normalize,
}

pub dir_eq-eq : (d e : Dir) → dir_eq d e ≡ true → d ≡ e
unfolding dir_eq
dir_eq-eq [] [] h = refl
dir_eq-eq [] (b ∷ e) h = absurd (cc)
dir_eq-eq (a ∷ d) [] h = absurd (cc)
dir_eq-eq (a ∷ d) (b ∷ e) h =
    let parts = and-eq_true (bytes_eq a b) (dir_eq d e) h in
    let first = bytes_eq-eq a b parts.0 in let rest = dir_eq-eq d e parts.1 in cc

module _ (exists : Dir → Bool) (roots : List Dir) where
  -- The nearest directory with a `.git`, or directly below a configured root.
  unfoldable pub nearest : Dir → Option Dir
  nearest [] = if is_repository exists roots [] then some [] else none
  nearest (part ∷ parent) =
      let above = nearest parent in
      if is_repository exists roots (part ∷ parent) then some (part ∷ parent) else above

  -- An answer for directories with that nearest repository.
  abbrev pub Right : Option Dir → Option Project → Type 0
  Right none project = Unit
  Right (some repository) project = project ≡ some (project_at repository)

  abbrev pub RightEntry : Dir → Option (Option Project) → Type 0
  RightEntry d none = Unit
  RightEntry d (some project) = Right (nearest d) project

  abbrev pub Coherent : ProjectCache → Type 0
  Coherent c = (c.extra_roots ≡ roots) × ((d : Dir) → RightEntry d (c.by_dir d))

  insert-Coherent :
      (dir : Dir) (project : Option Project) (c : ProjectCache)
      → Right (nearest dir) project
      → Coherent c
      → Coherent (insert dir project c)
  insert-Coherent dir project c right ok = (
    ok.0,
    λ d. elim (Bool-cases (dir_eq d dir)) [
      | inl e ↦ rw e (subst (λ i. Right (nearest i) project) (sym (dir_eq-eq d dir e)) right)
      | inr e ↦ rw e (ok.1 d)
    ],
  )

  insert_all-Coherent :
      (dirs : List Dir) (project : Option Project) (c : ProjectCache)
      → All (λ d. Right (nearest d) project) dirs
      → Coherent c
      → Coherent (insert_all dirs project c)
  unfolding insert_all
  insert_all-Coherent [] project c right ok = ok
  insert_all-Coherent (dir ∷ dirs) project c right ok =
      insert_all-Coherent dirs project (insert dir project c) right.1
        (insert-Coherent dir project c right.0 ok)

  abbrev pub Good : Option Dir → Walked → Type 0
  Good o (stopped walked project) = Right o project × All (λ d. nearest d ≡ o) walked
  Good o (exhausted walked) = (o ≡ none) × All (λ d. nearest d ≡ o) walked

  abbrev RightHit : Option Dir → Option (Option Project) → Type 0
  RightHit o none = Unit
  RightHit o (some project) = Right o project

  entry-RightHit :
      (d : Dir) (entry : Option (Option Project)) → RightEntry d entry → RightHit (nearest d) entry
  entry-RightHit d none h = tt
  entry-RightHit d (some project) h = h

  -- A round of the walk.
  walk-step :
      (entry : Option (Option Project)) (repository : Bool) (cur : Dir) (walked : List Dir)
      (rest : Walked) (above : Option Dir)
      → let o = if repository then some cur else above in
        RightHit o entry
        → nearest cur ≡ o
        → All (λ d. nearest d ≡ o) walked
        → (repository ≡ false → Good above rest)
        → Good o (elim entry as (λ _. Walked) [
          | some hit ↦ stopped walked hit
          | none ↦ if repository then stopped (walked ++ cur ∷ []) (some (project_at cur)) else rest
        ])
  walk-step (some hit) repository cur walked rest above entry here all more = (entry, all)
  walk-step none true cur walked rest above entry here all more =
      (refl, All-append _ walked (cur ∷ []) all (here, tt))
  walk-step none false cur walked rest above entry here all more = more refl

  -- The walk in a cache with these entries.
  pub walk-Good :
      (entries : Dir → Option (Option Project))
      → ((d : Dir) → RightEntry d (entries d))
      → (cur : Dir) (walked : List Dir) → All (λ d. nearest d ≡ nearest cur) walked
      → Good
          (nearest cur)
          (walk exists (record { by_dir = entries; extra_roots = roots }) cur walked)
  unfolding walk nearest
  walk-Good entries ok [] walked all =
      walk-step (entries []) (is_repository exists roots []) [] walked
        (exhausted (walked ++ [] ∷ [])) none (entry-RightHit [] (entries []) (ok [])) refl all
        (λ e.
          let here : nearest [] ≡ none = rw e refl in
          (
            refl,
            All-append _ walked ([] ∷ []) (subst (λ o. All (λ d. nearest d ≡ o) walked) here all)
                (here, tt),
          ))
  walk-Good entries ok (part ∷ parent) walked all =
      let dir = part ∷ parent in
      walk-step (entries dir) (is_repository exists roots dir) dir walked
        (walk exists (record { by_dir = entries; extra_roots = roots }) parent (walked ++ dir ∷ []))
        (nearest parent) (entry-RightHit dir (entries dir) (ok dir)) refl all
        (λ e.
          let here : nearest dir ≡ nearest parent = rw e refl in
          walk-Good entries ok parent (walked ++ dir ∷ []) (
            All-append _ walked (dir ∷ []) (subst (λ o. All (λ d. nearest d ≡ o) walked) here all)
              (here, tt)))

  All-Right :
      (o : Option Dir) (project : Option Project) (dirs : List Dir)
      → Right o project
      → All (λ d. nearest d ≡ o) dirs
      → All (λ d. Right (nearest d) project) dirs
  All-Right o project dirs right = All-map (λ d e. subst (λ i. Right i project) (sym e) right) dirs

  recorded-Good :
      (c : ProjectCache) (o : Option Dir) (w : Walked)
      → Coherent c
      → Good o w
      → Right o (recorded exists c w).0 × Coherent (recorded exists c w).1
  recorded-Good c o (stopped walked project) ok good =
      (good.0, insert_all-Coherent walked project c (All-Right o project walked good.0 good.1) ok)
  recorded-Good c o (exhausted walked) ok good =
      let found = marked exists walked in
      let right : Right o found = subst (λ i. Right i found) (sym good.0) tt in
      (right, insert_all-Coherent walked found c (All-Right o found walked right good.1) ok)

  module _ (canonicalize : Dir → Option Dir) where
    pub detect-Coherent :
        (c : ProjectCache) (start : Dir)
        → Coherent c
        → Right
            (nearest (normalize exists canonicalize start))
            (detect exists canonicalize c start).0
          × Coherent (detect exists canonicalize c start).1
    unfolding detect
    detect-Coherent c start ok =
        let dir = normalize exists canonicalize start in
        recorded-Good c (nearest dir) (walk exists c dir []) ok (
          subst
            (λ r.
              Good (nearest dir)
                (walk exists (record { by_dir = c.by_dir; extra_roots = r }) dir []))
            (sym ok.0) (walk-Good c.by_dir ok.1 dir [] tt))

    detect_each-Coherent :
        (c : ProjectCache) (starts : List Dir)
        → Coherent c
        → Coherent (detect_each exists canonicalize c starts)
    unfolding detect_each
    detect_each-Coherent c [] ok = ok
    detect_each-Coherent c (start ∷ starts) ok =
        detect_each-Coherent (detect exists canonicalize c start).1 starts
          (detect-Coherent c start ok).1

-- For a directory inside a repository, or below a directory that stands directly in a configured
-- root, `detect` gives the project of the nearest of these, whatever it was asked before, so long as
-- the file system stays as it is.
pub detect-nearest :
    (exists : Dir → Bool) (canonicalize : Dir → Option Dir) (roots starts : List Dir) (start : Dir)
    (repository : Dir)
    → let c = with_roots exists canonicalize roots in
      nearest exists c.extra_roots (normalize exists canonicalize start) ≡ some repository
      → (detect exists canonicalize (detect_each exists canonicalize c starts) start).0
        ≡ some (project_at repository)
detect-nearest exists canonicalize roots starts start repository inside =
    let c = with_roots exists canonicalize roots in
    let answer =
      detect-Coherent exists c.extra_roots canonicalize (detect_each exists canonicalize c starts)
        start (detect_each-Coherent exists c.extra_roots canonicalize c starts (refl, λ d. tt)) in
    subst
      (λ o.
        Right exists c.extra_roots o
          (detect exists canonicalize (detect_each exists canonicalize c starts) start).0)
      inside answer.0

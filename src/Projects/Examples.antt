-- ===== src/Projects/Examples.antt =====
-- Directories that src/classify/project.rs is asked about.
use wyd.Common.{◌≡◌, refl, Bool, ◌||◌, Option, none, some, [], ◌∷◌, any}
use wyd.Store.{bytes_eq}
use wyd.Rules.{ascii}
use wyd.Projects.{
  Dir, dir_eq, project_at, ProjectCache, insert_all, is_repository, is_marked, walk, marked,
  with_roots, detect, detect_each,
}
use wyd.Projects.Nearest.{nearest, detect-nearest}
use wyd.Projects.Spread.{detect-spreads}

abbrev repo : Dir
repo = ascii "repo" ∷ []

abbrev inner : Dir
inner = ascii "web" ∷ repo

abbrev app : Dir
app = ascii "app" ∷ []

abbrev other : Dir
other = ascii "other" ∷ []

-- `/repo/.git`, `/repo/web/package.json` and `/app/package.json`.
abbrev exists : Dir → Bool
exists path =
    dir_eq path (ascii ".git" ∷ repo)
    || dir_eq path (ascii "package.json" ∷ inner)
    || dir_eq path (ascii "package.json" ∷ app)

abbrev as_given : Dir → Option Dir
as_given path = none

abbrev fresh : ProjectCache
fresh = with_roots exists as_given []

detect-nearest_example :
    (detect exists as_given (detect_each exists as_given fresh (app ∷ repo ∷ [])) inner).0
    ≡ some (project_at repo)
unfolding nearest is_repository dir_eq any bytes_eq
detect-nearest_example = detect-nearest exists as_given [] (app ∷ repo ∷ []) inner repo refl

-- A directory without a project has none, unless another one was asked about before.
unknown : (detect exists as_given fresh other).0 ≡ none
unfolding detect walk is_repository is_marked marked dir_eq any bytes_eq
unknown = refl

-- A call about a repository comes between.
detect-spreads_example :
    (detect exists as_given (detect_each exists as_given fresh (app ∷ inner ∷ [])) other).0
    ≡ (detect exists as_given fresh app).0
unfolding nearest is_repository dir_eq any bytes_eq
detect-spreads_example = detect-spreads exists as_given [] app (inner ∷ []) other refl refl

leaked :
    (detect exists as_given (detect_each exists as_given fresh (app ∷ [])) other).0
    ≡ some (project_at app)
unfolding detect detect_each walk insert_all is_repository is_marked marked dir_eq any bytes_eq
leaked = refl

-- ===== src/Projects.antt =====
-- src/classify/project.rs: the project that a directory belongs to, with the cache of directories.
--
-- A directory is the list of the parts of its absolute path, the last part first. What exists on the
-- file system, and the canonical form of a path, are arguments.
mod Examples
pub mod Nearest
pub mod Spread
use wyd.Common.{
  Bool, true, false, ◌&&◌, ◌||◌, Option, none, some, List, [], ◌∷◌, ◌++◌, String, if◌then◌else◌,
  any, map, unwrap_or,
}
use wyd.Run.{Bytes}
use wyd.Runtime.{Project}
use wyd.Store.{bytes_eq}
use wyd.Rules.{ascii}

abbrev pub Dir : Type 0
Dir = List Bytes

unfoldable pub dir_eq : Dir → Dir → Bool
dir_eq [] [] = true
dir_eq (a ∷ d) (b ∷ e) = bytes_eq a b && dir_eq d e
dir_eq _ _ = false

abbrev markers : List String
markers =
    "package.json" ∷ "pyproject.toml" ∷ "Cargo.toml" ∷ "go.mod" ∷ "composer.json"
    ∷ "docker-compose.yml" ∷ "compose.yml" ∷ []

unfoldable pub path_of : Dir → Bytes
path_of [] = ascii "/"
path_of (part ∷ []) = ascii "/" ++ part
path_of (part ∷ dir) = path_of dir ++ ascii "/" ++ part

abbrev file_name : Dir → Option Bytes
file_name [] = none
file_name (part ∷ dir) = some part

abbrev pub project_at : Dir → Project
project_at root = record {
  name = unwrap_or (file_name root) (ascii "project");
  root = path_of root;
}

-- The cache has no entry for most directories, and `some none` for one without a project.
pub record ProjectCache : Type 0 where
  pub by_dir : Dir → Option (Option Project)
  pub extra_roots : List Dir

-- How the walk to the root ends: with the project of an entry or a repository, or at the root.
pub data Walked : Type 0 where
  stopped : List Dir → Option Project → Walked
  exhausted : List Dir → Walked

abbrev pub insert : Dir → Option Project → ProjectCache → ProjectCache
insert dir project c = record c { by_dir = λ d. if dir_eq d dir then some project else c.by_dir d }

unfoldable pub insert_all : List Dir → Option Project → ProjectCache → ProjectCache
insert_all [] project c = c
insert_all (dir ∷ dirs) project c = insert_all dirs project (insert dir project c)

abbrev pub under_configured_root : List Dir → Dir → Bool
under_configured_root roots [] = false
under_configured_root roots (part ∷ parent) = any (dir_eq parent) roots

module _ (exists : Dir → Bool) where
  unfoldable pub is_repository : List Dir → Dir → Bool
  is_repository roots dir = exists (ascii ".git" ∷ dir) || under_configured_root roots dir

  unfoldable pub is_marked : Dir → Bool
  is_marked dir = any (λ m. exists (ascii m ∷ dir)) markers

  -- The loop of `detect`.
  unfoldable pub walk : ProjectCache → Dir → List Dir → Walked
  walk c [] walked = elim (c.by_dir []) [
    | some hit ↦ stopped walked hit
    | none ↦
        if is_repository c.extra_roots []
        then stopped (walked ++ [] ∷ []) (some (project_at []))
        else exhausted (walked ++ [] ∷ [])
  ]
  walk c (part ∷ parent) walked =
      let rest = walk c parent (walked ++ (part ∷ parent) ∷ []) in
      elim (c.by_dir (part ∷ parent)) [
        | some hit ↦ stopped walked hit
        | none ↦
            if is_repository c.extra_roots (part ∷ parent)
            then stopped (walked ++ (part ∷ parent) ∷ []) (some (project_at (part ∷ parent)))
            else rest
      ]

  -- The nearest directory with a marker.
  unfoldable pub marked : List Dir → Option Project
  marked [] = none
  marked (dir ∷ dirs) = if is_marked dir then some (project_at dir) else marked dirs

  abbrev pub recorded : ProjectCache → Walked → Option Project × ProjectCache
  recorded c (stopped walked project) = (project, insert_all walked project c)
  recorded c (exhausted walked) = let found = marked walked in (found, insert_all walked found c)

  module _ (canonicalize : Dir → Option Dir) where
    abbrev pub normalize : Dir → Dir
    normalize path = unwrap_or (canonicalize path) path

    abbrev pub with_roots : List Dir → ProjectCache
    with_roots roots = record { by_dir = λ _. none; extra_roots = map normalize roots }

    unfoldable pub detect : ProjectCache → Dir → Option Project × ProjectCache
    detect c start = recorded c (walk c (normalize start) [])

    -- The cache after some calls.
    unfoldable pub detect_each : ProjectCache → List Dir → ProjectCache
    detect_each c [] = c
    detect_each c (start ∷ starts) = detect_each (detect c start).1 starts

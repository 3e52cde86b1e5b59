-- ===== src/Rules.antt =====
-- src/classify/rules.rs: the texts of a process that the rules read, and the tests on them. The tables of
-- rules are in Rules/Tables.
--
-- A text is its bytes, in UTF-8; a path has `/` between its parts. `ascii` gives the bytes of a literal.
pub mod Tables
pub mod Evidence
pub mod Shown
mod Examples
use Prim.Native.Char.{code}
use wyd.Common.{
  ℕ, Bool, true, false, not, ◌&&◌, ◌||◌, Option, none, some, List, [], ◌∷◌, ◌++◌, String, ◌==◌,
  if◌then◌else◌, any, retain, unwrap_or,
}
use wyd.Run.{Bytes}
use wyd.Runtime.{ProcessInfo}
use wyd.Store.{bytes_eq}
use wyd.Leftovers.{to_ascii_lowercase, contains, join, or_empty}

abbrev pub ascii : String → Bytes
ascii String.[] = []
ascii (String.◌∷◌ c s) = code c ∷ ascii s

-- `split` at the bytes that pass.
unfoldable pub split : (ℕ → Bool) → Bytes → List Bytes
split stop [] = [] ∷ []
split stop (b ∷ bs) =
    let rest = split stop bs in
    if stop b
    then [] ∷ rest
    else elim rest as (λ _. List Bytes) [ [] ↦ (b ∷ []) ∷ [] | part ∷ parts ↦ (b ∷ part) ∷ parts ]

abbrev pub last : List Bytes → Option Bytes
last [] = none
last (x ∷ []) = some x
last (_ ∷ x ∷ xs) = last (x ∷ xs)

-- `Path::file_name`: the last part of a path that is neither empty nor `.`, unless it is `..`.
unfoldable pub file_name : Bytes → Option Bytes
file_name path =
    let named = λ (part : Bytes). not (bytes_eq part [] || bytes_eq part (ascii ".")) in
    elim (last (retain named (split (λ b. b == 47) path))) [
      | none ↦ none
      | some part ↦ if bytes_eq part (ascii "..") then none else some part
    ]

unfoldable pub argv0_base : ProcessInfo → Bytes
argv0_base p = elim p.command [
  | [] ↦ to_ascii_lowercase p.name
  | arg ∷ _ ↦ to_ascii_lowercase (unwrap_or (file_name arg) p.name)
]

-- `ProcessInfo::label`.
abbrev executable_name : Option Bytes → Option Bytes
executable_name none = none
executable_name (some path) = file_name path

unfoldable pub label : ProcessInfo → Bytes
label p = elim p.name [
  | _ ∷ _ ↦ p.name
  | [] ↦ elim p.command [
    | (b ∷ bs) ∷ _ ↦ b ∷ bs
    | _ ↦ unwrap_or (executable_name p.executable) (ascii "?")
  ]
]

-- The texts that `classify` makes of a process.
pub record Texts : Type 0 where
  pub name : Bytes
  pub argv0 : Bytes
  pub cmd : Bytes
  pub exe : Bytes
  pub hay : Bytes

unfoldable pub texts : ProcessInfo → Texts
texts p =
    let name = to_ascii_lowercase p.name in
    let argv0 = argv0_base p in
    let cmd = to_ascii_lowercase (join p.command) in
    let exe = to_ascii_lowercase (or_empty p.executable) in
    record {
      name = name;
      argv0 = argv0;
      cmd = cmd;
      exe = exe;
      hay = name ++ 32 ∷ (argv0 ++ 32 ∷ (cmd ++ 32 ∷ exe));
    }

unfoldable pub name_eq : Texts → Bytes → Bool
name_eq t exact = bytes_eq t.name exact || bytes_eq t.argv0 exact

-- `name_eq`, and `hay.contains`, with a literal.
abbrev pub named : Texts → String → Bool
named t exact = name_eq t (ascii exact)

abbrev pub says : Texts → String → Bool
says t needle = contains t.hay (ascii needle)

-- How a signature matches a process.
pub data Match : Type 0 where
  exact token substring : String → Match

abbrev is_blank : ℕ → Bool
is_blank b = b == 32 || b == 9 || b == 47 || b == 92

unfoldable pub is_token : Bytes → Bytes → Bool
is_token n s = any (λ part. bytes_eq part n) (split is_blank s)

unfoldable pub hit : Match → Texts → Bool
hit (exact n) t = named t n
hit (token n) t = is_token (ascii n) t.cmd || is_token (ascii n) t.exe
hit (substring n) t = says t n

abbrev is_part_end : ℕ → Bool
is_part_end b = b == 47 || b == 92 || b == 32 || b == 58

unfoldable pub is_vite : Texts → Bool
is_vite t =
    named t "vite"
    || says t "node_modules/.bin/vite"
    || says t "node_modules/vite"
    || says t "/vite/bin/vite"
    || says t "vite/dist/node/cli"
    || any (λ part. bytes_eq part (ascii "vite") || bytes_eq part (ascii "vite.js"))
        (split is_part_end t.hay)

abbrev hints : List String
hints =
    "chromium" ∷ "chrome-headless" ∷ "headless_shell" ∷ "google chrome" ∷ "chrome helper"
    ∷ "chromedriver" ∷ []

unfoldable pub is_chromium_family : Texts → Bool
is_chromium_family t =
    any (λ h. contains t.name (ascii h) || contains t.argv0 (ascii h) || says t h) hints
    || ((bytes_eq t.name (ascii "chrome") || bytes_eq t.argv0 (ascii "chrome"))
        && not (says t "chrome-devtools-mcp"))

unfoldable pub browser_cmd_looks_dev : ProcessInfo → Bool
browser_cmd_looks_dev p =
    let hay =
      to_ascii_lowercase (join p.command) ++ 32 ∷ to_ascii_lowercase (or_empty p.executable) in
    contains hay (ascii "playwright")
    || contains hay (ascii "puppeteer")
    || contains hay (ascii "chrome-devtools")
    || contains hay (ascii "remote-debugging")
    || contains hay (ascii "headless")

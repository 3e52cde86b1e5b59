-- ===== src/Rules/Examples.antt =====
-- Processes that the rules of src/classify/rules.rs are tried on, most of them from its tests.
use wyd.Common.{
  ℕ, ◌≡◌, ◌≤◌, refl, Option, none, some, List, [], ◌∷◌, String, map, arith, any, retain,
}
use wyd.Runtime.{
  Category, agent, mcp, language_server, dev_server, database, worker, unknown_dev, ProcessInfo,
}
use wyd.Leftovers.{to_ascii_lowercase, contains, starts_with, join, by_pid_of}
use wyd.Store.{bytes_eq}
use wyd.Actions.{children_pids}
use wyd.Grouping.{Class, nearest_item_ancestor, nearest_from}
use wyd.Grouping.Collapse.{occurrences}
use wyd.Grouping.Build.{class_of, is_classified, wrapper, is_item, parent_item, group}
use wyd.Grouping.Chains.{pids_of}
use wyd.Rules.{
  ascii, split, file_name, argv0_base, label, texts, name_eq, is_token, hit, is_vite,
  is_chromium_family, browser_cmd_looks_dev,
}
use wyd.Rules.Tables.{
  first, rules_of, extra_signature, signature_category, pkg_manager, mcp_rules, agent_rules,
  server_rules, dev_rules, worker_rules, database_rules, service_rules, browser_rules,
  runtime_rules, classify, SignatureConfig,
}
use wyd.Rules.Evidence.{is_known, Evidence, classify-Evidence}
use wyd.Rules.Shown.{group-agents_once}

abbrev process : ℕ → Option ℕ → String → List String → ProcessInfo
process pid parent_pid name command = record {
  pid = pid;
  parent_pid = parent_pid;
  name = ascii name;
  command = map ascii command;
  executable = none;
  cwd = none;
  memory_bytes = pid;
  start_time = 0;
  tty = none;
}

abbrev alone : String → List String → ProcessInfo
alone name command = process 1 none name command

abbrev shown_as : Category → String → Option Class
shown_as category display = some (record { category = category; display_name = ascii display })

abbrev omp : ProcessInfo
omp = process 10 (some 1) "omp" ("/opt/omp" ∷ [])

abbrev tools : ProcessInfo
tools = process 11 (some 10) "node" ("node" ∷ "/x/chrome-devtools-mcp/index.js" ∷ [])

abbrev snapshot : List ProcessInfo
snapshot = process 1 none "launchd" ("launchd" ∷ []) ∷ omp ∷ tools ∷ []

-- A tool of the user's own, known by its name.
abbrev robot : SignatureConfig
robot = record { category = ascii "Agent"; names = ascii "Robot" ∷ []; contains = []; display = [] }

classified :
    map (classify (robot ∷ [])) (
      alone "prompt" ("prompt" ∷ [])
      ∷ omp
      ∷ tools
      ∷ alone "robot" []
      ∷ alone "npm" ("npm" ∷ "exec" ∷ "@github/copilot-language-server" ∷ [])
      ∷ alone "gopls" ("gopls" ∷ [])
      ∷ alone "node" ("node" ∷ "/app/node_modules/vite/bin/vite.js" ∷ [])
      ∷ alone "celery" ("celery" ∷ "-A" ∷ "proj" ∷ "worker" ∷ [])
      ∷ alone "postgres" ("postgres" ∷ "-D" ∷ "/var/postgresql" ∷ [])
      ∷ alone "node" ("node" ∷ "/Work/qdrant-dashboard/server.js" ∷ [])
      ∷ [])
    ≡ none
      ∷ shown_as agent "omp"
      ∷ shown_as mcp "chrome-devtools-mcp"
      ∷ shown_as agent "robot"
      ∷ shown_as unknown_dev "npm"
      ∷ shown_as language_server "gopls"
      ∷ shown_as dev_server "vite"
      ∷ shown_as worker "celery"
      ∷ shown_as database "postgres"
      ∷ shown_as unknown_dev "node"
      ∷ []
unfolding classify texts argv0_base label file_name split retain any name_eq is_token hit is_vite
    is_chromium_family to_ascii_lowercase contains starts_with join bytes_eq first rules_of
    extra_signature signature_category pkg_manager mcp_rules agent_rules server_rules dev_rules
    worker_rules database_rules service_rules browser_rules runtime_rules
classified = refl

-- An agent whose command line names a server for tools is taken for that server.
agent_as_mcp :
    classify [] (alone "claude" ("claude" ∷ "mcp" ∷ "add" ∷ "context7" ∷ []))
    ≡ shown_as mcp "context7"
unfolding classify texts argv0_base label file_name split retain any name_eq hit to_ascii_lowercase
    contains starts_with join bytes_eq first rules_of extra_signature pkg_manager mcp_rules
agent_as_mcp = refl

classify-Evidence_example : Evidence (texts omp) (classify [] omp)
unfolding extra_signature
classify-Evidence_example = classify-Evidence [] omp refl

snapshot-distinct : (a : ℕ) → occurrences a (pids_of snapshot) ≤ 1
snapshot-distinct a = ground arith

group-agents_once_example :
    occurrences 10 (children_pids (group (classify []) browser_cmd_looks_dev 9 snapshot 3)) ≡ 1
unfolding parent_item nearest_item_ancestor nearest_from is_item is_classified wrapper class_of
    by_pid_of is_known classify texts argv0_base label file_name split retain any name_eq is_token
    hit is_vite is_chromium_family to_ascii_lowercase contains starts_with join bytes_eq first
    rules_of extra_signature signature_category pkg_manager mcp_rules agent_rules server_rules
    dev_rules worker_rules database_rules service_rules browser_rules runtime_rules
group-agents_once_example = group-agents_once [] 9 snapshot 1 omp 3 snapshot-distinct refl refl refl

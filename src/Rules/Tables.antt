-- ===== src/Rules/Tables.antt =====
-- `classify` of src/classify/rules.rs, as its tables and the order in which it tries them.
--
-- A rule is a test with the name to show, and the first that passes counts. The signatures of the
-- configuration are an argument.
use wyd.Common.{
  Bool, true, false, ◌&&◌, ◌||◌, Option, none, some, List, [], ◌∷◌, ◌++◌, String, if◌then◌else◌,
  any,
}
use wyd.Run.{Bytes}
use wyd.Runtime.{
  Category, agent, mcp, browser, dev_server, language_server, database, worker, unknown_dev,
  dev_service, ProcessInfo,
}
use wyd.Store.{bytes_eq, or_else}
use wyd.Leftovers.{to_ascii_lowercase, contains}
use wyd.Grouping.{Class}
use wyd.Rules.{
  ascii, label, Texts, texts, name_eq, named, says, exact, token, substring, hit, is_vite,
  is_chromium_family,
}

abbrev pub mcp_needles : List (String × String)
mcp_needles =
    ("chrome-devtools-mcp", "chrome-devtools-mcp")
    ∷ ("playwright-mcp", "playwright-mcp")
    ∷ ("@playwright/mcp", "playwright-mcp")
    ∷ ("mcp-server-filesystem", "filesystem")
    ∷ ("@modelcontextprotocol/server", "mcp-server")
    ∷ ("context7", "context7")
    ∷ ("queryknight", "queryknight")
    ∷ ("mcp-server", "mcp-server")
    ∷ []

abbrev pub agent_names : List (String × String)
agent_names =
    ("omp", "omp")
    ∷ ("opencode", "opencode")
    ∷ ("claude", "claude")
    ∷ ("claude-code", "claude")
    ∷ ("codex", "codex")
    ∷ ("aider", "aider")
    ∷ ("cursor-agent", "cursor")
    ∷ ("gemini", "gemini")
    ∷ ("amp", "amp")
    ∷ ("crush", "crush")
    ∷ ("goose", "goose")
    ∷ ("qwen", "qwen")
    ∷ ("droid", "droid")
    ∷ ("kiro-cli", "kiro")
    ∷ ("agy", "antigravity")
    ∷ ("pi", "pi")
    ∷ []

abbrev pub server_needles : List (String × String)
server_needles =
    ("rust-analyzer", "rust-analyzer")
    ∷ ("gopls", "gopls")
    ∷ ("typescript-language-server", "typescript")
    ∷ ("copilot-language-server", "copilot")
    ∷ ("pyright-langserver", "pyright")
    ∷ ("pyright", "pyright")
    ∷ ("clangd", "clangd")
    ∷ ("lua-language-server", "lua")
    ∷ ("intelephense", "intelephense")
    ∷ ("vue-language-server", "vue")
    ∷ ("@vue/language-server", "vue")
    ∷ ("svelteserver", "svelte")
    ∷ ("svelte-language-server", "svelte")
    ∷ ("tailwindcss-language-server", "tailwind")
    ∷ ("vscode-eslint-language-server", "eslint")
    ∷ ("eslint_d", "eslint")
    ∷ ("yaml-language-server", "yaml")
    ∷ ("bash-language-server", "bash")
    ∷ ("docker-langserver", "docker")
    ∷ ("jdtls", "jdtls")
    ∷ ("ruby-lsp", "ruby")
    ∷ ("solargraph", "ruby")
    ∷ ("nixd", "nix")
    ∷ []

abbrev pub database_names : List (String × String)
database_names =
    ("postgres", "postgres")
    ∷ ("postgresql", "postgres")
    ∷ ("postmaster", "postgres")
    ∷ ("mysqld", "mysql")
    ∷ ("mariadbd", "mariadb")
    ∷ ("redis-server", "redis")
    ∷ ("mongod", "mongodb")
    ∷ ("elasticsearch", "elasticsearch")
    ∷ ("opensearch", "opensearch")
    ∷ ("clickhouse-server", "clickhouse")
    ∷ ("cockroach", "cockroachdb")
    ∷ ("cassandra", "cassandra")
    ∷ ("memcached", "memcached")
    ∷ ("neo4j", "neo4j")
    ∷ ("qdrant", "qdrant")
    ∷ ("weaviate", "weaviate")
    ∷ ("milvus", "milvus")
    ∷ ("meilisearch", "meilisearch")
    ∷ ("typesense-server", "typesense")
    ∷ ("influxd", "influxdb")
    ∷ ("sqlservr", "sql server")
    ∷ []

abbrev pub runtime_names : List (String × String)
runtime_names =
    ("node", "node")
    ∷ ("nodejs", "node")
    ∷ ("npm", "npm")
    ∷ ("npx", "npx")
    ∷ ("pnpm", "pnpm")
    ∷ ("yarn", "yarn")
    ∷ ("bun", "bun")
    ∷ ("deno", "deno")
    ∷ ("python", "python")
    ∷ ("python3", "python")
    ∷ ("php", "php")
    ∷ []

-- The first rule that passes.
unfoldable pub first : List (Bool × Bytes) → Option Bytes
first [] = none
first ((passes, display) ∷ rest) = if passes then some display else first rest

-- A rule for each row of a table.
unfoldable pub rules_of : (String → Bool) → List (String × String) → List (Bool × Bytes)
rules_of test [] = []
rules_of test ((needle, display) ∷ rows) = (test needle, ascii display) ∷ rules_of test rows

abbrev pub dev : Category → Option Bytes → Option Class
dev category none = none
dev category (some display) = some (record { category = category; display_name = display })

-- A row of the table `[[signature]]` of the configuration.
pub record SignatureConfig : Type 0 where
  pub category : Bytes
  pub names : List Bytes
  pub contains : List Bytes
  pub display : Bytes

unfoldable pub signature_category : SignatureConfig → Option Category
signature_category s =
    let name = to_ascii_lowercase s.category in
    if bytes_eq name (ascii "agent")
    then some agent
    else if bytes_eq name (ascii "mcp")
    then some mcp
    else if bytes_eq name (ascii "devserver") || bytes_eq name (ascii "dev-server")
    then some dev_server
    else if bytes_eq name (ascii "worker")
    then some worker
    else none

abbrev pub signature_hit : Texts → SignatureConfig → Bool
signature_hit t s =
    any (λ n. name_eq t (to_ascii_lowercase n)) s.names
    || any (λ n. contains t.hay (to_ascii_lowercase n)) s.contains

abbrev pub signature_display : Texts → SignatureConfig → Bytes
signature_display t s = elim s.display [ [] ↦ t.name | _ ∷ _ ↦ s.display ]

unfoldable pub extra_signature : Texts → List SignatureConfig → Option Class
extra_signature t [] = none
extra_signature t (s ∷ rest) =
    let next = extra_signature t rest in
    elim (signature_category s) [
      | none ↦ next
      | some category ↦
          if signature_hit t s
          then some (record { category = category; display_name = signature_display t s })
          else next
    ]

unfoldable pub pkg_manager : Texts → Bool
pkg_manager t =
    named t "npm"
    || named t "npx"
    || named t "pnpm"
    || named t "yarn"
    || named t "bun"
    || says t "npm-cli.js"
    || says t "npx-cli.js"
    || says t "npm exec"

-- The rules of a stage that leaves package managers out.
abbrev pub unless : Bool → Option Class → Option Class
unless true c = none
unless false c = c

unfoldable pub mcp_rules : ProcessInfo → Texts → List (Bool × Bytes)
mcp_rules p t =
    rules_of (says t) mcp_needles
    ++ (
      contains t.name (ascii "-mcp")
          || contains t.argv0 (ascii "-mcp")
          || contains t.name (ascii "mcp-server"),
      label p,
    )
      ∷ []

unfoldable pub agent_rules : Texts → List (Bool × Bytes)
agent_rules t = rules_of (named t) agent_names

unfoldable pub server_rules : ProcessInfo → Texts → List (Bool × Bytes)
server_rules p t =
    rules_of (λ needle. named t needle || says t needle) server_needles
    ++ (says t "biome lsp-proxy", ascii "biome")
      ∷ (named t "nil", ascii "nil")
      ∷ (says t "language-server" || says t "langserver", label p)
      ∷ []

unfoldable pub dev_rules : Texts → List (Bool × Bytes)
dev_rules t =
    (is_vite t, ascii "vite")
    ∷ (says t "next dev" || says t "next-server" || says t "node_modules/next", ascii "next")
    ∷ (named t "nuxt" || says t "nuxt" && says t "dev", ascii "nuxt")
    ∷ (says t "uvicorn", ascii "uvicorn")
    ∷ (says t "gunicorn", ascii "gunicorn")
    ∷ (says t "manage.py" && says t "runserver", ascii "django")
    ∷ (says t "flask run", ascii "flask")
    ∷ (says t "artisan serve" || says t "php -s", ascii "php")
    ∷ (says t "webpack-dev-server" || says t "webpack serve", ascii "webpack")
    ∷ (named t "astro" || says t "astro dev" || says t "@astrojs", ascii "astro")
    ∷ (says t "svelte-kit" || says t "@sveltejs/kit", ascii "svelte-kit")
    ∷ (named t "remix" || named t "react-router" || says t "@remix-run", ascii "remix")
    ∷ (named t "parcel" || says t "parcel-bundler", ascii "parcel")
    ∷ (says t "rsbuild", ascii "rsbuild")
    ∷ (says t "rspack", ascii "rspack")
    ∷ (
      named t "nest" || says t "@nestjs" || says t "nest start" || says t "nest serve",
      ascii "nest",
    )
    ∷ (hit (token "puma") t, ascii "puma")
    ∷ (named t "rails" || says t "rails s", ascii "rails")
    ∷ (hit (substring "phx.server") t, ascii "phoenix")
    ∷ []

unfoldable pub worker_rules : Texts → List (Bool × Bytes)
worker_rules t =
    (named t "celery" || hit (token "celery") t && hit (token "worker") t, ascii "celery")
    ∷ (named t "sidekiq" || hit (token "sidekiq") t, ascii "sidekiq")
    ∷ (named t "horizon" || says t "artisan horizon", ascii "horizon")
    ∷ (says t "queue:work" || says t "artisan queue", ascii "laravel queue")
    ∷ (named t "nodemon" || hit (substring "node_modules/nodemon") t, ascii "nodemon")
    ∷ (named t "cargo-watch" || says t "cargo watch" || says t "cargo-watch", ascii "cargo-watch")
    ∷ (named t "watchexec", ascii "watchexec")
    ∷ (named t "air", ascii "air")
    ∷ (
      says t "tsc --watch" || says t "tailwindcss --watch" || says t "tailwind --watch",
      ascii "watcher",
    )
    ∷ []

unfoldable pub database_rules : Texts → List (Bool × Bytes)
database_rules t = rules_of (λ n. hit (exact n) t) database_names

unfoldable pub service_rules : Texts → List (Bool × Bytes)
service_rules t = (named t "php-fpm" || says t "php-fpm", ascii "php-fpm") ∷ []

unfoldable pub browser_rules : Texts → List (Bool × Bytes)
browser_rules t =
    (is_chromium_family t, ascii "Chromium")
    ∷ (contains t.name (ascii "firefox") || contains t.argv0 (ascii "firefox"), ascii "Firefox")
    ∷ []

unfoldable pub runtime_rules : Texts → List (Bool × Bytes)
runtime_rules t = rules_of (named t) runtime_names

-- The classes of one category.
abbrev pub stage : Category → List (Bool × Bytes) → Option Class
stage category rules = dev category (first rules)

unfoldable pub classify : List SignatureConfig → ProcessInfo → Option Class
classify signatures p =
    let t = texts p in
    let skip = pkg_manager t in
    or_else (extra_signature t signatures) (
      or_else (unless skip (stage mcp (mcp_rules p t))) (
        or_else (stage agent (agent_rules t)) (
          or_else (unless skip (stage language_server (server_rules p t))) (
            or_else (stage dev_server (dev_rules t)) (
              or_else (unless skip (stage worker (worker_rules t))) (
                or_else (stage database (database_rules t)) (
                  or_else (stage dev_service (service_rules t)) (
                    or_else (stage browser (browser_rules t))
                      (stage unknown_dev (runtime_rules t))))))))))

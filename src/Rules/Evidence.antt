-- ===== src/Rules/Evidence.antt =====
-- What src/classify/rules.rs has seen of a process to which it gives a class, and of one to which it
-- gives none.
use wyd.Common.{
  Bool, true, false, Option, none, some, List, [], ◌∷◌, String, ◌≡◌, refl, is_some, any, sym, ◌∙◌,
  Bool-cases, inl, inr,
}
use wyd.Run.{Bytes}
use wyd.Runtime.{
  Category, agent, mcp, browser, dev_server, language_server, database, worker, unknown_dev,
  dev_service, ProcessInfo,
}
use wyd.Store.{or_else}
use wyd.Grouping.{Class}
use wyd.Rules.{Texts, texts, named, hit, is_chromium_family}
use wyd.Rules.Tables.{
  agent_names, database_names, runtime_names, first, rules_of, dev, unless, stage, SignatureConfig,
  extra_signature, pkg_manager, mcp_rules, agent_rules, server_rules, dev_rules, worker_rules,
  database_rules, service_rules, browser_rules, runtime_rules, classify,
}

-- Whether the process has one of the names of a table, exactly.
unfoldable pub is_known : Texts → List (String × String) → Bool
is_known t rows = any (λ (row : String × String). named t row.0) rows

unfoldable pub Seen : Texts → Category → Type 0
Seen t agent = is_known t agent_names ≡ true
Seen t mcp = pkg_manager t ≡ false
Seen t language_server = (pkg_manager t ≡ false) × (is_known t agent_names ≡ false)
Seen t dev_server = is_known t agent_names ≡ false
Seen t worker = (pkg_manager t ≡ false) × (is_known t agent_names ≡ false)
Seen t database = (is_known t database_names ≡ true) × (is_known t agent_names ≡ false)
Seen t dev_service = (is_known t agent_names ≡ false) × (is_known t database_names ≡ false)
Seen t browser = (is_known t agent_names ≡ false) × (is_known t database_names ≡ false)
Seen t unknown_dev =
    (is_known t runtime_names ≡ true)
    × (is_known t agent_names ≡ false)
    × (is_known t database_names ≡ false)
    × (is_chromium_family t ≡ false)

unfoldable pub Evidence : Texts → Option Class → Type 0
Evidence t (some c) = Seen t c.category
Evidence t none =
    (is_known t runtime_names ≡ false)
    × (is_known t agent_names ≡ false)
    × (is_known t database_names ≡ false)
    × (is_chromium_family t ≡ false)

first-any :
    (test : String → Bool) (rows : List (String × String))
    → is_some (first (rules_of test rows)) ≡ any (λ (row : String × String). test row.0) rows
unfolding first rules_of any
first-any test [] = refl
first-any test (row ∷ rows) = elim (Bool-cases (test row.0)) [
  | inl e ↦ rw e refl
  | inr e ↦ rw e (first-any test rows)
]

first-head :
    (passes : Bool) (display : Bytes) (rest : List (Bool × Bytes))
    → is_some (first ((passes, display) ∷ rest)) ≡ false
    → passes ≡ false
unfolding first
first-head true display rest h = absurd (cc)
first-head false display rest h = refl

module _ (t : Texts) where
  -- A stage of `classify` and what comes after it.
  stage-next :
      (k : Category) (rules : List (Bool × Bytes)) (next : Option Class)
      → (is_some (first rules) ≡ true → Seen t k)
      → (is_some (first rules) ≡ false → Evidence t next)
      → Evidence t (or_else (stage k rules) next)
  unfolding Evidence
  stage-next k rules next = go (first rules)
    where
      go :
          (o : Option Bytes)
          → (is_some o ≡ true → Seen t k)
          → (is_some o ≡ false → Evidence t next)
          → Evidence t (or_else (dev k o) next)
      go none seen more = more refl
      go (some display) seen more = seen refl

  unless-next :
      (skip : Bool) (k : Category) (rules : List (Bool × Bytes)) (next : Option Class)
      → (skip ≡ false → Seen t k)
      → Evidence t next
      → Evidence t (or_else (unless skip (stage k rules)) next)
  unless-next true k rules next seen more = more
  unless-next false k rules next seen more = stage-next k rules next (λ _. seen refl) (λ _. more)

  stage-last :
      (k : Category) (rules : List (Bool × Bytes))
      → (is_some (first rules) ≡ true → Seen t k)
      → (is_some (first rules) ≡ false → Evidence t none)
      → Evidence t (stage k rules)
  stage-last k rules seen more =
      let next = stage-next k rules none seen more in
      elim (first rules) as (λ o. Evidence t (or_else (dev k o) none) → Evidence t (dev k o)) [
        | none ↦ λ e. e
        | some display ↦ λ e. e
      ]
        next

  -- The last stages, once the names of agents and of databases are ruled out.
  unnamed-Evidence :
      is_known t agent_names ≡ false
      → is_known t database_names ≡ false
      → Evidence t (
          or_else
            (stage dev_service (service_rules t))
            (or_else (stage browser (browser_rules t)) (stage unknown_dev (runtime_rules t))))
  unfolding browser_rules runtime_rules Seen Evidence is_known
  unnamed-Evidence agentless baseless =
      stage-next dev_service (service_rules t) _ (λ _. (agentless, baseless))
        (λ _.
          stage-next browser (browser_rules t) _ (λ _. (agentless, baseless))
            (λ e.
              let chromeless = first-head (is_chromium_family t) _ _ e in
              let known = sym (first-any (named t) runtime_names) in
              stage-last unknown_dev (runtime_rules t)
                (λ r. (known ∙ r, agentless, baseless, chromeless))
                (λ r. (known ∙ r, agentless, baseless, chromeless))))

  -- The stages after the agents, once the names of agents are ruled out.
  agentless-Evidence :
      (p : ProcessInfo)
      → is_known t agent_names ≡ false
      → Evidence t (
          or_else (unless (pkg_manager t) (stage language_server (server_rules p t))) (
            or_else (stage dev_server (dev_rules t)) (
              or_else (unless (pkg_manager t) (stage worker (worker_rules t))) (
                or_else (stage database (database_rules t)) (
                  or_else (stage dev_service (service_rules t)) (
                    or_else
                      (stage browser (browser_rules t))
                      (stage unknown_dev (runtime_rules t))))))))
  unfolding database_rules Seen is_known hit
  agentless-Evidence p agentless =
      let known = sym (first-any (named t) database_names) in
      unless-next (pkg_manager t) language_server (server_rules p t) _ (λ e. (e, agentless))
        (stage-next dev_server (dev_rules t) _ (λ _. agentless)
          (λ _.
            unless-next (pkg_manager t) worker (worker_rules t) _ (λ e. (e, agentless))
              (stage-next database (database_rules t) _ (λ e. (known ∙ e, agentless))
                (λ e. unnamed-Evidence agentless (known ∙ e)))))

-- What a class rests on where no signature of the configuration decides. An agent, a database and an
-- unknown runtime have one of the names of their tables, exactly. A server for tools, a language server
-- and a worker are never package managers. A process with the name of an agent becomes an agent or a
-- server for tools; one with the name of a database becomes no service, browser or unknown runtime. An
-- unknown runtime is no browser of the Chromium family, and a process without a class has no name of
-- these tables and is none of that family either.
pub classify-Evidence :
    (signatures : List SignatureConfig) (p : ProcessInfo)
    → extra_signature (texts p) signatures ≡ none
    → Evidence (texts p) (classify signatures p)
unfolding classify agent_rules Seen is_known
classify-Evidence signatures p unsigned =
    let t = texts p in
    let known = sym (first-any (named t) agent_names) in
    rw unsigned (
      unless-next t (pkg_manager t) mcp (mcp_rules p t) _ (λ e. e)
        (stage-next t agent (agent_rules t) _ (λ e. known ∙ e)
          (λ e. agentless-Evidence t p (known ∙ e))))

-- ===== src/Leftovers/Scoring.antt =====
-- `mark_one` of src/classify/leftovers.rs: the score of an item, its reasons, and what it is marked.
use wyd.Common.{
  ℕ, ◌+◌, ◌-◌, ◌/◌, Bool, true, false, not, ◌&&◌, Option, none, some, [], ◌∷◌, ◌++◌, ltb, leb,
  if◌then◌else◌, is_some, min,
}
use wyd.Runtime.{
  Category, agent, mcp, browser, dev_server, language_server, database, worker, RuntimeState,
  persistent, suspicious, SuspicionReason, parent_exited, owning_agent_missing, mcp_owner_missing,
  headless_browser_detached, long_running_dev_server, long_running_worker, Suspicion, Head,
  RuntimeItem, item, Children, no_more, child, ProcessInfo,
}
use wyd.Leftovers.{Env, root_proc, has_tty_ancestor, reparented, test, exempt}

abbrev pub is_agent : Category → Bool
is_agent agent = true
is_agent _ = false

-- The kinds that `unowned` looks at.
abbrev pub is_ownable : Category → Bool
is_ownable mcp = true
is_ownable browser = true
is_ownable dev_server = true
is_ownable language_server = true
is_ownable database = true
is_ownable worker = true
is_ownable _ = false

-- The kinds that only an agent starts.
abbrev pub needs_owner : Category → Bool
needs_owner mcp = true
needs_owner browser = true
needs_owner language_server = true
needs_owner database = true
needs_owner _ = false

abbrev pub is_mcp : Category → Bool
is_mcp mcp = true
is_mcp _ = false

abbrev pub is_browser : Category → Bool
is_browser browser = true
is_browser _ = false

-- The reason for which age counts against an item of some kind.
abbrev pub age_reason : Category → Option SuspicionReason
age_reason dev_server = some long_running_dev_server
age_reason worker = some long_running_worker
age_reason _ = none

abbrev pub no_suspicion : Suspicion
no_suspicion = record { score = 0; reasons = [] }

-- `reasons.push` and `score +=`.
abbrev pub note : Bool → SuspicionReason → ℕ → Suspicion → Suspicion
note true reason points s = record { score = s.score + points; reasons = s.reasons ++ reason ∷ [] }
note false reason points s = s

abbrev pub note_age : Bool → Option SuspicionReason → Suspicion → Suspicion
note_age old none s = s
note_age old (some reason) s = note old reason 20 s

-- The sum of an item of a kind: whether it is unowned and not interactive, whether its process was
-- re-parented, and whether it is older than the threshold.
unfoldable pub tally : Category → Bool → Bool → Bool → Suspicion
tally category lost orphan old =
    let s₁ = note (lost && needs_owner category) owning_agent_missing 50 no_suspicion in
    let s₂ = note (lost && is_mcp category) mcp_owner_missing 25 s₁ in
    let s₃ = note (lost && is_browser category) headless_browser_detached 30 s₂ in
    let s₄ = note (lost && orphan) parent_exited 40 s₃ in note_age old (age_reason category) s₄

unfoldable pub is_unowned : Option Category → Category → Bool
is_unowned parent category = not (is_some parent) && is_ownable category

unfoldable pub is_interactive : Env → Head → Bool
is_interactive env h = test (has_tty_ancestor env) (root_proc env h)

unfoldable pub is_old : Env → ProcessInfo → Bool
is_old env p = ltb 0 p.start_time && leb env.server_age_hours ((env.now - p.start_time) / 3600)

unfoldable pub score_of : Env → Option Category → Head → Suspicion
score_of env parent h =
    tally h.category (is_unowned parent h.category && not (is_interactive env h))
      (test (reparented env) (root_proc env h)) (test (is_old env) (root_proc env h))

-- The end of `mark_one`: the score is capped at 100, and one of 30 is enough.
unfoldable pub judge : Head → Suspicion → Head
judge h s =
    let score = min s.score 100 in
    if leb 30 score
    then record h {
      state = suspicious;
      suspicion = some (record { score = score; reasons = s.reasons });
    }
    else h

unfoldable pub mark_head : Env → Option Category → Head → Head
mark_head env parent h =
    if is_agent h.category
    then record h { suspicion = none }
    else if exempt env h
    then record h { state = persistent; suspicion = none }
    else judge h (score_of env parent h)

unfoldable mutual
  pub mark_one : Env → Option Category → RuntimeItem → RuntimeItem
  mark_one env parent (item h children) =
      item (mark_head env parent h) (mark_children env (some h.category) children)

  pub mark_children : Env → Option Category → Children → Children
  mark_children env parent no_more = no_more
  mark_children env parent (child i rest) =
      child (mark_one env parent i) (mark_children env parent rest)

-- `mark`, over the items of the forest.
unfoldable pub mark : Env → Children → Children
mark env items = mark_children env none items

abbrev pub is_suspicious : RuntimeState → Bool
is_suspicious suspicious = true
is_suspicious _ = false

abbrev pub one_if : Bool → ℕ
one_if true = 1
one_if false = 0

unfoldable mutual
  pub count_item : RuntimeItem → ℕ
  count_item (item h children) = one_if (is_suspicious h.state) + leftover_count children

  pub leftover_count : Children → ℕ
  leftover_count no_more = 0
  leftover_count (child i rest) = count_item i + leftover_count rest

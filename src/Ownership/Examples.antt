-- ===== src/Ownership/Examples.antt =====
-- A tree of src/model/runtime.rs with nested agents, and an instance of the theorem about the walk.
use wyd.Common.{ℕ, ◌+◌, ◌≡◌, refl, Option, none, some, [], ◌∷◌, map, if◌then◌else◌, ◌==◌}
use wyd.Identity.{ProcessIdentity}
use wyd.Runtime.{Category, agent, mcp, worker, active, Head, item, Children, no_more, child}
use wyd.Ownership.{started, new, members_of, visit, walk, walk_children, derive_ownership}
use wyd.Ownership.Nearest.{
  filter_map, places_of_children, owned_at, started_at, derive_ownership-nearest,
}

abbrev identity : ℕ → ProcessIdentity
identity pid = record { boot_id = 7; pid = pid; start_time = 1000 + pid }

-- The start time of process 12 is unknown.
abbrev identities : ℕ → Option ProcessIdentity
identities pid = if pid == 12 then none else some (identity pid)

abbrev head : Category → ℕ → Head
head category pid = record {
  category = category;
  display_name = 111 ∷ [];
  root_pid = some pid;
  process_ids = pid ∷ 12 ∷ [];
  state = active;
  suspicion = none;
  project = none;
}

-- Agent 10 with a server 11 and an agent 12, which has a worker 13.
abbrev tree : Children
tree =
    child
      (item (head agent 10) (
        child (item (head mcp 11) no_more)
          (child (item (head agent 12) (child (item (head worker 13) no_more) no_more)) no_more)))
      no_more

owned_pids : map (λ o. o.root.pid) (derive_ownership tree identities 5000).owned ≡ 11 ∷ 13 ∷ []
unfolding derive_ownership walk walk_children visit started new members_of
owned_pids = refl

derive_ownership-nearest_example : derive_ownership tree identities 5000 ≡ record {
  sessions = filter_map (started_at identities 5000) (places_of_children [] tree);
  owned = filter_map (owned_at identities 5000) (places_of_children [] tree);
}
derive_ownership-nearest_example = derive_ownership-nearest identities 5000 tree

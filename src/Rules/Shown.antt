-- ===== src/Rules/Shown.antt =====
-- `group` of src/classify/group.rs with the rules of src/classify/rules.rs: agents are always shown.
use wyd.Common.{
  ℕ, zero, suc, ◌≤◌, ◌≡◌, refl, ◌∙◌, inl, inr, Bool, true, false, ◌&&◌, Option, none, some, List,
  [], ◌∷◌, ◌==◌, if◌then◌else◌, Option-cases, get_elem?, arith, ==_iff, ap, subst, OnSome,
}
use wyd.Runtime.{
  Category, agent, mcp, browser, dev_server, language_server, database, worker, unknown_dev,
  dev_service, ProcessInfo,
}
use wyd.Actions.{children_pids}
use wyd.Grouping.{Class}
use wyd.Grouping.Collapse.{occurrences}
use wyd.Grouping.Build.{
  is_browser, is_unknown, class_of, is_classified, has_classified_descendant, wrapper, is_item,
  is_item_of, parent_item, group,
}
use wyd.Grouping.Chains.{pids_of, up}
use wyd.Grouping.Items.{class_of-absent}
use wyd.Grouping.Once.{group-once}
use wyd.Rules.{Texts, texts, browser_cmd_looks_dev}
use wyd.Rules.Tables.{
  agent_names, SignatureConfig, signature_category, signature_hit, signature_display,
  extra_signature, classify,
}
use wyd.Rules.Evidence.{is_known, Seen, Evidence, classify-Evidence}

module _ (classify : ProcessInfo → Option Class) where
  class_of-head :
      (ps : List ProcessInfo) (p : ProcessInfo) (c : Class)
      → occurrences p.pid (pids_of (p ∷ ps)) ≤ 1
      → classify p ≡ some c
      → class_of classify (p ∷ ps) p.pid ≡ some c
  unfolding class_of
  class_of-head ps p c once e =
      let same : (p.pid == p.pid) ≡ true = (==_iff p.pid p.pid).1 refl in
      let absent : occurrences p.pid (pids_of ps) ≡ 0 = ground (arith) in
      rw (class_of-absent classify ps p.pid absent, same) e

  class_of-member :
      (ps : List ProcessInfo) (i : ℕ) (p : ProcessInfo) (c : Class)
      → ((a : ℕ) → occurrences a (pids_of ps) ≤ 1)
      → get_elem? ps i ≡ some p
      → classify p ≡ some c
      → class_of classify ps p.pid ≡ some c
  unfolding class_of
  class_of-member [] i p c distinct at e = absurd (cc)
  class_of-member (q ∷ ps) zero p c distinct at e =
      subst (OnSome (λ r. classify r ≡ some c → class_of classify (q ∷ ps) r.pid ≡ some c)) at
        (class_of-head ps q c (distinct q.pid)) e
  class_of-member (q ∷ ps) (suc i) p c distinct at e =
      rw (class_of-member ps i p c (λ a. let below = distinct a in omega arith) at e) refl

-- Neither a browser nor an unknown runtime.
abbrev Plain : Option Class → Type 0
Plain none = true ≡ false
Plain (some c) = (is_browser c.category ≡ false) × (is_unknown c.category ≡ false)

Seen-Plain :
    (t : Texts) (k : Category)
    → is_known t agent_names ≡ true
    → Seen t k
    → (is_browser k ≡ false) × (is_unknown k ≡ false)
unfolding Seen
Seen-Plain t agent known seen = (refl, refl)
Seen-Plain t mcp known seen = (refl, refl)
Seen-Plain t browser known seen = absurd (let other = seen.0 in cc)
Seen-Plain t dev_server known seen = (refl, refl)
Seen-Plain t language_server known seen = (refl, refl)
Seen-Plain t database known seen = (refl, refl)
Seen-Plain t worker known seen = (refl, refl)
Seen-Plain t unknown_dev known seen = absurd (let other = seen.1 in cc)
Seen-Plain t dev_service known seen = (refl, refl)

Evidence-Plain :
    (t : Texts) (o : Option Class) → is_known t agent_names ≡ true → Evidence t o → Plain o
unfolding Evidence
Evidence-Plain t none known seen = let other = seen.1 in cc
Evidence-Plain t (some c) known seen = Seen-Plain t c.category known seen

signature_category-Plain :
    (s : SignatureConfig) (k : Category)
    → signature_category s ≡ some k
    → (is_browser k ≡ false) × (is_unknown k ≡ false)
unfolding signature_category
signature_category-Plain s agent e = (refl, refl)
signature_category-Plain s mcp e = (refl, refl)
signature_category-Plain s browser e = absurd (ground arith)
signature_category-Plain s dev_server e = (refl, refl)
signature_category-Plain s language_server e = (refl, refl)
signature_category-Plain s database e = (refl, refl)
signature_category-Plain s worker e = (refl, refl)
signature_category-Plain s unknown_dev e = absurd (ground arith)
signature_category-Plain s dev_service e = (refl, refl)

extra_signature-Plain :
    (t : Texts) (signatures : List SignatureConfig) (c : Class)
    → extra_signature t signatures ≡ some c
    → Plain (some c)
unfolding extra_signature
extra_signature-Plain t [] c e = absurd (cc)
extra_signature-Plain t (s ∷ rest) c e =
    row (signature_category s) (signature_category-Plain s) (signature_hit t s)
      (extra_signature-Plain t rest c) e
  where
    row :
        (o : Option Category)
        → ((k : Category) → o ≡ some k → (is_browser k ≡ false) × (is_unknown k ≡ false))
        → (hit : Bool) → (extra_signature t rest ≡ some c → Plain (some c))
        → elim o as (λ _. Option Class) [
          | none ↦ extra_signature t rest
          | some k ↦
              if hit
              then some (record { category = k; display_name = signature_display t s })
              else extra_signature t rest
        ]
          ≡ some c
        → Plain (some c)
    row none plain hit below e = below e
    row (some k) plain true below e = subst Plain e (plain k refl)
    row (some k) plain false below e = below e

classify-Plain :
    (signatures : List SignatureConfig) (p : ProcessInfo)
    → is_known (texts p) agent_names ≡ true
    → Plain (classify signatures p)
unfolding classify
classify-Plain signatures p known = elim (Option-cases (extra_signature (texts p) signatures)) [
  | inl e ↦ Evidence-Plain (texts p) _ known (classify-Evidence signatures p e)
  | inr (c, e) ↦ rw e (extra_signature-Plain (texts p) signatures c e)
]

module _ (classify : ProcessInfo → Option Class) (looks_dev : ProcessInfo → Bool) (rounds : ℕ)
    (ps : List ProcessInfo) where
  -- A test on the class of a process, where that is known.
  class-test :
      (f : Class → Bool) (pid : ℕ) (c : Class)
      → class_of classify ps pid ≡ some c
      → elim (class_of classify ps pid) as (λ _. Bool) [ none ↦ false | some k ↦ f k ] ≡ f c
  class-test f pid c e = ap (λ o. elim o as (λ _. Bool) [ none ↦ false | some k ↦ f k ]) e

  Plain-is_item :
      (pid : ℕ) (c : Class)
      → class_of classify ps pid ≡ some c
      → Plain (some c)
      → is_item classify looks_dev rounds ps pid ≡ true
  unfolding is_item is_classified wrapper
  Plain-is_item pid c e plain =
      let classified : is_classified classify looks_dev rounds ps pid ≡ true =
        class-test _ pid c e ∙ rw plain.0 refl in
      let unwrapped : wrapper classify looks_dev rounds ps pid ≡ false =
        ap (λ b. b && has_classified_descendant classify looks_dev rounds ps pid)
          (class-test (λ k. is_unknown k.category) pid c e ∙ plain.1) in
      class-test (λ k. is_item_of classify looks_dev rounds ps k pid) pid c e
      ∙ rw (classified, unwrapped, plain.0, plain.1) refl

-- Every process with the name of an agent is shown, in one item and once, in the tree that `group`
-- makes with the rules, whatever signatures the configuration has, if no two processes have the same
-- pid and the chain of items above it ends within `depth`.
pub group-agents_once :
    (signatures : List SignatureConfig) (rounds : ℕ) (ps : List ProcessInfo) (i : ℕ)
    (p : ProcessInfo) (depth : ℕ)
    → ((a : ℕ) → occurrences a (pids_of ps) ≤ 1)
    → get_elem? ps i ≡ some p
    → is_known (texts p) agent_names ≡ true
    → up (parent_item (classify signatures) browser_cmd_looks_dev rounds ps) depth p.pid ≡ none
    → occurrences p.pid
        (children_pids (group (classify signatures) browser_cmd_looks_dev rounds ps depth))
      ≡ 1
group-agents_once signatures rounds ps i p depth distinct at known top =
    elim (Option-cases (classify signatures p)) [
      | inl e ↦ absurd (let plain = subst Plain e (classify-Plain signatures p known) in cc)
      | inr (c, e) ↦
          let plain = subst Plain e (classify-Plain signatures p known) in
          let class = class_of-member (classify signatures) ps i p c distinct at e in
          let shown =
            Plain-is_item (classify signatures) browser_cmd_looks_dev rounds ps p.pid c class
              plain in
          group-once (classify signatures) browser_cmd_looks_dev rounds ps distinct depth p.pid
            (class-test (classify signatures) browser_cmd_looks_dev rounds ps
                (λ k. is_browser k.category) p.pid c class
              ∙ plain.0)
            top
          ∙ rw shown refl
    ]

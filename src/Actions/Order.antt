-- ===== src/Actions/Order.antt =====
-- What `postorder` of src/actions/process.rs gives: every seed once, and kids before their parents.
use mathlib.Core.Option
use wyd.Common.{
  ℕ, suc, ◌≡◌, refl, ap, ◌∙◌, sym, Bool, true, false, some, List, [], ◌∷◌, map, All, All-map,
  retain-passes, any, any-All, All-any, length, arith,
}
use wyd.Runtime.{ProcessInfo}
use wyd.Actions.{has, kids_of, Visit, walk, postorder}
use wyd.Actions.Walk.{distinct, walk_all-Walked, walk-Walks, unseen-le_length}

pub All-of_map :
    {A : Type 0} (P : ℕ → Type 0) (f : A → ℕ) (xs : List A)
    → All (λ x. P (f x)) xs
    → All P (map f xs)
All-of_map P f [] h = tt
All-of_map P f (x ∷ xs) h = (h.0, All-of_map P f xs h.1)

pub kids_of-inside :
    (seeds : List ℕ) (processes : List ProcessInfo) (pid : ℕ)
    → All (λ p. has seeds p ≡ true) (kids_of seeds processes pid)
unfolding kids_of
kids_of-inside seeds processes pid =
    All-of_map (λ p. has seeds p ≡ true) (λ (p : ProcessInfo). p.pid) _
      (All-map (λ p k. ground arith) _ (retain-passes _ processes))

-- The outcome for some seeds: all of them, each once.
abbrev pub Orders : List ℕ → List ProcessInfo → Type 0
Orders seeds processes =
    (out : List ℕ) × (postorder seeds processes ≡ some out)
    × (distinct out ≡ true)
    × ((pid : ℕ) → has out pid ≡ has seeds pid)

has-both : (a b : Bool) → (a ≡ true → b ≡ true) → (b ≡ true → a ≡ true) → a ≡ b
has-both true b f g = sym (f refl)
has-both false true f g = g refl
has-both false false f g = refl

-- Whatever parents the snapshot gives, in a circle too, `postorder` ends within its fuel, and its result
-- has exactly the pids of the seeds, each of them once, however often they stand among the seeds.
pub postorder-Orders : (seeds : List ℕ) (processes : List ProcessInfo) → Orders seeds processes
unfolding postorder any
postorder-Orders seeds processes =
    let kids = kids_of seeds processes in
    let n = suc (length seeds) in
    let start : Visit = record { seen = []; out = [] } in
    let (v, e, w, all_seen) =
      walk_all-Walked seeds (walk kids n) n
        (walk-Walks seeds kids (kids_of-inside seeds processes) n) seeds start (any-All seeds)
        (omega (arith, unseen-le_length seeds [])) in
    (
      v.out,
      ap (Option.map (λ (v : Visit). v.out)) e,
      ap distinct w.out ∙ w.once,
      λ pid.
          ap (λ xs. has xs pid) w.out
          ∙ has-both _ _ (All-any (λ q. has seeds q ≡ true) w.new pid w.inside)
              (λ k. sym (w.seen pid) ∙ All-any (λ q. has v.seen q ≡ true) seeds pid all_seen k),
    )

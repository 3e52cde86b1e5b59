-- ===== src/Actions/Walk.antt =====
-- The depth-first walk of `postorder` in src/actions/process.rs: it ends, and visits each pid once.
use mathlib.Core.List.{append_assoc, append-nil}
use wyd.Common.{
  ℕ, zero, suc, ◌≤◌, ◌<◌, ◌≡◌, refl, ap, ◌∙◌, sym, subst, inl, inr, Bool, true, false, not, ◌&&◌,
  ◌||◌, Option, some, Bool-cases, List, [], ◌∷◌, ◌++◌, ◌==◌, ==_iff, All, All-map, All-append,
  retain, any, any-append, length, length-retain_le, arith,
}
use wyd.Actions.{has, Visit, push, walk_all, walk}

-- Each pid once.
unfoldable pub distinct : List ℕ → Bool
distinct [] = true
distinct (p ∷ ps) = not (has ps p) && distinct ps

-- The seeds that are not seen yet.
unfoldable pub unseen : List ℕ → List ℕ → ℕ
unseen seeds seen = length (retain (λ p. not (has seen p)) seeds)

unseen-seen :
    (p : ℕ) (seeds seen : List ℕ) → has seen p ≡ true → unseen (p ∷ seeds) seen ≡ unseen seeds seen
unfolding unseen retain
unseen-seen p seeds seen e = rw e refl

unseen-new :
    (p : ℕ) (seeds seen : List ℕ)
    → has seen p ≡ false
    → unseen (p ∷ seeds) seen ≡ suc (unseen seeds seen)
unfolding unseen retain
unseen-new p seeds seen e = rw e refl

unseen-le :
    (seeds seen seen' : List ℕ)
    → ((q : ℕ) → has seen q ≡ true → has seen' q ≡ true)
    → unseen seeds seen' ≤ unseen seeds seen
unfolding unseen retain
unseen-le [] seen seen' more = omega arith
unseen-le (p ∷ seeds) seen seen' more =
    let rest = unseen-le seeds seen seen' more in
    elim (Bool-cases (has seen p)) [
      | inl e ↦
          omega (arith, unseen-seen p seeds seen e, unseen-seen p seeds seen' (more p e), rest)
      | inr e ↦ elim (Bool-cases (has seen' p)) [
        | inl f ↦ omega (arith, unseen-new p seeds seen e, unseen-seen p seeds seen' f, rest)
        | inr f ↦ omega (arith, unseen-new p seeds seen e, unseen-new p seeds seen' f, rest)
      ]
    ]

pub has-same : (p q : ℕ) (xs : List ℕ) (b : Bool) → (p == q) ≡ true → has xs p ≡ b → has xs q ≡ b
has-same p q xs b e h = subst (λ r. has xs r ≡ b) ((==_iff p q).0 e) h

pub unseen-le_length : (seeds seen : List ℕ) → unseen seeds seen ≤ length seeds
unfolding unseen
unseen-le_length seeds seen = length-retain_le (λ p. not (has seen p)) seeds

pub unseen-lt :
    (seeds seen : List ℕ) (pid : ℕ)
    → has seeds pid ≡ true
    → has seen pid ≡ false
    → unseen seeds (pid ∷ seen) < unseen seeds seen
unfolding any
unseen-lt [] seen pid h new = absurd (cc)
unseen-lt (p ∷ seeds) seen pid h new = elim (Bool-cases (pid == p)) [
  | inl e ↦
      let old = has-same pid p seen false e new in
      let now : has (pid ∷ seen) p ≡ true = ground arith in
      let rest = unseen-le seeds seen (pid ∷ seen) (λ q k. ground arith) in
      omega (arith, unseen-new p seeds seen old, unseen-seen p seeds (pid ∷ seen) now)
  | inr e ↦
      let rest = unseen-lt seeds seen pid (ground arith) new in
      elim (Bool-cases (has seen p)) [
        | inl f ↦
            let now : has (pid ∷ seen) p ≡ true = ground arith in
            omega (arith, unseen-seen p seeds seen f, unseen-seen p seeds (pid ∷ seen) now)
        | inr f ↦
            let now : has (pid ∷ seen) p ≡ false = ground arith in
            omega (arith, unseen-new p seeds seen f, unseen-new p seeds (pid ∷ seen) now)
      ]
]

-- What a walk adds: some pids at the end of `out`, each once, all of them new.
pub record Walked (seeds : List ℕ) (v v' : Visit) : Type 0 where
  pub new : List ℕ
  pub out : v'.out ≡ v.out ++ new
  pub once : distinct new ≡ true
  pub fresh : All (λ q. has v.seen q ≡ false) new
  pub inside : All (λ q. has seeds q ≡ true) new
  pub seen : (q : ℕ) → has v'.seen q ≡ (has v.seen q || has new q)

apart-head : (x : ℕ) (ys : List ℕ) → All (λ q. (q == x) ≡ false) ys → has ys x ≡ false
unfolding any
apart-head x [] h = refl
apart-head x (y ∷ ys) h = ground (arith, h.0, apart-head x ys h.1)

pub or-false : (c a b : Bool) → c ≡ (a || b) → c ≡ false → (a ≡ false) × (b ≡ false)
or-false c a b e h = (ground arith, ground arith)

pub distinct-append :
    (xs ys : List ℕ)
    → distinct xs ≡ true
    → distinct ys ≡ true
    → All (λ q. has xs q ≡ false) ys
    → distinct (xs ++ ys) ≡ true
unfolding distinct any
distinct-append [] ys dx dy apart = dy
distinct-append (x ∷ xs) ys dx dy apart =
    let head =
      apart-head x ys (All-map (λ q k. (or-false _ (q == x) (has xs q) refl k).0) ys apart) in
    let rest =
      distinct-append xs ys (ground arith) dy
        (All-map (λ q k. (or-false _ (q == x) (has xs q) refl k).1) ys apart) in
    let e : has (xs ++ ys) x ≡ (has xs x || has ys x) = any-append (◌==◌ x) xs ys in
    ground (arith, e, head, rest)

or-nothing : (b : Bool) → b ≡ (b || false)
or-nothing b = ground arith

pub Walked-refl : (seeds : List ℕ) (v : Visit) → Walked seeds v v
unfolding distinct any
Walked-refl seeds v = record {
  new = [];
  out = sym (append-nil v.out);
  once = refl;
  fresh = tt;
  inside = tt;
  seen = λ q. or-nothing (has v.seen q);
}

or_assoc : (a b c : Bool) → ((a || b) || c) ≡ (a || (b || c))
or_assoc a b c = ground arith

pub Walked-trans :
    (seeds : List ℕ) (u v w : Visit) → Walked seeds u v → Walked seeds v w → Walked seeds u w
unfolding any
Walked-trans seeds u v w h k = record {
  new = h.new ++ k.new;
  out = k.out ∙ ap (λ xs. xs ++ k.new) h.out ∙ append_assoc u.out h.new k.new;
  once =
      distinct-append h.new k.new h.once k.once
        (All-map (λ q f. (or-false _ (has u.seen q) (has h.new q) (h.seen q) f).1) k.new k.fresh);
  fresh =
      All-append (λ q. has u.seen q ≡ false) h.new k.new h.fresh
        (All-map (λ q f. (or-false _ (has u.seen q) (has h.new q) (h.seen q) f).0) k.new k.fresh);
  inside = All-append (λ q. has seeds q ≡ true) h.new k.new h.inside k.inside;
  seen = λ q.
      k.seen q
      ∙ ap (λ b. b || has k.new q) (h.seen q)
      ∙ or_assoc (has u.seen q) (has h.new q) (has k.new q)
      ∙ ap (◌||◌ (has u.seen q)) (sym (any-append (◌==◌ q) h.new k.new));
}

turned : (a b c : Bool) → ((a || b) || c) ≡ (b || (c || (a || false)))
turned a b c = ground arith

-- A pid is entered, its kids are walked, and it comes last.
pub Walked-push :
    (seeds : List ℕ) (pid : ℕ) (v v₁ : Visit)
    → has seeds pid ≡ true
    → has v.seen pid ≡ false
    → Walked seeds (record v { seen = pid ∷ v.seen }) v₁
    → Walked seeds v (record v₁ { out = v₁.out ++ pid ∷ [] })
unfolding distinct any
Walked-push seeds pid v v₁ at new w =
    let apart = All-map (λ q k. (or-false _ (q == pid) (has v.seen q) refl k).0) w.new w.fresh in
    let older = All-map (λ q k. (or-false _ (q == pid) (has v.seen q) refl k).1) w.new w.fresh in
    record {
      new = w.new ++ pid ∷ [];
      out = ap (λ xs. xs ++ pid ∷ []) w.out ∙ append_assoc v.out w.new (pid ∷ []);
      once = distinct-append w.new (pid ∷ []) w.once refl (apart-head pid w.new apart, tt);
      fresh = All-append (λ q. has v.seen q ≡ false) w.new (pid ∷ []) older (new, tt);
      inside = All-append (λ q. has seeds q ≡ true) w.new (pid ∷ []) w.inside (at, tt);
      seen = λ q.
          w.seen q
          ∙ turned (q == pid) (has v.seen q) (has w.new q)
          ∙ ap (◌||◌ (has v.seen q)) (sym (any-append (◌==◌ q) w.new (pid ∷ [])));
    }

-- The walk of one pid, of the kids of which all is known: enough fuel gives a result.
abbrev pub Walks : List ℕ → (ℕ → Visit → Option Visit) → ℕ → Type 0
Walks seeds visit n =
    (pid : ℕ) (v : Visit)
    → has seeds pid ≡ true
    → unseen seeds v.seen < n
    → (v' : Visit) × (visit pid v ≡ some v') × Walked seeds v v' × (has v'.seen pid ≡ true)

pub Walked-unseen :
    (seeds : List ℕ) (v v' : Visit) → Walked seeds v v' → unseen seeds v'.seen ≤ unseen seeds v.seen
Walked-unseen seeds v v' h =
    unseen-le seeds v.seen v'.seen (λ q k. h.seen q ∙ ap (λ b. b || has h.new q) k)

pub walk_all-Walked :
    (seeds : List ℕ) (visit : ℕ → Visit → Option Visit) (n : ℕ)
    → Walks seeds visit n
    → (pids : List ℕ) (v : Visit) → All (λ p. has seeds p ≡ true) pids
    → unseen seeds v.seen < n
    → (v' : Visit) × (walk_all visit pids v ≡ some v')
      × Walked seeds v v'
      × All (λ p. has v'.seen p ≡ true) pids
unfolding walk_all
walk_all-Walked seeds visit n walks [] v inside h = (v, refl, Walked-refl seeds v, tt)
walk_all-Walked seeds visit n walks (p ∷ pids) v inside h =
    let (v₁, e₁, w₁, at₁) = walks p v inside.0 h in
    let (v₂, e₂, w₂, at₂) =
      walk_all-Walked seeds visit n walks pids v₁ inside.1
        (omega (arith, Walked-unseen seeds v v₁ w₁)) in
    (
      v₂,
      rw (e₁, walk_all) e₂,
      Walked-trans seeds v v₁ v₂ w₁ w₂,
      (w₂.seen p ∙ ap (λ b. b || has w₂.new p) at₁, at₂),
    )

entered-seen : (pid : ℕ) (seen : List ℕ) (b : Bool) → (has (pid ∷ seen) pid || b) ≡ true
unfolding any
entered-seen pid seen b = ground arith

pub walk-Walks :
    (seeds : List ℕ) (kids : ℕ → List ℕ)
    → ((pid : ℕ) → All (λ p. has seeds p ≡ true) (kids pid))
    → (n : ℕ) → Walks seeds (walk kids n) n
unfolding walk any
walk-Walks seeds kids inside zero pid v at h = absurd (omega arith)
walk-Walks seeds kids inside (suc n) pid v at h = elim (Bool-cases (has v.seen pid)) [
  | inl old ↦ (v, rw (old, walk) refl, Walked-refl seeds v, old)
  | inr new ↦
      let entered : Visit = record v { seen = pid ∷ v.seen } in
      let less : unseen seeds entered.seen < n = omega (arith, unseen-lt seeds v.seen pid at new) in
      let (v₁, e₁, w₁, _) =
        walk_all-Walked seeds (walk kids n) n (walk-Walks seeds kids inside n) (kids pid) entered
          (inside pid) less in
      (
        record v₁ { out = v₁.out ++ pid ∷ [] },
        rw (new, walk) (rw (e₁, push) refl),
        Walked-push seeds pid v v₁ at new w₁,
        w₁.seen pid ∙ entered-seen pid v.seen (has w₁.new pid),
      )
]

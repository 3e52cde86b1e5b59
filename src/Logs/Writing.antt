-- ===== src/Logs/Writing.antt =====
-- The outcome of `LogSink::write_all_bounded` of src/runner/logs.rs in one equation.
use wyd.Common.{
  ℕ, zero, suc, ◌+◌, ◌-◌, ◌≤◌, ◌≡◌, refl, ap, ◌∙◌, sym, ◌⊎◌, inl, inr, Bool, true, false, ◌||◌, [],
  ◌∷◌, ◌++◌, ltb, ◌==◌, if◌then◌else◌, min, length, take, arith, Bool-cases,
}
use wyd.Logs.{
  Bytes, Shared, take_budget, publish, set_truncated, append_bytes, write_granted,
  write_all_bounded,
}

pub append-nil : (xs : Bytes) → xs ++ [] ≡ xs
append-nil [] = refl
append-nil (x ∷ xs) = ap (◌∷◌ x) (append-nil xs)

pub append_assoc : (xs ys zs : Bytes) → (xs ++ ys) ++ zs ≡ xs ++ (ys ++ zs)
append_assoc [] ys zs = refl
append_assoc (x ∷ xs) ys zs = ap (◌∷◌ x) (append_assoc xs ys zs)

pub take-all : (n : ℕ) (xs : Bytes) → length xs ≤ n → take n xs ≡ xs
take-all zero [] h = refl
take-all zero (x ∷ xs) h = absurd (omega arith)
take-all (suc n) [] h = refl
take-all (suc n) (x ∷ xs) h = ap (◌∷◌ x) (take-all n xs (omega arith))

pub length-take_le : (n : ℕ) (xs : Bytes) → n ≤ length xs → length (take n xs) ≡ n
length-take_le zero xs h = refl
length-take_le (suc n) [] h = absurd (omega arith)
length-take_le (suc n) (x ∷ xs) h = ap suc (length-take_le n xs (omega arith))

-- How much of a buffer gets through.
abbrev pub through : Shared → Bytes → ℕ
through s buf =
    min (min (length buf) (s.sink.limit - s.sink.written)) (s.budget.limit - s.budget.used)

or-false : (b : Bool) → (b || false) ≡ b
or-false true = refl
or-false false = refl

or-true : (b : Bool) → (b || true) ≡ true
or-true true = refl
or-true false = refl

-- The outcome of `write_granted`, before it is published, where `k` bytes are granted.
abbrev pub unpublished : Shared → Bytes → ℕ → Shared
unpublished s buf k = record {
  sink = record s.sink {
    file = s.sink.file ++ take k buf;
    written = s.sink.written + k;
    truncated = s.sink.truncated || ltb k (length buf);
  };
  state = s.state;
  budget = record s.budget { used = s.budget.used + k };
}

abbrev marked : Shared → Bool → Shared
marked s b = record s { sink = record s.sink { truncated = s.sink.truncated || b } }

set_truncated-marked : (s : Shared) (b : Bool) → (if b then set_truncated s else s) ≡ marked s b
set_truncated-marked s true =
    ap (λ t. record s { sink = record s.sink { truncated = t } }) (sym (or-true s.sink.truncated))
set_truncated-marked s false =
    ap (λ t. record s { sink = record s.sink { truncated = t } }) (sym (or-false s.sink.truncated))

abbrev appended : Shared → Bytes → ℕ → Shared
appended s file written = record s { sink = record s.sink { file = file; written = written } }

append_bytes-if :
    (s : Shared) (buf : Bytes) (k : ℕ)
    → (if ltb 0 k then append_bytes s buf k else s) ≡ append_bytes s buf k
append_bytes-if s buf zero =
    ap (λ file. appended s file s.sink.written) (sym (append-nil s.sink.file))
    ∙ ap (appended s (s.sink.file ++ [])) (omega arith)
append_bytes-if s buf (suc k) = ground arith

or-or : (t a b : Bool) → (a ≡ true → b ≡ true) → ((t || a) || b) ≡ (t || b)
or-or true a b h = refl
or-or false true b h = sym (h refl)
or-or false false b h = refl

write_granted-eq :
    (s : Shared) (buf : Bytes) (want : ℕ)
    → want ≤ length buf
    → write_granted s buf want
      ≡ publish (unpublished s buf (min want (s.budget.limit - s.budget.used)))
unfolding write_granted take_budget
write_granted-eq s buf want h =
    let k = min want (s.budget.limit - s.budget.used) in
    let s₁ = record s { budget = record s.budget { used = s.budget.used + k } } in
    let s₂ = marked s₁ (ltb k want) in
    let last : Shared → Shared = λ t. publish (if ltb k (length buf) then set_truncated t else t) in
    ap (λ t. last (if ltb 0 k then append_bytes t buf k else t))
      (set_truncated-marked s₁ (ltb k want))
    ∙ ap last (append_bytes-if s₂ buf k)
    ∙ ap publish (set_truncated-marked (append_bytes s₂ buf k) (ltb k (length buf)))
    ∙ ap
        (λ t. publish (record (unpublished s buf k) {
          sink = record (unpublished s buf k).sink { truncated = t };
        }))
        (or-or s.sink.truncated (ltb k want) (ltb k (length buf)) (λ e. ground arith))

unpublished-none :
    (s : Shared) (buf : Bytes) (k : ℕ) → k ≡ 0 → unpublished s buf k ≡ marked s (ltb 0 (length buf))
unpublished-none s buf k e =
    let at : Bytes → ℕ → ℕ → Shared = λ file written used. record {
      sink = record s.sink {
        file = file;
        written = written;
        truncated = s.sink.truncated || ltb 0 (length buf);
      };
      state = s.state;
      budget = record s.budget { used = used };
    } in
    ap (unpublished s buf) e
    ∙ ap (λ file. at file (s.sink.written + 0) (s.budget.used + 0)) (append-nil s.sink.file)
    ∙ ap (λ written. at s.sink.file written (s.budget.used + 0)) (omega arith)
    ∙ ap (at s.sink.file s.sink.written) (omega arith)

-- A write of no bytes does nothing; any other appends what gets through, takes it from the budget
-- and publishes it.
pub write-eq :
    (s : Shared) (buf : Bytes)
    → ((buf ≡ []) × (write_all_bounded s buf ≡ s))
      ⊎ (write_all_bounded s buf ≡ publish (unpublished s buf (through s buf)))
unfolding write_all_bounded
write-eq s [] = ground arith
write-eq s (x ∷ xs) =
    let buf = x ∷ xs in
    let want = min (length buf) (s.sink.limit - s.sink.written) in
    inr (elim (Bool-cases (want == 0)) [
      | inr some_room ↦ rw some_room (write_granted-eq s buf want (omega arith))
      | inl no_room ↦
          let none_through : through s buf ≡ 0 = ground arith in
          let dropped : length buf == 0 ≡ false = ground arith in
          rw (no_room, dropped)
            (ap publish (
              sym (
                unpublished-none s buf (through s buf) none_through
                ∙ ap (marked s) (ground arith)
                ∙ sym (set_truncated-marked s true))))
    ])

-- ===== src/Manifest/Apply/Fresh.antt =====
-- The search for an unused alias ends, and finds one.
use mathlib.Core.List.{append_cancel_left}
use codemesh.Base.{
  ℕ, zero, suc, ◌+◌, ◌≤◌, ◌<◌, ◌≡◌, ◌≢◌, refl, sym, ◌∙◌, true, false, not, Text, ◌==◌, eq_iff, List,
  [], ◌∷◌, ◌++◌, some, mem_text, any, keep, decimal, decimal_injective, length, arith, Bool-cases,
  inl, inr,
}
use codemesh.Manifest.Apply.Aliases.{candidate, search_alias, fresh_alias}

without : Text → List Text → List Text
without a = keep (λ b. not (b == a))

mem-without :
    (a b : Text) (used : List Text) → b ≢ a → mem_text b (without a used) ≡ mem_text b used
unfolding without keep mem_text any
mem-without a b [] h = refl
mem-without a b (c ∷ used) h = ground (arith, mem-without a b used h, eq_iff c a, eq_iff c b)

length-without-le : (a : Text) (used : List Text) → length (without a used) ≤ length used
unfolding without keep
length-without-le a [] = omega arith
length-without-le a (c ∷ used) = ground (arith, length-without-le a used)

length-without :
    (a : Text) (used : List Text) → mem_text a used ≡ true → length (without a used) < length used
unfolding without keep mem_text any
length-without a [] h = cc
length-without a (c ∷ used) h =
    ground (arith, length-without a used, length-without-le a used, eq_iff a c, eq_iff c a)

mem-nil : (a : Text) → mem_text a [] ≡ false
unfolding mem_text any
mem-nil a = refl

nil-ne-suffix : (name s : Text) → name ≢ name ++ b'_' ∷ s
nil-ne-suffix [] s e = cc
nil-ne-suffix (c ∷ name) s e = nil-ne-suffix name s (cc)

candidate_injective : (name : Text) (m n : ℕ) → candidate name m ≡ candidate name n → m ≡ n
unfolding candidate
candidate_injective name zero zero e = refl
candidate_injective name zero (suc n) e = absurd (nil-ne-suffix name (decimal (suc n)) e)
candidate_injective name (suc m) zero e = absurd (nil-ne-suffix name (decimal (suc m)) (sym e))
candidate_injective name (suc m) (suc n) e =
    decimal_injective (suc m) (suc n) (cc (append_cancel_left name _ _ e))

-- The candidates from a round on are in use only as far as they are among the `left` ones.
search_alias-fresh :
    (name : Text) (used : List Text) (rounds s : ℕ) (left : List Text)
    → length left ≤ rounds
    → ((j : ℕ) → s ≤ j → mem_text (candidate name j) used ≡ mem_text (candidate name j) left)
    → (a : Text) × (search_alias name used rounds s ≡ some a) × (mem_text a used ≡ false)
unfolding search_alias
search_alias-fresh name used zero s [] few same =
    let free = same s (omega arith) ∙ mem-nil (candidate name s) in
    (candidate name s, rw free, free)
search_alias-fresh name used zero s (c ∷ left) few same = absurd (omega arith)
search_alias-fresh name used (suc rounds) s left few same =
    let here = candidate name s in
    elim (Bool-cases (mem_text here used)) [
      | inr free ↦ (here, rw free, free)
      | inl taken ↦
          let fewer = length-without here left (sym (same s (omega arith)) ∙ taken) in
          rw taken (
            search_alias-fresh name used rounds (s + 1) (without here left) (omega arith)
              (λ j above.
                same j (omega arith)
                ∙ sym (
                    mem-without here (candidate name j) left
                      (λ e. let k = candidate_injective name j s e in absurd (omega arith)))))
    ]

-- The search for an alias ends within one round more than there are aliases in use, and the alias
-- that it returns is not in use, whatever the name and the aliases are.
pub fresh_alias-unused :
    (name : Text) (used : List Text)
    → (a : Text) × (fresh_alias name used ≡ some a) × (mem_text a used ≡ false)
unfolding fresh_alias
fresh_alias-unused name used =
    search_alias-fresh name used (length used) 0 used (omega arith) (λ j above. refl)

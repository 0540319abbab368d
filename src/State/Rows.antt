-- ===== src/State/Rows.antt =====
-- The rows of a consistent table of projects, and what keeps them consistent.
use codemesh.Base.{
  ℕ, suc, ◌≤◌, ◌<◌, ◌≡◌, ◌≢◌, inl, inr, eq_iff, Bool, false, none, [], ◌∷◌, ◌++◌, arith, keep, All,
  Pairs, Bool-cases,
}
use codemesh.State.{
  Project, Table, find_row, has_alias, has_remote, last_id, missing_field, with_clone_url,
  with_placement_defaults,
}

-- Two rows that differ in all three unique columns.
pub record Differ (p q : Project) : Type 0 where
  pub ids : p.id ≢ q.id
  pub aliases : p.alias ≢ q.alias
  pub remotes : p.normalized_remote ≢ q.normalized_remote

pub record IsFilled (p : Project) : Type 0 where
  pub id : 0 < p.id
  pub alias : p.alias ≢ []
  pub remote : p.normalized_remote ≢ []
  pub local_path : p.local_path ≢ []

pub record IsConsistent (t : Table) : Type 0 where
  pub differ : Pairs Differ t
  pub filled : All IsFilled t

pub find_row-All :
    (test : Project → Bool) (t : Table) → find_row test t ≡ none → All (λ p. test p ≡ false) t
unfolding find_row
find_row-All test [] h = tt
find_row-All test (p ∷ t) h = elim (Bool-cases (test p)) [
  | inl hit ↦ cc (rw hit at h)
  | inr miss ↦ (miss, find_row-All test t (rw miss at h))
]

All-append_one :
    (P : Project → Type 0) (t : Table) (p : Project) → All P t → P p → All P (t ++ p ∷ [])
All-append_one P [] p h r = (r, tt)
All-append_one P (q ∷ t) p h r = (h.0, All-append_one P t p h.1 r)

Pairs-append_one :
    (R : Project → Project → Type 0) (t : Table) (p : Project)
    → Pairs R t
    → All (λ q. R q p) t
    → Pairs R (t ++ p ∷ [])
Pairs-append_one R [] p h r = (tt, tt)
Pairs-append_one R (q ∷ t) p h r =
    (All-append_one (R q) t p h.0 r.0, Pairs-append_one R t p h.1 r.1)

pub All-keep : (P : Project → Type 0) (f : Project → Bool) (t : Table) → All P t → All P (keep f t)
unfolding keep
All-keep P f [] h = tt
All-keep P f (q ∷ t) h = elim (Bool-cases (f q)) [
  | inl stays ↦ rw stays (h.0, All-keep P f t h.1)
  | inr goes ↦ rw goes (All-keep P f t h.1)
]

pub Pairs-keep :
    (R : Project → Project → Type 0) (f : Project → Bool) (t : Table)
    → Pairs R t
    → Pairs R (keep f t)
unfolding keep
Pairs-keep R f [] h = tt
Pairs-keep R f (q ∷ t) h = elim (Bool-cases (f q)) [
  | inl stays ↦ rw stays (All-keep (R q) f t h.0, Pairs-keep R f t h.1)
  | inr goes ↦ rw goes (Pairs-keep R f t h.1)
]

-- A new row has an id above all others.
last_id-le : (t : Table) (n : ℕ) → last_id t ≤ n → All (λ q. q.id ≤ n) t
unfolding last_id
last_id-le [] n h = tt
last_id-le (q ∷ t) n h = (omega arith, last_id-le t n (omega arith))

new_row-Differ :
    (p : Project) (n : ℕ) (t : Table)
    → All (λ q. q.id ≤ n) t
    → All (λ q. has_alias p.alias q ≡ false) t
    → All (λ q. has_remote p.normalized_remote q ≡ false) t
    → All (λ q. Differ q (record p { id = suc n })) t
new_row-Differ p n [] i a r = tt
new_row-Differ p n (q ∷ t) i a r = (
  record {
    ids = omega arith;
    aliases = ground (arith, a.0, eq_iff q.alias p.alias);
    remotes = ground (arith, r.0, eq_iff q.normalized_remote p.normalized_remote);
  },
  new_row-Differ p n t i.1 a.1 r.1,
)

-- The checks that come first leave a row with no empty required field.
pub defaults-IsFilled :
    (p : Project) (n : ℕ)
    → missing_field p ≡ none
    → IsFilled (record (with_placement_defaults (with_clone_url p)) { id = suc n })
unfolding missing_field with_placement_defaults with_clone_url
defaults-IsFilled p n h = ground arith

pub insert_row-IsConsistent :
    (p : Project) (t : Table)
    → IsConsistent t
    → ((n : ℕ) → IsFilled (record p { id = suc n }))
    → find_row (has_alias p.alias) t ≡ none
    → find_row (has_remote p.normalized_remote) t ≡ none
    → IsConsistent (t ++ record p { id = suc (last_id t) } ∷ [])
insert_row-IsConsistent p t c f a r = record {
  differ = Pairs-append_one Differ t _ c.differ (
      new_row-Differ p (last_id t) t (last_id-le t (last_id t) (omega arith)) (find_row-All _ t a)
        (find_row-All _ t r));
  filled = All-append_one IsFilled t _ c.filled (f (last_id t));
}

-- ===== src/Manifest/Plan/Outcome.antt =====
-- What one turn of the loop of `PlanImport` does to the ledger, and what an accepted entry found
-- free.
use mathlib.Core.Path.{subst}
use codemesh.Base.{
  ◌≡◌, ◌≢◌, ◌⊎◌, inl, inr, Text, eq_iff, eq_refl, Bool, true, false, none, some, List, [], ◌∷◌,
  mem_text, any, arith, Dict, lookup, insert, lookup-insert, lookup-insert_self, Bool-cases,
  Option-cases,
}
use codemesh.Host.{Host}
use codemesh.Manifest.Entries.{ProjectEntry}
use codemesh.Manifest.Locations.{
  path_is_ancestor, nested_desired_path_conflict, path_within_root, canonical_path_for_comparison,
}
use codemesh.Manifest.Plan.{plan_entry, plan_fresh, plan_placed, take_alias, see_path, see_identity}
use codemesh.Manifest.Plan.Registry.{Ledger, other_owner}
use codemesh.Manifest.Plan.Change.{
  ImportChange, ChangeAction, conflict, refuse, desired_compare_path, new_change, alias_refusal,
  path_refusal, known_change, known_conflict,
}

abbrev pub is_conflict : ChangeAction → Bool
is_conflict conflict = true
is_conflict _ = false

-- The ledger after a change that was accepted.
pub record Holds (h : Host) (root : Text) (c : ImportChange) (l : Ledger) : Type 0 where
  pub identity : mem_text c.identity l.seen_identities ≡ true
  pub alias : lookup c.alias l.alias_owner ≡ some c.identity
  pub path : lookup (desired_compare_path h root c.desired_path) l.seen_paths ≡ some c.identity

-- A key with no other owner keeps the owner that it has.
lookup-insert_owned :
    (d : Dict Text) (k j id owner : Text)
    → other_owner d k id ≡ none
    → lookup j d ≡ some owner
    → lookup j (insert k id d) ≡ some owner
unfolding other_owner
lookup-insert_owned d k j id owner free here =
    ground (arith, lookup-insert k j id d, eq_iff k j, eq_iff owner id)

-- Keys with different owners are different.
pub owned-ne :
    (d : Dict Text) (k j id owner : Text)
    → other_owner d k id ≡ none
    → lookup j d ≡ some owner
    → owner ≢ id
    → j ≢ k
unfolding other_owner
owned-ne d k j id owner free here other e =
    ground (arith, eq_iff owner id, subst (λ x. lookup x d ≡ some owner) e here)

pub not_nested :
    (d : Dict Text) (path key id owner : Text)
    → nested_desired_path_conflict d path id ≡ none
    → lookup key d ≡ some owner
    → owner ≢ id
    → (path_is_ancestor key path ≡ false) × (path_is_ancestor path key ≡ false)
unfolding nested_desired_path_conflict lookup
not_nested [] path key id owner free here other = cc
not_nested ((j, o) ∷ d) path key id owner free here other =
    ground (arith, eq_iff j key, eq_iff o id, not_nested d path key id owner)

pub mem_text-ne :
    (xs : List Text) (a b : Text) → mem_text a xs ≡ true → mem_text b xs ≡ false → a ≢ b
mem_text-ne xs a b h k e = cc (subst (λ x. mem_text x xs ≡ true) e h)

mem_text-cons : (xs : List Text) (a : Text) → mem_text a (a ∷ xs) ≡ true
unfolding mem_text any
mem_text-cons xs a = rw eq_refl

mem_text-skip : (xs : List Text) (a b : Text) → mem_text a xs ≡ true → mem_text a (b ∷ xs) ≡ true
unfolding mem_text any
mem_text-skip xs a b h = ground arith

module _ (h : Host) (root : Text) where
  -- What a change takes over from its entry.
  pub record For (p : ProjectEntry) (c : ImportChange) : Type 0 where
    pub identity : c.identity ≡ p.identity
    pub alias : c.alias ≡ p.alias
    pub desired_path : c.desired_path ≡ p.desired_path

  pub plan_entry-For : (l : Ledger) (p : ProjectEntry) → For p (plan_entry h root l p).0
  unfolding plan_entry plan_fresh plan_placed refuse new_change known_change known_conflict
  plan_entry-For l p = ground arith

  -- An entry whose change is accepted had all that it asks for free, and takes it.
  pub record Taken (l : Ledger) (p : ProjectEntry) (after : Ledger) : Type 0 where
    pub fresh : mem_text p.identity l.seen_identities ≡ false
    pub inside :
        path_within_root h
          (canonical_path_for_comparison h root)
          (desired_compare_path h root p.desired_path)
        ≡ true
    pub alias_free : other_owner l.alias_owner p.alias p.identity ≡ none
    pub path_free :
        other_owner l.seen_paths (desired_compare_path h root p.desired_path) p.identity ≡ none
    pub not_nested :
        nested_desired_path_conflict l.seen_paths
          (desired_compare_path h root p.desired_path)
          p.identity
        ≡ none
    pub taken : after ≡ take_alias h (see_path h root (see_identity h l p) p) p

  plan_placed-after :
      (l : Ledger) (p : ProjectEntry)
      → is_conflict (plan_placed h root l p).0.action ≡ false
      → (plan_placed h root l p).1 ≡ take_alias h l p
  unfolding plan_placed refuse
  plan_placed-after l p a = ground arith

  pub plan_entry-Taken :
      (l : Ledger) (p : ProjectEntry)
      → is_conflict (plan_entry h root l p).0.action ≡ false
      → Taken l p (plan_entry h root l p).1
  unfolding plan_entry plan_fresh alias_refusal path_refusal refuse see_identity
  plan_entry-Taken l p a =
      ground (arith, plan_placed-after (see_path h root (see_identity h l p) p) p)

  -- What a change holds is not given away by a later entry.
  plan_placed-owners :
      (l : Ledger) (p : ProjectEntry)
      → ((plan_placed h root l p).1 ≡ l) ⊎ ((plan_placed h root l p).1 ≡ take_alias h l p)
  unfolding plan_placed
  plan_placed-owners l p = ground arith

  Holds-see_identity :
      (c : ImportChange) (l : Ledger) (p : ProjectEntry)
      → Holds h root c l
      → Holds h root c (see_identity h l p)
  unfolding see_identity
  Holds-see_identity c l p k = record {
    identity = mem_text-skip l.seen_identities c.identity p.identity k.identity;
    alias = k.alias;
    path = k.path;
  }

  Holds-see_path :
      (c : ImportChange) (l : Ledger) (p : ProjectEntry)
      → other_owner l.seen_paths (desired_compare_path h root p.desired_path) p.identity ≡ none
      → Holds h root c l
      → Holds h root c (see_path h root l p)
  unfolding see_path
  Holds-see_path c l p free k = record {
    identity = k.identity;
    alias = k.alias;
    path =
        lookup-insert_owned l.seen_paths (desired_compare_path h root p.desired_path)
          (desired_compare_path h root c.desired_path) p.identity c.identity free k.path;
  }

  Holds-take_alias :
      (c : ImportChange) (l : Ledger) (p : ProjectEntry)
      → other_owner l.alias_owner p.alias p.identity ≡ none
      → Holds h root c l
      → Holds h root c (take_alias h l p)
  unfolding take_alias
  Holds-take_alias c l p free k = record {
    identity = k.identity;
    alias = lookup-insert_owned l.alias_owner p.alias c.alias p.identity c.identity free k.alias;
    path = k.path;
  }

  Holds-plan_placed :
      (c : ImportChange) (l : Ledger) (p : ProjectEntry)
      → other_owner l.alias_owner p.alias p.identity ≡ none
      → Holds h root c l
      → Holds h root c (plan_placed h root l p).1
  Holds-plan_placed c l p free k = elim (plan_placed-owners l p) [
    | inl same ↦ rw same k
    | inr taken ↦ rw taken (Holds-take_alias c l p free k)
  ]

  alias_refusal-free :
      (l : Ledger) (p : ProjectEntry)
      → alias_refusal h l p ≡ none
      → other_owner l.alias_owner p.alias p.identity ≡ none
  unfolding alias_refusal
  alias_refusal-free l p e = ground arith

  path_refusal-free :
      (l : Ledger) (p : ProjectEntry)
      → path_refusal h root l p ≡ none
      → other_owner l.seen_paths (desired_compare_path h root p.desired_path) p.identity ≡ none
  unfolding path_refusal
  path_refusal-free l p e = ground arith

  Holds-plan_fresh :
      (c : ImportChange) (l : Ledger) (p : ProjectEntry)
      → Holds h root c l
      → Holds h root c (plan_fresh h root l p).1
  unfolding plan_fresh
  Holds-plan_fresh c l p k =
      let within =
        path_within_root h (canonical_path_for_comparison h root)
          (desired_compare_path h root p.desired_path) in
      elim (Bool-cases within) [
        | inr outside ↦ rw (outside, plan_fresh) k
        | inl inside ↦ elim (Option-cases (alias_refusal h l p)) [
          | inr (r, taken) ↦ rw (inside, taken, plan_fresh) k
          | inl a ↦ elim (Option-cases (path_refusal h root l p)) [
            | inr (r, taken) ↦ rw (inside, a, taken, plan_fresh) k
            | inl b ↦
                rw (inside, a, b, plan_fresh)
                  (Holds-plan_placed c (see_path h root l p) p
                    (unfold see_path in alias_refusal-free l p a)
                    (Holds-see_path c l p (path_refusal-free l p b) k))
          ]
        ]
      ]

  pub Holds-plan_entry :
      (c : ImportChange) (l : Ledger) (p : ProjectEntry)
      → Holds h root c l
      → Holds h root c (plan_entry h root l p).1
  unfolding plan_entry
  Holds-plan_entry c l p k = elim (Bool-cases (mem_text p.identity l.seen_identities)) [
    | inl twice ↦ rw (twice, plan_entry) k
    | inr fresh ↦
        rw (fresh, plan_entry)
          (Holds-plan_fresh c (see_identity h l p) p (Holds-see_identity c l p k))
  ]

  pub Holds-Taken :
      (l after : Ledger) (p : ProjectEntry) (c : ImportChange)
      → For p c
      → Taken l p after
      → Holds h root c after
  unfolding take_alias see_path see_identity
  Holds-Taken l after p c f t =
      rw (t.taken, f.identity, f.alias, f.desired_path)
        (record {
          identity = mem_text-cons l.seen_identities p.identity;
          alias = lookup-insert_self p.alias p.identity l.alias_owner;
          path = lookup-insert_self _ p.identity l.seen_paths;
        })

-- ===== src/HydrationExecutor/Preparing.antt =====
-- The preparations of `clone` are lawful.
use codemesh.Base.{
  ◌≡◌, refl, Text, Bool, true, false, not, List, [], ◌∷◌, ◌⊎◌, inl, inr, dir, if◌then◌else◌,
}
use codemesh.Host.{Answer-cases, directory, regular, symlink, irregular}
use codemesh.Disk.{Disk, done, ◌>>=◌}
use codemesh.State.{Project}
use codemesh.Placeholder.{Json, owned_by}
use codemesh.HydrationPlanner.Actions.{State}
use codemesh.HydrationExecutor.Stages.{
  Prepared, is_placeholder, at_root, within_root, make_temp, prepare_placeholder, prepare_empty,
  prepare_absent, prepare,
}
use codemesh.HydrationExecutor.Places.{no_parent}
use codemesh.HydrationExecutor.Trace.{Claim, mine, inside, Has, here, later, Lawful, absent}
use codemesh.HydrationExecutor.Tracing.{
  nothing, knows, knows_none, knows-refl, knows-later, knows-trans, if-Lawful, unless-Lawful,
  done-Lawful, fail-Lawful, look-Lawful, >>=-Lawful, failing-Lawful,
}
use codemesh.HydrationExecutor.Calls.{
  within_root-Lawful, make_temp-Lawful, owned_by_allowing-Lawful, parents-Lawful,
}

-- What is known once a clone is prepared.
abbrev pub ready : Project → Prepared → List Claim
ready p prepared = mine prepared.clone_path ∷ inside prepared.clone_path ∷ inside p.local_path ∷ []

near :
    (at : Bool) (path : Text)
    → ((if at then path else dir path) ≡ path) ⊎ ((if at then path else dir path) ≡ dir path)
near true path = inl refl
near false path = inr refl

module _ {W : Type 0} {disk : Disk W} {j : Json} {root : Text} {start : W} where
  at_root-Lawful :
      {needs : List Claim} (path : Text)
      → Lawful disk j root start needs (at_root disk j root path) nothing
  unfolding at_root
  at_root-Lawful path = look-Lawful _

  -- The steps that both kinds of directory share.
  prepare_inside-Lawful :
      {needs : List Claim} (p : Project) (flags : Bool → Text → Prepared)
      → ((at : Bool) (temp : Text) → (flags at temp).clone_path ≡ temp)
      → Lawful disk j root start needs
          (within_root disk j root p.local_path >>= λ _. at_root disk j root p.local_path >>= λ at.
            make_temp disk j root (if at then p.local_path else dir p.local_path) p.local_path
            >>= λ temp. done (flags at temp))
          (ready p)
  prepare_inside-Lawful p flags same =
      >>=-Lawful (λ _. inside p.local_path ∷ []) (within_root-Lawful p.local_path)
        (λ _. >>=-Lawful nothing (at_root-Lawful p.local_path) (λ at.
          >>=-Lawful (λ temp. mine temp ∷ inside temp ∷ [])
            (make_temp-Lawful _ p.local_path (here refl) (near at p.local_path))
            (λ temp. done-Lawful (flags at temp) (
              rw (same at temp) (
                knows (here refl)
                  (knows (later (here refl)) (knows (later (later (here refl))) knows_none)))))))

  prepare_empty-Lawful :
      {needs : List Claim} (p : Project)
      → Lawful disk j root start needs (prepare_empty disk j root p) (ready p)
  unfolding prepare_empty
  prepare_empty-Lawful p =
      >>=-Lawful nothing (look-Lawful _) (λ empty.
        if-Lawful (not empty) (fail-Lawful _) (prepare_inside-Lawful p _ (λ at temp. refl)))

  prepare_placeholder-Lawful :
      {needs : List Claim} (p : Project)
      → Lawful disk j root start needs (prepare_placeholder disk j root p) (ready p)
  unfolding prepare_placeholder owned_by
  prepare_placeholder-Lawful p =
      >>=-Lawful (λ untouched. if untouched then mine p.local_path ∷ [] else [])
        (owned_by_allowing-Lawful _ p.local_path p.alias p.normalized_remote [])
        (λ untouched.
          unless-Lawful untouched (mine p.local_path ∷ [])
            (prepare_inside-Lawful p _ (λ at temp. refl)) (fail-Lawful _))

  prepare_absent-Lawful :
      {needs : List Claim} (p : Project)
      → Has (mine p.local_path) needs
      → Lawful disk j root start needs (prepare_absent disk j root p) (ready p)
  unfolding prepare_absent
  prepare_absent-Lawful p own =
      >>=-Lawful (λ _. inside p.local_path ∷ []) (within_root-Lawful p.local_path)
        (λ _.
          >>=-Lawful nothing (failing-Lawful no_parent (parents-Lawful p.local_path (here refl)))
            (λ _.
              done-Lawful _ (knows (later own) (knows (here refl) (knows (here refl) knows_none)))))

  pub prepare-Lawful :
      {needs : List Claim} (state : State) (p : Project)
      → Lawful disk j root start needs (prepare disk j root state p) (ready p)
  unfolding prepare
  prepare-Lawful state p = record {
    runs = λ cs w k t. elim (Answer-cases ((disk.host w).stat p.local_path)) [
      | inl (directory, e) ↦
          rw (e, prepare)
            ((if-Lawful (is_placeholder state) (prepare_placeholder-Lawful p)
                (prepare_empty-Lawful p)).runs
              cs w k t)
      | inl (regular, e) ↦ rw (e, prepare) ((fail-Lawful _).runs cs w k t)
      | inl (symlink, e) ↦ rw (e, prepare) ((fail-Lawful _).runs cs w k t)
      | inl (irregular, e) ↦ rw (e, prepare) ((fail-Lawful _).runs cs w k t)
      | inr (inl e) ↦
          let known = prepare_absent-Lawful p (here refl) in
          let after = known.runs (mine p.local_path ∷ cs) w knows-refl (absent t e) in
          rw (e, prepare)
            (record {
              claims = after.claims;
              extends = knows-trans knows-later after.extends;
              trace = after.trace;
              post = after.post;
            })
      | inr (inr (m, e)) ↦ rw (e, prepare) ((fail-Lawful _).runs cs w k t)
    ];
  }

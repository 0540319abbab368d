-- ===== src/HydrationExecutor/Calls.antt =====
-- Each call of the executor is lawful where what it needs is known.
use codemesh.Base.{
  ◌≡◌, refl, sym, ok_injective, Text, true, false, List, [], ◌∷◌, ◌⊎◌, inl, inr, join, mem_text,
  dir, if◌then◌else◌, Result-cases, map_err,
}
use codemesh.Disk.{Disk, Io, look}
use codemesh.CloneStrategy.{Selection}
use codemesh.CloneStrategy.Cloning.{Request, clone_args}
use codemesh.Placeholder.{Json, PlaceholderError, owned_by_allowing, sentinel_files}
use codemesh.HydrationExecutor.Stages.{within_root, make_temp}
use codemesh.HydrationExecutor.Places.{ExecuteError, ensure_real_destination_within_root, no_temp}
use codemesh.HydrationExecutor.Trace.{
  Claim, mine, inside, Has, here, later, Trace, Extends, Lawful, owned, within, made, not_made,
  parents, removed, discarded, sentinel_removed, entry_moved, moved, ran, cloned,
}
use codemesh.HydrationExecutor.Tracing.{
  nothing, knows, knows_none, knows-refl, knows-later, done-Lawful, >>=-Lawful, failing-Lawful,
  or_discard-Lawful,
}

module _ {W : Type 0} {disk : Disk W} {j : Json} {root : Text} {start : W} where
  pub within_root-Lawful :
      {needs : List Claim} (path : Text)
      → Lawful disk j root start needs (within_root disk j root path) (λ a. inside path ∷ [])
  unfolding within_root look
  within_root-Lawful path = record {
    runs = λ cs w k t.
        elim (Result-cases (ensure_real_destination_within_root (disk.host w) root path)) [
          | inl (_, e) ↦ record {
            claims = inside path ∷ cs;
            extends = knows-later;
            trace = within t e;
            post = λ a h. knows (here refl) knows_none;
          }
          | inr (x, e) ↦ record {
            claims = cs;
            extends = knows-refl;
            trace = t;
            post = λ a h. cc (e, h);
          }
        ];
  }

  pub mkdir_temp-Lawful :
      {needs : List Claim} (path parent pattern : Text)
      → Has (inside path) needs
      → (parent ≡ path) ⊎ (parent ≡ dir path)
      → Lawful disk j root start needs (disk.mkdir_temp parent pattern) (λ temp. mine temp ∷ [])
  mkdir_temp-Lawful path parent pattern checked near = record {
    runs = λ cs w k t. elim (Result-cases (disk.mkdir_temp parent pattern w).0) [
      | inl (temp, e) ↦ record {
        claims = mine temp ∷ cs;
        extends = knows-later;
        trace = made path parent pattern t (k.keeps (inside path) checked) near e;
        post = λ a h. knows (here cc) knows_none;
      }
      | inr (x, e) ↦ record {
        claims = cs;
        extends = knows-refl;
        trace = not_made path parent pattern x t (k.keeps (inside path) checked) near e;
        post = λ a h. cc (e, h);
      }
    ];
  }

  pub make_temp-Lawful :
      {needs : List Claim} (parent path : Text)
      → Has (inside path) needs
      → (parent ≡ path) ⊎ (parent ≡ dir path)
      → Lawful disk j root start needs
          (make_temp disk j root parent path)
          (λ temp. mine temp ∷ inside temp ∷ [])
  unfolding make_temp
  make_temp-Lawful parent path checked near =
      >>=-Lawful (λ temp. mine temp ∷ [])
        (failing-Lawful no_temp (mkdir_temp-Lawful path parent _ checked near))
        (λ temp.
          >>=-Lawful (λ a. inside temp ∷ [])
            (or_discard-Lawful temp (here refl) (within_root-Lawful temp))
            (λ a. done-Lawful temp (knows (later (here refl)) (knows (here refl) knows_none))))

  -- A placeholder that is told to be untouched is the run's own from then on.
  pub owned_by_allowing-Lawful :
      {needs : List Claim} (e : PlaceholderError → ExecuteError)
      (path alias identity allowed : Text)
      → Lawful disk j root start needs
          (look disk (λ h. map_err e (owned_by_allowing h j path alias identity allowed)))
          (λ untouched. if untouched then mine path ∷ [] else [])
  unfolding look
  owned_by_allowing-Lawful e path alias identity allowed = record {
    runs = λ cs w k t.
        elim (Result-cases (owned_by_allowing (disk.host w) j path alias identity allowed)) [
          | inl (true, told) ↦ rw told (record {
            claims = mine path ∷ cs;
            extends = knows-later;
            trace = owned alias identity allowed t told;
            post = λ a h. rw (sym (ok_injective h)) (knows (here refl) knows_none);
          })
          | inl (false, told) ↦ rw told (record {
            claims = cs;
            extends = knows-refl;
            trace = t;
            post = λ a h. rw (sym (ok_injective h)) knows_none;
          })
          | inr (x, told) ↦
              rw told (record { claims = cs; extends = knows-refl; trace = t; post = λ a h. cc })
        ];
  }

  -- A call that only takes a step of a trace.
  step-Lawful :
      {E A : Type 0} {needs : List Claim} (call : Io W E A)
      → ((cs : List Claim) (w : W)
          → Extends needs cs
          → Trace disk j root start cs w
          → Trace disk j root start cs (call w).1)
      → Lawful disk j root start needs call nothing
  step-Lawful call step = record {
    runs = λ cs w k t. record {
      claims = cs;
      extends = knows-refl;
      trace = step cs w k t;
      post = λ a h. knows_none;
    };
  }

  pub parents-Lawful :
      {needs : List Claim} (path : Text)
      → Has (inside path) needs
      → Lawful disk j root start needs (disk.mkdir_all (dir path)) nothing
  parents-Lawful path checked =
      step-Lawful _ (λ cs w k t. parents path t (k.keeps (inside path) checked))

  pub remove-Lawful :
      {needs : List Claim} (path : Text)
      → Has (mine path) needs
      → Lawful disk j root start needs (disk.remove path) nothing
  remove-Lawful path own = step-Lawful _ (λ cs w k t. removed t (k.keeps (mine path) own))

  pub remove_all-Lawful :
      {needs : List Claim} (path : Text)
      → Has (mine path) needs
      → Lawful disk j root start needs (disk.remove_all path) nothing
  remove_all-Lawful path own = step-Lawful _ (λ cs w k t. discarded t (k.keeps (mine path) own))

  pub remove_sentinel-Lawful :
      {needs : List Claim} (path name : Text)
      → Has (mine path) needs
      → mem_text name sentinel_files ≡ true
      → Lawful disk j root start needs (disk.remove (join (path ∷ name ∷ []))) nothing
  remove_sentinel-Lawful path name own listed =
      step-Lawful _ (λ cs w k t. sentinel_removed path name t (k.keeps (mine path) own) listed)

  pub rename_entry-Lawful :
      {needs : List Claim} (from to name : Text)
      → Has (mine from) needs
      → Has (inside to) needs
      → Lawful disk j root start needs
          (disk.rename (join (from ∷ name ∷ [])) (join (to ∷ name ∷ [])))
          nothing
  rename_entry-Lawful from to name own checked = step-Lawful _ (λ cs w k t.
      entry_moved from to name t (k.keeps (mine from) own) (k.keeps (inside to) checked))

  pub rename-Lawful :
      {needs : List Claim} (from to : Text)
      → Has (mine from) needs
      → Has (inside to) needs
      → Lawful disk j root start needs (disk.rename from to) nothing
  rename-Lawful from to own checked =
      step-Lawful _ (λ cs w k t. moved t (k.keeps (mine from) own) (k.keeps (inside to) checked))

  pub git-Lawful :
      {needs : List Claim} (path : Text) (args : List Text)
      → Has (mine path) needs
      → Lawful disk j root start needs (disk.git path args) nothing
  git-Lawful path args own = step-Lawful _ (λ cs w k t. ran t (k.keeps (mine path) own))

  pub git_clone-Lawful :
      {needs : List Claim} (request : Request) (s : Selection)
      → Has (mine request.destination) needs
      → Has (inside request.destination) needs
      → Lawful disk j root start needs (disk.git_detail [] (clone_args request s)) nothing
  git_clone-Lawful request s own checked = step-Lawful _ (λ cs w k t.
      cloned request s t (k.keeps (mine request.destination) own)
        (k.keeps (inside request.destination) checked))

-- ===== src/HydrationExecutor/Trace.antt =====
-- What a run of the executor may do to a disk: each call that changes something, with what the run
-- must know about its paths before.
use codemesh.Base.{◌≡◌, Text, txt, true, List, [], ◌∷◌, ◌⊎◌, join, dir, mem_text, Result, ok, err}
use codemesh.Host.{not_exist}
use codemesh.Disk.{Disk, Io}
use codemesh.CloneStrategy.{Selection}
use codemesh.CloneStrategy.Cloning.{Request, clone_args}
use codemesh.Placeholder.{Json, owned_by_allowing, sentinel_files}
use codemesh.HydrationExecutor.Places.{ensure_real_destination_within_root}

-- What a run knows: a directory is its own, which is one that it made, one that was absent, or an
-- untouched placeholder; and a path was seen not to lead out of the workspace root.
pub data Claim : Type 0 where
  mine inside : Text → Claim

pub data Has (c : Claim) : List Claim → Type 0 where
  here : {d : Claim} {cs : List Claim} → c ≡ d → Has c (d ∷ cs)
  later : {d : Claim} {cs : List Claim} → Has c cs → Has c (d ∷ cs)

pub record Extends (cs ds : List Claim) : Type 0 where
  pub keeps : (c : Claim) → Has c cs → Has c ds

-- The questions that are put to a checkout that is there.
pub data IsQuestion : List Text → Type 0 where
  is_inside : IsQuestion (txt "rev-parse" ∷ txt "--is-inside-work-tree" ∷ [])
  top_level : IsQuestion (txt "rev-parse" ∷ txt "--show-toplevel" ∷ [])
  origin : IsQuestion (txt "remote" ∷ txt "get-url" ∷ txt "origin" ∷ [])

module _ {W : Type 0} (disk : Disk W) (j : Json) (root : Text) (start : W) where
  pub data Trace : List Claim → W → Type 0 where
    begins : Trace [] start
    -- What is learnt by looking.
    absent :
        {cs : List Claim} {w : W} {path : Text}
        → Trace cs w
        → (disk.host w).stat path ≡ not_exist
        → Trace (mine path ∷ cs) w
    owned :
        {cs : List Claim} {w : W} {path : Text} (alias identity allowed : Text)
        → Trace cs w
        → owned_by_allowing (disk.host w) j path alias identity allowed ≡ ok true
        → Trace (mine path ∷ cs) w
    within :
        {cs : List Claim} {w : W} {path : Text}
        → Trace cs w
        → ensure_real_destination_within_root (disk.host w) root path ≡ ok tt
        → Trace (inside path ∷ cs) w
    -- A temporary directory at a path that was checked, or beside it.
    made :
        {cs : List Claim} {w : W} (path parent pattern : Text) {temp : Text}
        → Trace cs w
        → Has (inside path) cs
        → (parent ≡ path) ⊎ (parent ≡ dir path)
        → (disk.mkdir_temp parent pattern w).0 ≡ ok temp
        → Trace (mine temp ∷ cs) (disk.mkdir_temp parent pattern w).1
    not_made :
        {cs : List Claim} {w : W} (path parent pattern message : Text)
        → Trace cs w
        → Has (inside path) cs
        → (parent ≡ path) ⊎ (parent ≡ dir path)
        → (disk.mkdir_temp parent pattern w).0 ≡ err message
        → Trace cs (disk.mkdir_temp parent pattern w).1
    parents :
        {cs : List Claim} {w : W} (path : Text)
        → Trace cs w
        → Has (inside path) cs
        → Trace cs (disk.mkdir_all (dir path) w).1
    -- git
    asked :
        {cs : List Claim} {w : W} {path : Text} {args : List Text}
        → Trace cs w
        → IsQuestion args
        → Trace cs (disk.git path args w).1
    cloned :
        {cs : List Claim} {w : W} (request : Request) (s : Selection)
        → Trace cs w
        → Has (mine request.destination) cs
        → Has (inside request.destination) cs
        → Trace cs (disk.git_detail [] (clone_args request s) w).1
    ran :
        {cs : List Claim} {w : W} {path : Text} {args : List Text}
        → Trace cs w
        → Has (mine path) cs
        → Trace cs (disk.git path args w).1
    -- What is removed or moved away is the run's own; where it is moved to was checked.
    removed :
        {cs : List Claim} {w : W} {path : Text}
        → Trace cs w
        → Has (mine path) cs
        → Trace cs (disk.remove path w).1
    sentinel_removed :
        {cs : List Claim} {w : W} (path name : Text)
        → Trace cs w
        → Has (mine path) cs
        → mem_text name sentinel_files ≡ true
        → Trace cs (disk.remove (join (path ∷ name ∷ [])) w).1
    discarded :
        {cs : List Claim} {w : W} {path : Text}
        → Trace cs w
        → Has (mine path) cs
        → Trace cs (disk.remove_all path w).1
    entry_moved :
        {cs : List Claim} {w : W} (from to name : Text)
        → Trace cs w
        → Has (mine from) cs
        → Has (inside to) cs
        → Trace cs (disk.rename (join (from ∷ name ∷ [])) (join (to ∷ name ∷ [])) w).1
    moved :
        {cs : List Claim} {w : W} {from to : Text}
        → Trace cs w
        → Has (mine from) cs
        → Has (inside to) cs
        → Trace cs (disk.rename from to w).1

  -- What a call that began with these claims leaves behind: more claims, and those that its value
  -- promises where it succeeds.
  pub record Outcome {E A : Type 0} (gains : A → List Claim) (cs : List Claim)
      (after : Result E A × W) : Type 0 where
    pub claims : List Claim
    pub extends : Extends cs claims
    pub trace : Trace claims after.1
    pub post : (a : A) → after.0 ≡ ok a → Extends (gains a) claims

  -- A call that does only what a run may do, wherever it knows what it needs.
  pub record Lawful {E A : Type 0} (needs : List Claim) (call : Io W E A) (gains : A → List Claim)
      : Type 0 where
    pub runs : (cs : List Claim) (w : W) → Extends needs cs → Trace cs w → Outcome gains cs (call w)

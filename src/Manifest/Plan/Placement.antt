-- ===== src/Manifest/Plan/Placement.antt =====
-- Where an import places the projects that it adds.
use mathlib.Core.Path.{subst}
use codemesh.Base.{
  ◌≡◌, refl, ◌∙◌, Text, true, false, some, List, [], ◌∷◌, ◌++◌, is_abs, climbs, clean, join,
  elements, from_elements, Result, ok, err, map_err, >>=-ok, arith, All, Option-cases, Bool-cases,
  inl, inr, join_by, trim_space,
}
use codemesh.Base.Containment.{join-elements}
use codemesh.Host.{Host}
use codemesh.GitOps.{abs}
use codemesh.State.{Project}
use codemesh.Manifest.Entries.{
  Entry, ProjectEntry, normalize_entry, validate_entry, validate_desired_path,
}
use codemesh.Manifest.Entries.Hints.{EntryError}
use codemesh.Manifest.Plan.{
  invalid_entry, plan_entry, plan_fresh, plan_placed, plan_entries, clean_workspace_root,
  normalize_entries, plan_import,
}
use codemesh.Manifest.Plan.Registry.{Ledger}
use codemesh.Manifest.Plan.Change.{
  ImportChange, add, refuse, new_change, known_change, known_conflict, desired_local_path,
}
use codemesh.Manifest.Plan.Compatible.{plan_import-parts}

-- A desired path that names a place below the workspace root.
pub record IsBelow (path : Text) : Type 0 where
  pub relative : is_abs path ≡ false
  pub stays : climbs (clean path) ≡ false

validate_desired_path-IsBelow :
    (path : Text) (u : Unit {0}) → validate_desired_path path ≡ ok u → IsBelow path
unfolding validate_desired_path
validate_desired_path-IsBelow path u e = ground arith

pub validate_entry-IsBelow :
    (h : Host) (e : Entry) (u : Unit {0})
    → validate_entry h e ≡ ok u
    → IsBelow e.project.desired_path
unfolding validate_entry
validate_entry-IsBelow h e u valid =
    let path = e.project.desired_path in
    let checked : validate_desired_path path ≡ ok tt = ground arith in
    validate_desired_path-IsBelow path tt checked

map_err-ok :
    (r : Result EntryError (Unit {0})) (u : Unit {0}) → map_err invalid_entry r ≡ ok u → r ≡ ok tt
map_err-ok (ok tt) u e = refl
map_err-ok (err x) u e = cc

-- The entries that a plan goes by are valid.
normalize_entries-IsBelow :
    (h : Host) (entries : List Entry) {es : List Entry}
    → normalize_entries h entries ≡ ok es
    → All (λ e. IsBelow e.project.desired_path) es
unfolding normalize_entries
normalize_entries-IsBelow h [] {es} e =
    let none_left : [] ≡ es = ground arith in
    subst (All (λ e. IsBelow e.project.desired_path)) none_left tt
normalize_entries-IsBelow h (raw ∷ rest) {es} e =
    let entry = normalize_entry h raw in
    let (u, valid, e') = >>=-ok (map_err invalid_entry (validate_entry h entry)) _ e in
    let (others, listed, done) = >>=-ok (normalize_entries h rest) _ e' in
    let made : entry ∷ others ≡ es = ground arith in
    subst (All (λ e. IsBelow e.project.desired_path)) made (
      validate_entry-IsBelow h entry tt (map_err-ok _ u valid),
      normalize_entries-IsBelow h rest listed,
    )

-- `filepath.Abs` gives an absolute path, if the working directory is one.
clean-is_abs : (path : Text) → is_abs path ≡ true → is_abs (clean path) ≡ true
unfolding clean from_elements is_abs
clean-is_abs [] a = cc
clean-is_abs (c ∷ path) a = rw a

join-is_abs : (wd path : Text) → is_abs wd ≡ true → is_abs (join (wd ∷ path ∷ [])) ≡ true
unfolding join
join-is_abs [] path a = unfold is_abs in cc
join-is_abs (c ∷ wd) path a =
    clean-is_abs (join_by b'/' ((c ∷ wd) ∷ path ∷ [])) (unfold is_abs join_by in a)

abs-is_abs :
    (h : Host) (path : Text) {a : Text}
    → ((wd : Text) → h.working_dir ≡ some wd → is_abs wd ≡ true)
    → abs h path ≡ some a
    → is_abs a ≡ true
unfolding abs
abs-is_abs h path {a} absolute e = elim (Bool-cases (is_abs path)) [
  | inl rooted ↦
      let same : clean path ≡ a = ground arith in
      subst (λ x. is_abs x ≡ true) same (clean-is_abs path rooted)
  | inr relative ↦ elim (Option-cases h.working_dir) [
    | inl unknown ↦ ground arith
    | inr (wd, known) ↦
        let same : join (wd ∷ path ∷ []) ≡ a = ground arith in
        subst (λ x. is_abs x ≡ true) same (join-is_abs wd path (absolute wd known))
  ]
]

pub clean_workspace_root-is_abs :
    (h : Host) (workspace_root : Text) {root : Text}
    → ((wd : Text) → h.working_dir ≡ some wd → is_abs wd ≡ true)
    → clean_workspace_root h workspace_root ≡ ok root
    → is_abs root ≡ true
unfolding clean_workspace_root
clean_workspace_root-is_abs h workspace_root {root} absolute e =
    elim (Option-cases (abs h (trim_space workspace_root))) [
      | inl unknown ↦ ground arith
      | inr (a, known) ↦
          let same : clean a ≡ root = ground arith in
          subst (λ x. is_abs x ≡ true) same
            (clean-is_abs a (abs-is_abs h (trim_space workspace_root) absolute known))
    ]

module _ (h : Host) (root : Text) where
  -- The place of an added project, element by element.
  abbrev pub Placed : ImportChange → Type 0
  Placed c =
      c.action ≡ add
      → (c.local_path ≡ from_elements true (elements root ++ elements c.desired_path))
        × (c.canonical_path ≡ from_elements true (elements root ++ elements c.desired_path))

  known_change-not_add :
      (p : ProjectEntry) (project : Project) → (known_change h root p project).action ≡ add → ⊥
  unfolding known_change
  known_change-not_add p project e = ground arith

  plan_entry-local_path :
      (l : Ledger) (p : ProjectEntry)
      → (plan_entry h root l p).0.action ≡ add
      → ((plan_entry h root l p).0.local_path ≡ desired_local_path h root p.desired_path)
        × ((plan_entry h root l p).0.canonical_path ≡ desired_local_path h root p.desired_path)
        × ((plan_entry h root l p).0.desired_path ≡ p.desired_path)
  unfolding plan_entry plan_fresh plan_placed refuse new_change known_change known_conflict
  plan_entry-local_path l p e = ground arith

  desired_local_path-below :
      (path : Text)
      → is_abs root ≡ true
      → IsBelow path
      → desired_local_path h root path ≡ from_elements true (elements root ++ elements path)
  unfolding desired_local_path
  desired_local_path-below path rooted b = join-elements root path rooted b.relative b.stays

  plan_entries-Placed :
      (l : Ledger) (es : List Entry)
      → is_abs root ≡ true
      → All (λ e. IsBelow e.project.desired_path) es
      → All Placed (plan_entries h root l es)
  unfolding plan_entries
  plan_entries-Placed l [] rooted b = tt
  plan_entries-Placed l (e ∷ es) rooted b = (
    (λ adds.
        let (local, canonical, path) = plan_entry-local_path l e.project adds in
        let below = desired_local_path-below e.project.desired_path rooted b.0 in
        rw path (local ∙ below, canonical ∙ below)),
    plan_entries-Placed (plan_entry h root l e.project).1 es rooted b.1,
  )

-- On a machine whose working directory is absolute, a project that a plan adds is placed at the
-- path whose elements are those of the workspace root followed by those of its desired path; both
-- its local and its canonical path are that one.
pub plan_import-Placed :
    (h : Host) (entries : List Entry) (projects : List Project) (workspace_root root : Text)
    {changes : List ImportChange}
    → ((wd : Text) → h.working_dir ≡ some wd → is_abs wd ≡ true)
    → clean_workspace_root h workspace_root ≡ ok root
    → plan_import h entries projects workspace_root ≡ ok changes
    → All (Placed h root) changes
plan_import-Placed h entries projects workspace_root root {changes} absolute at_root planned =
    let (r, es, at_r, listed, made) = plan_import-parts h entries projects workspace_root planned in
    let same : r ≡ root = ground (arith, at_r) in
    let rooted = clean_workspace_root-is_abs h workspace_root absolute at_r in
    subst (λ x. All (Placed h x) changes) same
      (subst (All (Placed h r)) made
        (plan_entries-Placed h r _ es rooted (normalize_entries-IsBelow h entries listed)))

-- ===== src/Placeholder/Untouched.antt =====
-- internal/placeholder/placeholder.go: what `OwnedBy` makes sure of.
use codemesh.Base.{
  ◌≡◌, refl, Text, eq_iff, true, List, [], ◌∷◌, join, join_by, keep, sort, text_lt, arith, ok,
  >>=-ok, Option-cases, inl, inr,
}
use mathlib.Core.Path.{subst}
use codemesh.Host.{Host, Answer-cases, found}
use codemesh.Placeholder.{
  Json, PlaceholderError, unreadable_metadata, unreadable_note, unreadable_barrier, metadata_file,
  note_file, git_barrier, sentinel_files, expected_metadata, metadata_bytes, note_text,
  git_barrier_text, read_or, counted_names, only_sentinels, has_expected_barrier, has_expected_note,
  has_expected_files, is_untouched, owned_by_allowing, owned_by, is,
}

-- The directory holds the three files of a placeholder and nothing else, each with the bytes that
-- `Write` gave it. The names are compared as one text, with a zero byte between them.
pub record IsUntouched (h : Host) (j : Json) (path alias identity : Text) : Type 0 where
  pub names :
      (ns : List Text) × (h.read_dir path ≡ found ns)
      × (join_by 0 (sort text_lt ns) ≡ join_by 0 sentinel_files)
  pub metadata :
      h.read_file (join (path ∷ metadata_file ∷ []))
      ≡ found (metadata_bytes h j (expected_metadata path alias identity))
  pub note : h.read_file (join (path ∷ note_file ∷ [])) ≡ found (note_text alias)
  pub barrier : h.read_file (join (path ∷ git_barrier ∷ [])) ≡ found (git_barrier_text alias)

module _ (h : Host) (j : Json) (path alias identity : Text) where
  read_or-found :
      (e : Text → PlaceholderError) (file : Text) {bytes : Text}
      → read_or h j e file ≡ ok bytes
      → h.read_file file ≡ found bytes
  unfolding read_or
  read_or-found e file c = elim (Answer-cases (h.read_file file)) [
    | inl (bytes, at) ↦ ground arith
    | inr (inl at) ↦ ground arith
    | inr (inr (m, at)) ↦ ground arith
  ]

  counted_names-none : (names : List Text) → counted_names h j path [] names ≡ names
  unfolding counted_names keep
  counted_names-none [] = refl
  counted_names-none (n ∷ ns) = rw (counted_names-none ns) refl

  has_expected_barrier_sound :
      has_expected_barrier h j path alias ≡ ok true
      → h.read_file (join (path ∷ git_barrier ∷ [])) ≡ found (git_barrier_text alias)
  unfolding has_expected_barrier
  has_expected_barrier_sound c =
      let (bytes, read, same) =
        >>=-ok (read_or h j unreadable_barrier (join (path ∷ git_barrier ∷ []))) _ c in
      let at = read_or-found unreadable_barrier (join (path ∷ git_barrier ∷ [])) read in
      ground (arith, at, eq_iff bytes (git_barrier_text alias))

  has_expected_note_sound :
      has_expected_note h j path alias ≡ ok true
      → (h.read_file (join (path ∷ note_file ∷ [])) ≡ found (note_text alias))
        × (has_expected_barrier h j path alias ≡ ok true)
  unfolding has_expected_note
  has_expected_note_sound c =
      let (bytes, read, same) =
        >>=-ok (read_or h j unreadable_note (join (path ∷ note_file ∷ []))) _ c in
      let at = read_or-found unreadable_note (join (path ∷ note_file ∷ [])) read in
      (ground (arith, at, eq_iff bytes (note_text alias)), ground arith)

  has_expected_files_sound :
      has_expected_files h j path alias identity ≡ ok true
      → (h.read_file (join (path ∷ metadata_file ∷ []))
          ≡ found (metadata_bytes h j (expected_metadata path alias identity)))
        × (has_expected_note h j path alias ≡ ok true)
  unfolding has_expected_files
  has_expected_files_sound c =
      let wanted = metadata_bytes h j (expected_metadata path alias identity) in
      let (bytes, read, same) =
        >>=-ok (read_or h j unreadable_metadata (join (path ∷ metadata_file ∷ []))) _ c in
      let at = read_or-found unreadable_metadata (join (path ∷ metadata_file ∷ [])) read in
      (ground (arith, at, eq_iff bytes wanted), ground arith)

  is_untouched_sound :
      is_untouched h j path alias identity [] ≡ ok true → IsUntouched h j path alias identity
  unfolding is_untouched only_sentinels
  is_untouched_sound c = elim (Answer-cases (h.read_dir path)) [
    | inr (inl at) ↦ ground arith
    | inr (inr (m, at)) ↦ ground arith
    | inl (ns, at) ↦
        let listed = join_by 0 (sort text_lt (counted_names h j path [] ns)) in
        let expected : has_expected_files h j path alias identity ≡ ok true = ground arith in
        let same : listed ≡ join_by 0 sentinel_files =
          ground (arith, eq_iff listed (join_by 0 sentinel_files)) in
        let (metadata, rest) = has_expected_files_sound expected in
        let (note, last) = has_expected_note_sound rest in
        record {
          names = (
            ns,
            at,
            subst (λ x. join_by 0 (sort text_lt x) ≡ join_by 0 sentinel_files)
                (counted_names-none ns) same,
          );
          metadata = metadata;
          note = note;
          barrier = has_expected_barrier_sound last;
        }
  ]

-- A directory that is owned holds the three files of the placeholder of that project and nothing
-- else, and each of them has the bytes that were written.
pub owned_by-IsUntouched :
    (h : Host) (j : Json) (path alias identity : Text)
    → owned_by h j path alias identity ≡ ok true
    → IsUntouched h j path alias identity
unfolding owned_by owned_by_allowing
owned_by-IsUntouched h j path alias identity c =
    let (present, read, rest) = >>=-ok (is h j path) _ c in
    elim (Option-cases present) [
      | inl none_there ↦ ground arith
      | inr (m, there) ↦ is_untouched_sound h j path alias identity (ground arith)
    ]

-- ===== src/Host.antt =====
-- What the program asks of its machine: the file system as it stands while one command plans its
-- work, the working directory, and the parser of the package `net/url`. None of this is code of
-- the repository, so it is a parameter: the theorems hold whatever it answers.
use codemesh.Base.{ℕ, Bool, Text, Option, List, ◌≡◌, refl, ◌⊎◌, inl, inr}

-- A call that finds something, finds nothing (`os.ErrNotExist`), or fails otherwise.
pub data Answer {ℓ} (A : Type ℓ) : Type ℓ where
  found : A → Answer A
  not_exist : Answer A
  failed : Text → Answer A

-- `os.FileMode`, as far as the program looks at it.
pub data FileKind : Type 0 where
  directory regular symlink irregular : FileKind

-- `url.Userinfo` and `url.URL`
pub record UserInfo : Type 0 where
  pub username : Text
  pub password : Option Text

pub record Url : Type 0 where
  pub scheme : Text
  pub user : Option UserInfo
  pub host : Text
  pub path : Text
  pub raw_query : Text
  pub fragment : Text

pub record Host : Type 0 where
  -- `os.Lstat`, `os.Stat`, `filepath.EvalSymlinks`
  pub lstat : Text → Answer FileKind
  pub stat : Text → Answer FileKind
  pub eval_symlinks : Text → Answer Text
  -- The names that `os.ReadDir` lists, and the text of `os.ReadFile`.
  pub read_dir : Text → Answer (List Text)
  pub read_file : Text → Answer Text
  -- `os.Getwd`, which `filepath.Abs` calls
  pub working_dir : Option Text
  -- `url.Parse` and the methods `Hostname`, `EscapedPath` and `String`
  pub parse_url : Text → Option Url
  pub hostname : Url → Text
  pub escaped_path : Url → Text
  pub print_url : Url → Text
  -- `unicode.IsLetter`, `unicode.IsDigit`, and `strconv.Quote`, which the verb `%q` calls
  pub is_letter : ℕ → Bool
  pub is_digit : ℕ → Bool
  pub quote : Text → Text

pub Answer-cases {ℓ} :
    {A : Type ℓ} (a : Answer A)
    → ((x : A) × (a ≡ found x)) ⊎ ((a ≡ not_exist) ⊎ ((m : Text) × (a ≡ failed m)))
Answer-cases (found x) = inl (x, refl)
Answer-cases not_exist = inr (inl refl)
Answer-cases (failed m) = inr (inr (m, refl))

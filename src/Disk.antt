-- ===== src/Disk.antt =====
-- What the program asks of its machine where it changes the file system or runs git, and chains of
-- such calls. The packages os and os/exec and git itself are not code of the repository.
use codemesh.Base.{Text, List, Result, ok, err, Option, some, none, ◌≡◌, inl, inr, Result-cases}
use codemesh.Host.{Host}

-- The worlds are the states of the file system. What the calls that read would answer in a world is
-- a `Host`; a call that changes the file system gives its result and the world after it.
pub record Disk (W : Type 0) : Type 0 where
  pub host : W → Host
  -- `os.MkdirTemp` with a directory and a pattern, `os.MkdirAll`
  pub mkdir_temp : Text → Text → W → Result Text Text × W
  pub mkdir_all : Text → W → Result Text (Unit {0}) × W
  -- `os.Remove`, `os.RemoveAll`, `os.Rename`
  pub remove : Text → W → Result Text (Unit {0}) × W
  pub remove_all : Text → W → Result Text (Unit {0}) × W
  pub rename : Text → Text → W → Result Text (Unit {0}) × W
  -- git in a directory with its arguments: what `Client.Output` gives, and the standard error that
  -- `Client.OutputDetail` gives beside it
  pub git : Text → List Text → W → Result Text Text × W
  pub git_detail : Text → List Text → W → Result Text Text × W

-- A call: from a world to its result and the world after it.
abbrev pub Io : Type 0 → Type 0 → Type 0 → Type 0
Io W E A = W → Result E A × W

infixl 5 ◌>>=◌
unfoldable pub ◌>>=◌ : {W E A B : Type 0} → Io W E A → (A → Io W E B) → Io W E B
◌>>=◌ m f w = let (r, w') = m w in elim r [ ok a ↦ f a w' | err e ↦ (err e, w') ]

unfoldable pub done : {W E A : Type 0} → A → Io W E A
done a w = (ok a, w)

unfoldable pub fail : {W E A : Type 0} → E → Io W E A
fail e w = (err e, w)

-- A chain gives a value only if its first call does, and its rest in the world after that.
pub >>=-Io_ok :
    {W E A B : Type 0} (m : Io W E A) (f : A → Io W E B) (w : W) {b : B}
    → ((m >>= f) w).0 ≡ ok b
    → (a : A) × ((m w).0 ≡ ok a) × ((f a (m w).1).0 ≡ ok b)
unfolding ◌>>=◌
>>=-Io_ok m f w h = elim (Result-cases (m w).0) [
  | inl (a, e) ↦ (a, e, rw (e, ◌>>=◌) at h)
  | inr (x, e) ↦ cc (e, h)
]

-- The error of a call, as an error of the caller.
unfoldable pub failing : {W E F A : Type 0} → (E → F) → Io W E A → Io W F A
failing f m w = let (r, w') = m w in elim r [ ok a ↦ (ok a, w') | err e ↦ (err (f e), w') ]

-- A result that no call gave, and a call whose error is no error of the caller.
unfoldable pub accept : {W E A : Type 0} → Result E A → Io W E A
accept r w = (r, w)

unfoldable pub asking : {W E F A : Type 0} → Io W E A → Io W F (Option A)
asking m w = let (r, w') = m w in elim r [ ok a ↦ (ok (some a), w') | err e ↦ (ok none, w') ]

module _ {W : Type 0} (disk : Disk W) where
  -- What the calls that read tell.
  unfoldable pub look : {E A : Type 0} → (Host → Result E A) → Io W E A
  look f w = (f (disk.host w), w)

  -- `_ = os.RemoveAll(path)` on the way out.
  unfoldable pub or_discard : {E A : Type 0} → Text → Io W E A → Io W E A
  or_discard path m w =
      let (r, w') = m w in
      elim r [ ok a ↦ (ok a, w') | err e ↦ (err e, (disk.remove_all path w').1) ]

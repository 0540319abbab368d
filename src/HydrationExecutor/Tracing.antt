-- ===== src/HydrationExecutor/Tracing.antt =====
-- Chains of calls are lawful if their parts are.
use codemesh.Base.{
  refl, sym, Option, some, none, Bool, true, false, not, if◌then◌else◌, ◌∙◌, ok_injective, List, [],
  ◌∷◌, ◌++◌, inl, inr, Text, Result, Result-cases,
}
use mathlib.Core.Path.{subst}
use codemesh.Host.{Host}
use codemesh.Disk.{Disk, Io, ◌>>=◌, done, fail, failing, accept, asking, look, or_discard}
use codemesh.Placeholder.{Json}
use codemesh.HydrationExecutor.Trace.{Claim, mine, Has, here, later, Extends, Lawful, discarded}

abbrev pub nothing : {A : Type 0} → A → List Claim
nothing a = []

-- Claims that are known one by one, and those of two lists.
pub knows_none : {ds : List Claim} → Extends [] ds
knows_none = record { keeps = λ c h. elim h [ ] }

pub knows : {d : Claim} {cs ds : List Claim} → Has d ds → Extends cs ds → Extends (d ∷ cs) ds
knows {ds = ds} known more = record {
  keeps = λ c h. elim h [ here e ↦ subst (λ x. Has x ds) (sym e) known | later i ↦ more.keeps c i ];
}

pub knows-refl : {cs : List Claim} → Extends cs cs
knows-refl = record { keeps = λ c h. h }

pub knows-trans : {cs ds es : List Claim} → Extends cs ds → Extends ds es → Extends cs es
knows-trans f g = record { keeps = λ c h. g.keeps c (f.keeps c h) }

pub knows-later : {c : Claim} {cs : List Claim} → Extends cs (c ∷ cs)
knows-later = record { keeps = λ c h. later h }

pub knows-append :
    {ys ds : List Claim} (xs : List Claim) → Extends xs ds → Extends ys ds → Extends (xs ++ ys) ds
knows-append [] f g = g
knows-append (x ∷ xs) f g =
    knows (f.keeps x (here refl)) (knows-append xs (knows-trans knows-later f) g)

module _ {W : Type 0} {disk : Disk W} {j : Json} {root : Text} {start : W}
    {needs : List Claim} where
  pub done-Lawful :
      {E A : Type 0} {gains : A → List Claim} (a : A)
      → Extends (gains a) needs
      → Lawful disk j root start {E = E} needs (done a) gains
  unfolding done
  done-Lawful {gains = gains} a known = record {
    runs = λ cs w k t. record {
      claims = cs;
      extends = knows-refl;
      trace = t;
      post = λ b e. subst (λ x. Extends (gains x) cs) (ok_injective e) (knows-trans known k);
    };
  }

  pub fail-Lawful :
      {E A : Type 0} {gains : A → List Claim} (e : E)
      → Lawful disk j root start needs (fail e) gains
  unfolding fail
  fail-Lawful e = record {
    runs = λ cs w k t. record { claims = cs; extends = knows-refl; trace = t; post = λ b h. cc };
  }

  pub look-Lawful :
      {E A : Type 0} (f : Host → Result E A) → Lawful disk j root start needs (look disk f) nothing
  unfolding look
  look-Lawful f = record {
    runs = λ cs w k t. record {
      claims = cs;
      extends = knows-refl;
      trace = t;
      post = λ b e. knows_none;
    };
  }

  pub >>=-Lawful :
      {E A B : Type 0} (gains : A → List Claim) {result : B → List Claim} {m : Io W E A}
      {f : A → Io W E B}
      → Lawful disk j root start needs m gains
      → ((a : A) → Lawful disk j root start (gains a ++ needs) (f a) result)
      → Lawful disk j root start needs (m >>= f) result
  unfolding ◌>>=◌
  >>=-Lawful gains {m = m} first next = record {
    runs = λ cs w k t.
        let now = first.runs cs w k t in
        elim (Result-cases (m w).0) [
          | inl (a, e) ↦
              let both : Extends (gains a ++ needs) now.claims =
                knows-append (gains a) (now.post a e) (knows-trans k now.extends) in
              let rest = (next a).runs now.claims (m w).1 both now.trace in
              rw (e, ◌>>=◌)
                (record {
                  claims = rest.claims;
                  extends = knows-trans now.extends rest.extends;
                  trace = rest.trace;
                  post = rest.post;
                })
          | inr (x, e) ↦
              rw (e, ◌>>=◌)
                (record {
                  claims = now.claims;
                  extends = now.extends;
                  trace = now.trace;
                  post = λ b h. cc;
                })
        ];
  }

  pub failing-Lawful :
      {E F A : Type 0} {gains : A → List Claim} (g : E → F) {m : Io W E A}
      → Lawful disk j root start needs m gains
      → Lawful disk j root start needs (failing g m) gains
  unfolding failing
  failing-Lawful {gains = gains} g {m = m} first = record {
    runs = λ cs w k t.
        let now = first.runs cs w k t in
        elim (Result-cases (m w).0) [
          | inl (a, e) ↦
              rw (e, failing)
                (record {
                  claims = now.claims;
                  extends = now.extends;
                  trace = now.trace;
                  post = λ b h.
                      subst (λ x. Extends (gains x) now.claims) (ok_injective h) (now.post a e);
                })
          | inr (x, e) ↦
              rw (e, failing)
                (record {
                  claims = now.claims;
                  extends = now.extends;
                  trace = now.trace;
                  post = λ b h. cc;
                })
        ];
  }

  -- The directory that is discarded is known to be the run's own before the call.
  pub or_discard-Lawful :
      {E A : Type 0} {gains : A → List Claim} (path : Text) {m : Io W E A}
      → Has (mine path) needs
      → Lawful disk j root start needs m gains
      → Lawful disk j root start needs (or_discard disk path m) gains
  unfolding or_discard
  or_discard-Lawful path {m = m} own first = record {
    runs = λ cs w k t.
        let now = first.runs cs w k t in
        elim (Result-cases (m w).0) [
          | inl (a, e) ↦
              rw (e, or_discard)
                (record {
                  claims = now.claims;
                  extends = now.extends;
                  trace = now.trace;
                  post = λ b h. now.post b (e ∙ h);
                })
          | inr (x, e) ↦
              rw (e, or_discard)
                (record {
                  claims = now.claims;
                  extends = now.extends;
                  trace =
                      discarded now.trace (now.extends.keeps (mine path) (k.keeps (mine path) own));
                  post = λ b h. cc;
                })
        ];
  }

  pub forget-Lawful :
      {E A : Type 0} {gains : A → List Claim} {m : Io W E A}
      → Lawful disk j root start needs m gains
      → Lawful disk j root start needs m nothing
  forget-Lawful first = record {
    runs = λ cs w k t.
        let now = first.runs cs w k t in
        record {
          claims = now.claims;
          extends = now.extends;
          trace = now.trace;
          post = λ a e. knows_none;
        };
  }

  pub accept-Lawful :
      {E A : Type 0} (r : Result E A) → Lawful disk j root start needs (accept r) nothing
  unfolding accept
  accept-Lawful r = record {
    runs = λ cs w k t. record {
      claims = cs;
      extends = knows-refl;
      trace = t;
      post = λ a e. knows_none;
    };
  }

  pub asking-Lawful :
      {E F A : Type 0} {m : Io W E A}
      → Lawful disk j root start needs m nothing
      → Lawful disk j root start {E = F} needs (asking m) nothing
  unfolding asking
  asking-Lawful {m = m} first = record {
    runs = λ cs w k t.
        let now = first.runs cs w k t in
        elim (Result-cases (m w).0) [
          | inl (a, e) ↦
              rw (e, asking)
                (record {
                  claims = now.claims;
                  extends = now.extends;
                  trace = now.trace;
                  post = λ b h. knows_none;
                })
          | inr (x, e) ↦
              rw (e, asking)
                (record {
                  claims = now.claims;
                  extends = now.extends;
                  trace = now.trace;
                  post = λ b h. knows_none;
                })
        ];
  }

  pub option-Lawful :
      {E A B : Type 0} {gains : B → List Claim} (o : Option A) {m : Io W E B} {f : A → Io W E B}
      → Lawful disk j root start needs m gains
      → ((a : A) → Lawful disk j root start needs (f a) gains)
      → Lawful disk j root start needs (elim o [ none ↦ m | some a ↦ f a ]) gains
  option-Lawful none no_case some_case = no_case
  option-Lawful (some a) no_case some_case = some_case a

  pub if-Lawful :
      {E A : Type 0} {gains : A → List Claim} (b : Bool) {m n : Io W E A}
      → Lawful disk j root start needs m gains
      → Lawful disk j root start needs n gains
      → Lawful disk j root start needs (if b then m else n) gains
  if-Lawful true yes_case no_case = yes_case
  if-Lawful false yes_case no_case = no_case

  -- The same where the answer yes brings claims.
  pub when-Lawful :
      {E A : Type 0} {gains : A → List Claim} (b : Bool) (told : List Claim) {m n : Io W E A}
      → Lawful disk j root start (told ++ needs) m gains
      → Lawful disk j root start needs n gains
      → Lawful disk j root start ((if b then told else []) ++ needs) (if b then m else n) gains
  when-Lawful true told yes_case no_case = yes_case
  when-Lawful false told yes_case no_case = no_case

  pub unless-Lawful :
      {E A : Type 0} {gains : A → List Claim} (b : Bool) (told : List Claim) {m n : Io W E A}
      → Lawful disk j root start (told ++ needs) m gains
      → Lawful disk j root start needs n gains
      → Lawful disk j root start ((if b then told else []) ++ needs) (if not b then n else m) gains
  unless-Lawful true told yes_case no_case = yes_case
  unless-Lawful false told yes_case no_case = no_case

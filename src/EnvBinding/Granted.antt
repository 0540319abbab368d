-- ===== src/EnvBinding/Granted.antt =====
-- internal/envbinding/envbinding.go: a bundle is written only if every key is granted.
use codemesh.Base.{
  ◌≡◌, ◌≢◌, ◌⊎◌, ◌++◌, refl, sym, ap, arith, eq_iff, Text, ◌==◌, true, false, ◌||◌, ◌&&◌, none,
  some, List, [], ◌∷◌, inl, inr, is_empty, trim_space, unique_sorted, any, mem_text, All,
  Bool-cases, Option-cases, Result-cases, ok, Among, All-Among, mem_text-Among, Named,
  unique_sorted-Listing, some_injective,
}
use mathlib.Core.Path.{subst}
use codemesh.State.Bindings.{EnvBinding, BindingRow, ScopesJson, list_env_bindings}
use codemesh.EnvBinding.{
  Files, Provider, Request, failed_with, refused_with, summary_for_requirements, scopes_intersect,
  binding_for, select_from, select_bindings, materialize,
}

is_empty-nil : {A : Type 0} (xs : List A) → is_empty xs ≡ true → xs ≡ []
is_empty-nil [] h = refl
is_empty-nil (x ∷ xs) h = cc

-- The binding is the one of that provider for that key.
abbrev pub Binds : Text → Text → EnvBinding → Type 0
Binds provider key b = (b.provider ≡ provider) × (b.requirement ≡ key)

-- The binding is the last one of that provider for that key.
pub record IsLast (provider key : Text) (bindings : List EnvBinding) (binding : EnvBinding)
    : Type 0 where
  pub before : List EnvBinding
  pub after : List EnvBinding
  pub listed : bindings ≡ before ++ binding ∷ after
  pub binds : Binds provider key binding
  pub last : All (λ b. ¬ Binds provider key b) after

-- The last binding of the provider for the key, and a scope of it that is allowed.
pub record IsGranted (provider : Text) (allowed : List Text) (bindings : List EnvBinding)
    (key : Text) : Type 0 where
  pub binding : EnvBinding
  pub found : IsLast provider key bindings binding
  pub scope : Text
  pub bound : Among scope binding.scopes
  pub given : Text
  pub requested : Among given allowed
  pub same : trim_space scope ≡ trim_space given

binding_for-none :
    (key provider : Text) (bindings : List EnvBinding)
    → binding_for key provider bindings ≡ none
    → All (λ b. ¬ Binds provider key b) bindings
unfolding binding_for
binding_for-none key provider [] h = tt
binding_for-none key provider (b ∷ bindings) h =
    elim (Option-cases (binding_for key provider bindings)) [
      | inr (later, e) ↦ cc (rw e at h)
      | inl e ↦ (
        (λ (p, k). ground (arith, rw e at h, eq_iff b.provider provider, eq_iff b.requirement key)),
        binding_for-none key provider bindings e,
      )
    ]

binding_for-IsLast :
    (key provider : Text) (bindings : List EnvBinding) (binding : EnvBinding)
    → binding_for key provider bindings ≡ some binding
    → IsLast provider key bindings binding
unfolding binding_for
binding_for-IsLast key provider [] binding h = cc
binding_for-IsLast key provider (b ∷ bindings) binding h =
    elim (Option-cases (binding_for key provider bindings)) [
      | inr (later, e) ↦
          let found = binding_for-IsLast key provider bindings later e in
          subst (IsLast provider key (b ∷ bindings)) (some_injective (rw e at h)) (record {
            before = b ∷ found.before;
            after = found.after;
            listed = ap (λ r. b ∷ r) found.listed;
            binds = found.binds;
            last = found.last;
          })
      | inl e ↦ elim (Bool-cases (b.provider == provider && b.requirement == key)) [
        | inr other ↦ cc (rw (e, other) at h)
        | inl is_it ↦
            subst (IsLast provider key (b ∷ bindings)) (some_injective (rw (e, is_it) at h))
              (record {
                before = [];
                after = bindings;
                listed = refl;
                binds = (
                  (eq_iff b.provider provider).0 (ground arith),
                  (eq_iff b.requirement key).0 (ground arith),
                );
                last = binding_for-none key provider bindings e;
              })
      ]
    ]

-- A scope of the binding that is one of the allowed ones.
any_mem-Among :
    (allowed scopes : List Text)
    → any (λ scope. mem_text (trim_space scope) allowed) scopes ≡ true
    → (scope : Text) × Among scope scopes × Among (trim_space scope) allowed
unfolding any
any_mem-Among allowed [] h = cc
any_mem-Among allowed (s ∷ scopes) h = elim (Bool-cases (mem_text (trim_space s) allowed)) [
  | inl e ↦ (s, inl refl, mem_text-Among (trim_space s) allowed e)
  | inr e ↦ let (scope, m, a) = any_mem-Among allowed scopes (ground arith) in (scope, inr m, a)
]

scopes_intersect-Among :
    (allowed scopes : List Text)
    → scopes_intersect allowed scopes ≡ true
    → (scope : Text) × Among scope scopes × Among (trim_space scope) allowed
unfolding scopes_intersect
scopes_intersect-Among allowed scopes h = any_mem-Among allowed scopes (ground arith)

found-IsGranted :
    (provider : Text) (allowed : List Text) (bindings : List EnvBinding) (key : Text)
    (binding : EnvBinding)
    → binding_for key provider bindings ≡ some binding
    → scopes_intersect (unique_sorted allowed) binding.scopes ≡ true
    → IsGranted provider allowed bindings key
found-IsGranted provider allowed bindings key binding found meets =
    let (scope, bound, kept) =
      scopes_intersect-Among (unique_sorted allowed) binding.scopes meets in
    let (filled, from) =
      All-Among (Named allowed) (unique_sorted allowed) (trim_space scope)
        (unique_sorted-Listing allowed).named kept in
    let (given, requested, same) = from in
    record {
      binding = binding;
      found = binding_for-IsLast key provider bindings binding found;
      scope = scope;
      bound = bound;
      given = given;
      requested = requested;
      same = sym same;
    }

select_from-IsGranted :
    (provider : Text) (allowed : List Text) (bindings : List EnvBinding) (keys : List Text)
    → (select_from provider (unique_sorted allowed) bindings keys).1 ≡ []
    → All (IsGranted provider allowed bindings) keys
unfolding select_from
select_from-IsGranted provider allowed bindings [] h = tt
select_from-IsGranted provider allowed bindings (key ∷ keys) h =
    elim (Option-cases (binding_for key provider bindings)) [
      | inl e ↦ cc (rw (e, select_from) at h)
      | inr (b, e) ↦ elim (Bool-cases (scopes_intersect (unique_sorted allowed) b.scopes)) [
        | inr f ↦ cc (rw (e, select_from, f) at h)
        | inl f ↦ (
          found-IsGranted provider allowed bindings key b e f,
          select_from-IsGranted provider allowed bindings keys (rw (e, select_from, f) at h),
        )
      ]
    ]

select_bindings-IsGranted :
    (keys : List Text) (provider : Text) (allowed : List Text) (bindings : List EnvBinding)
    (key : Text)
    → (select_bindings keys provider (unique_sorted allowed) bindings).1 ≡ []
    → Among key keys
    → trim_space key ≢ []
    → IsGranted provider allowed bindings (trim_space key)
unfolding select_bindings
select_bindings-IsGranted keys provider allowed bindings key h asked filled =
    let found = (select_from provider (unique_sorted allowed) bindings (unique_sorted keys)).1 in
    All-Among (IsGranted provider allowed bindings) (unique_sorted keys) (trim_space key)
      (select_from-IsGranted provider allowed bindings (unique_sorted keys)
        (elim (Bool-cases (is_empty found)) [
          | inl e ↦ is_empty-nil found e
          | inr e ↦ cc (rw (select_bindings, e) at h)
        ]))
      ((unique_sorted-Listing keys).complete key asked filled)

-- What `Materialize` has to find before it writes.
pub record IsEntitled (json : ScopesJson) (provider : Provider) (request : Request)
    (rows : List BindingRow) : Type 0 where
  pub bindings : List EnvBinding
  pub listed : list_env_bindings json request.project_id rows ≡ ok bindings
  pub supported : provider.name ≡ trim_space request.provider
  pub granted :
      (key : Text)
      → Among key request.required_keys
      → trim_space key ≢ []
      → IsGranted (trim_space request.provider) request.allowed_scopes bindings (trim_space key)

-- Either the requested provider is the one at hand, and for every required key that is not blank
-- the bindings of the project hold one of that provider for that key, the last of them, with a
-- scope that is, up to outer space, one of the allowed ones; or `Materialize` leaves the disk as it
-- was and reports no bundle.
pub materialize-IsEntitled :
    {W : Type 0} (files : Files W) (json : ScopesJson) (provider : Provider) (request : Request)
    (rows : List BindingRow) (w : W)
    → IsEntitled json provider request rows
      ⊎ (((materialize files json provider request rows w).1 ≡ w)
          × ((materialize files json provider request rows w).0.summary.bundle.present ≡ false))
unfolding materialize failed_with refused_with summary_for_requirements
materialize-IsEntitled files json provider request rows w =
    let wanted = trim_space request.provider in
    elim (Bool-cases (is_empty wanted || is_empty request.required_keys)) [
      | inl e ↦ inr (rw (e, materialize) (refl, refl))
      | inr e ↦ elim (Bool-cases (provider.name == wanted)) [
        | inr f ↦ inr (rw (e, materialize, f) (refl, refl))
        | inl f ↦ elim (Bool-cases (is_empty (trim_space request.bundle_path))) [
          | inl g ↦ inr (rw (e, materialize, f, g) (refl, refl))
          | inr g ↦ elim (Result-cases (list_env_bindings json request.project_id rows)) [
            | inr (x, listed) ↦ inr (rw (e, materialize, f, g, listed) (refl, refl))
            | inl (bindings, listed) ↦
                let found =
                  select_bindings request.required_keys wanted
                    (unique_sorted request.allowed_scopes) bindings in
                elim (Bool-cases (is_empty found.1)) [
                  | inr some_denied ↦
                      inr (rw (e, materialize, f, g, listed, some_denied) (refl, refl))
                  | inl none_denied ↦ inl (record {
                    bindings = bindings;
                    listed = listed;
                    supported = (eq_iff provider.name wanted).0 f;
                    granted = λ key asked filled.
                        select_bindings-IsGranted request.required_keys wanted
                          request.allowed_scopes bindings key (is_empty-nil found.1 none_denied)
                          asked filled;
                  })
                ]
          ]
        ]
      ]
    ]

-- ===== src/Init/Modules/Depends/Order.antt =====
-- src/init/kmod.rs: what comes before a module in the order of loading.
use trimrouter.Prelude.{
  ℕ, zero, suc, ◌≤◌, ◌<◌, ◌≡◌, ◌⊎◌, refl, sym, ap, subst, ◌∙◌, inl, inr, true, Option, none, some,
  List, [], ◌∷◌, arith, any, bytes_eq, bytes_eq_iff, bytes_eq_refl, bytes_key, Bool-cases,
  Option-cases,
}
use trimrouter.HashMap
use trimrouter.Net.{Text}
use trimrouter.Init.Modules.Depends.{
  DepMap, dashed, has_text, Deps, visit_all, push, mark, enter, resolve_deps_recursive_internal,
  resolve_deps_recursive,
}

pub has_text-cons :
    (t u : Text) (ts : List Text) → has_text t (u ∷ ts) ≡ true → (t ≡ u) ⊎ (has_text t ts ≡ true)
unfolding any
has_text-cons t u ts h = elim (Bool-cases (bytes_eq t u)) [
  | inl same ↦ inl ((bytes_eq_iff t u).0 same)
  | inr other ↦ inr (ground (arith, h, other))
]

pub has_text-tail :
    (t u : Text) (ts : List Text) → has_text t ts ≡ true → has_text t (u ∷ ts) ≡ true
unfolding any
has_text-tail t u ts h = ground (arith, h)

pub has_text-head : (t : Text) (ts : List Text) → has_text t (t ∷ ts) ≡ true
unfolding any
has_text-head t ts = rw (bytes_eq_refl t) refl

abbrev pub entry : Text → List Text → Option (Text × List Text)
entry path deps = some (path, deps)

module _ (dep_map : DepMap) where
  -- A module of the map is among the paths.
  abbrev pub Loaded : Text → List Text → Type 0
  Loaded name paths =
      (path : Text) (deps : List Text)
      → HashMap.get name dep_map ≡ some (path, deps)
      → has_text path paths ≡ true

  -- The paths, the last first: each is the path of a module whose dependencies in the map come before.
  pub data InOrder : List Text → Type 0 where
    nothing : InOrder []
    after :
        (name path : Text) (deps : List Text) (paths : List Text)
        → HashMap.get name dep_map ≡ some (path, deps)
        → ((dep : Text) → has_text dep deps ≡ true → Loaded (dashed dep) paths)
        → InOrder paths
        → InOrder (path ∷ paths)

  -- A visited module is one of those that are being visited, or its path is there.
  record Good (stack : List Text) (st : Deps) : Type 0 where
    done :
        (name : Text)
        → has_text name st.visited ≡ true
        → (has_text name stack ≡ true) ⊎ Loaded name st.resolved
    ordered : InOrder st.resolved

  -- Nothing that was visited is forgotten.
  abbrev Keeps : Deps → Deps → Type 0
  Keeps st st' = (name : Text) → has_text name st.visited ≡ true → has_text name st'.visited ≡ true

  -- The dependencies form no cycle: each has a lower rank.
  abbrev pub Ranked : (Text → ℕ) → Type 0
  Ranked rank =
      (name path : Text) (deps : List Text) (dep : Text)
      → HashMap.get name dep_map ≡ some (path, deps)
      → has_text dep deps ≡ true
      → rank (dashed dep) < rank name

  module _ (rank : Text → ℕ) (ranked : Ranked rank) where
    abbrev Below : Text → List Text → Type 0
    Below name stack = (s : Text) → has_text s stack ≡ true → rank name < rank s

    -- What a visit does to a state.
    abbrev Visits : (Text → Deps → Deps) → List Text → ℕ → Type 0
    Visits visit stack bound =
        (name : Text) (st : Deps)
        → rank (dashed name) < bound
        → Below (dashed name) stack
        → Good stack st
        → Good stack (visit name st)
          × Keeps st (visit name st)
          × (has_text (dashed name) (visit name st).visited ≡ true)

    visit_all-Good :
        (visit : Text → Deps → Deps) (stack : List Text) (bound : ℕ)
        → Visits visit stack bound
        → (deps : List Text) (st : Deps)
        → ((dep : Text)
            → has_text dep deps ≡ true
            → (rank (dashed dep) < bound) × Below (dashed dep) stack)
        → Good stack st
        → Good stack (visit_all visit deps st)
          × Keeps st (visit_all visit deps st)
          × ((dep : Text)
              → has_text dep deps ≡ true
              → has_text (dashed dep) (visit_all visit deps st).visited ≡ true)
    unfolding visit_all any
    visit_all-Good visit stack bound v [] st low g = (g, λ n h. h, λ d h. cc)
    visit_all-Good visit stack bound v (dep ∷ deps) st low g =
        let (lt, below) = low dep (has_text-head dep deps) in
        let (g1, k1, seen) = v dep st lt below g in
        let (g2, k2, all) =
          visit_all-Good visit stack bound v deps (visit dep st)
            (λ d h. low d (has_text-tail d dep deps h)) g1 in
        (
          g2,
          λ n h. k2 n (k1 n h),
          λ d h. elim (has_text-cons d dep deps h) [
            | inl same ↦
                k2 (dashed d)
                  (subst (λ x. has_text (dashed x) (visit dep st).visited ≡ true) (sym same) seen)
            | inr later ↦ all d later
          ],
        )

    -- A module is pushed after its dependencies.
    push-Good :
        (stack : List Text) (name path : Text) (deps : List Text) (st : Deps)
        → HashMap.get name dep_map ≡ some (path, deps)
        → Below name stack
        → ((dep : Text) → has_text dep deps ≡ true → has_text (dashed dep) st.visited ≡ true)
        → Good (name ∷ stack) st
        → Good stack (push path st)
    push-Good stack name path deps st e below seen g = record {
      done = λ m h. elim (g.done m h) [
        | inr loaded ↦ inr (λ p d q. has_text-tail p path st.resolved (loaded p d q))
        | inl waits ↦ elim (has_text-cons m name stack waits) [
          | inr above ↦ inl above
          | inl same ↦ inr (λ p d q.
              let one : p ≡ path =
                same_path p d (sym q ∙ ap (λ n. HashMap.get n dep_map) same ∙ e) in
              subst (λ x. has_text x (path ∷ st.resolved) ≡ true) (sym one)
                (has_text-head path st.resolved))
        ]
      ];
      ordered =
          after name path deps st.resolved e
            (λ dep h. elim (g.done (dashed dep) (seen dep h)) [
              | inr loaded ↦ loaded
              | inl waits ↦ elim (has_text-cons (dashed dep) name stack waits) [
                | inl same ↦ absurd (omega (arith, ranked name path deps dep e h, ap rank same))
                | inr above ↦
                    absurd (omega (arith, ranked name path deps dep e h, below (dashed dep) above))
              ]
            ])
            g.ordered;
    }
      where
        same_path : (p : Text) (d : List Text) → entry p d ≡ entry path deps → p ≡ path
        same_path p d q = cc

    -- A module that is not in the map is marked and no more.
    mark-Good :
        (stack : List Text) (name : Text) (st : Deps)
        → HashMap.get name dep_map ≡ none
        → Good stack st
        → Good stack (mark name st)
    mark-Good stack name st e g = record {
      done = λ m h. elim (has_text-cons m name st.visited h) [
        | inl same ↦
            inr (λ p d q. absurd (no_module p d (sym q ∙ ap (λ n. HashMap.get n dep_map) same ∙ e)))
        | inr before ↦ g.done m before
      ];
      ordered = g.ordered;
    }
      where
        no_module : (p : Text) (d : List Text) → entry p d ≡ none → ⊥
        no_module p d q = cc

    mark-on_stack :
        (stack : List Text) (name : Text) (st : Deps)
        → Good stack st
        → Good (name ∷ stack) (mark name st)
    mark-on_stack stack name st g = record {
      done = λ m h. elim (has_text-cons m name st.visited h) [
        | inl same ↦
            inl
              (subst (λ x. has_text x (name ∷ stack) ≡ true) (sym same) (has_text-head name stack))
        | inr before ↦ elim (g.done m before) [
          | inl waits ↦ inl (has_text-tail m name stack waits)
          | inr loaded ↦ inr loaded
        ]
      ];
      ordered = g.ordered;
    }

    Below-dep :
        (stack : List Text) (name path : Text) (deps : List Text) (dep : Text)
        → HashMap.get name dep_map ≡ some (path, deps)
        → has_text dep deps ≡ true
        → Below name stack
        → Below (dashed dep) (name ∷ stack)
    Below-dep stack name path deps dep e h below s w = elim (has_text-cons s name stack w) [
      | inl same ↦ omega (arith, ranked name path deps dep e h, ap rank same)
      | inr above ↦ omega (arith, ranked name path deps dep e h, below s above)
    ]

    visit-Good :
        (fuel : ℕ) (stack : List Text)
        → Visits (resolve_deps_recursive_internal dep_map fuel) stack fuel
    unfolding resolve_deps_recursive_internal enter
    visit-Good zero stack name st lt below g = absurd (omega (arith, lt))
    visit-Good (suc fuel) stack name st lt below g =
        let n = dashed name in
        elim (Bool-cases (has_text n st.visited)) [
          | inl seen ↦ rw seen (g, λ m h. h, seen)
          | inr new ↦ elim (Option-cases (HashMap.get n dep_map)) [
            | inl missing ↦
                rw (new, missing)
                  (
                    mark-Good stack n st missing g,
                    λ m h. has_text-tail m n st.visited h,
                    has_text-head n st.visited,
                  )
            | inr ((path, deps), e) ↦
                let (g2, k2, all) =
                  visit_all-Good (resolve_deps_recursive_internal dep_map fuel) (n ∷ stack) fuel
                    (visit-Good fuel (n ∷ stack)) deps (mark n st)
                    (λ dep h. (
                      omega (arith, ranked n path deps dep e h, lt),
                      Below-dep stack n path deps dep e h below,
                    ))
                    (mark-on_stack stack n st g) in
                rw (new, e)
                  (
                    push-Good stack n path deps _ e below all g2,
                    λ m h. k2 m (has_text-tail m n st.visited h),
                    k2 n (has_text-head n st.visited),
                  )
          ]
        ]

  -- When the dependencies form no cycle, as a rank of at most 64 shows, what is loaded for a module
  -- is in order: each path is that of a module whose dependencies in the map come before it; and the
  -- module itself, if it is in the map, is among them.
  pub resolve_deps_recursive-InOrder :
      (rank : Text → ℕ) (mod_name : Text)
      → Ranked rank
      → rank (dashed mod_name) ≤ 64
      → let r = (resolve_deps_recursive dep_map mod_name).resolved in
        InOrder r × Loaded (dashed mod_name) r
  unfolding resolve_deps_recursive any
  resolve_deps_recursive-InOrder rank mod_name ranked le =
      let (g, _, seen) =
        visit-Good rank ranked 65 [] mod_name (record { resolved = []; visited = [] })
          (omega (arith, le)) (λ s h. cc) (record { done = λ n h. cc; ordered = nothing }) in
      (g.ordered, elim (g.done (dashed mod_name) seen) [ inl waits ↦ cc | inr loaded ↦ loaded ])

-- ===== src/Init/Modules/Load/Brought.antt =====
-- src/init/kmod.rs: what is loaded when `load_resolved_module_paths` says that all is.
use trimrouter.Prelude.{
  ◌≡◌, refl, sym, ap, subst, inl, inr, Bool, true, false, ◌&&◌, none, some, ◌++◌, length,
  length-append, List, [], ◌∷◌, arith, any, bytes_eq_refl, Bool-cases, Option-cases,
}
use trimrouter.Prelude.Results.{ok, err}
use trimrouter.Net.{Text}
use trimrouter.Init.Modules.Depends.{has_text}
use trimrouter.Init.Modules.Depends.Order.{has_text-cons}
use trimrouter.Init.Modules.Load.{
  Kernel, Modules, Loading, loaded, no_device, stem_of, load_module, after_load, load_path,
  load_resolved_module_paths,
}

module _ {W : Type 0} (kernel : Kernel W) where
  -- What becomes of the modules and the kernel at a path: it has no stem, or a marked one, and nothing is
  -- done; or the kernel is asked in the state that it is in then, and a module that it loads is marked.
  pub data AtPath (path : Text) (m : Modules W) : Modules W → Type 0 where
    bare : stem_of path ≡ none → AtPath path m m
    marked :
        (stem : Text)
        → stem_of path ≡ some stem
        → has_text stem m.loaded_modules ≡ true
        → AtPath path m m
    asked :
        (stem : Text) (m' : Modules W)
        → stem_of path ≡ some stem
        → has_text stem m.loaded_modules ≡ false
        → m'.world ≡ (load_module kernel path m.world).0
        → AtPath path m m'

  -- The states from one path to the next.
  pub data Along : List Text → Modules W → Modules W → Type 0 where
    start : (m : Modules W) → Along [] m m
    onward :
        (path : Text) (paths : List Text) (m m1 m2 : Modules W)
        → AtPath path m m1
        → Along paths m1 m2
        → Along (path ∷ paths) m m2

  -- After a run of the paths from `m` to `m'`, one path: its module is marked as loaded at the end; or
  -- the kernel, asked for it in the state that the paths before it had led to, found no device.
  pub data Settled (paths : List Text) (m m' : Modules W) (path : Text) : Type 0 where
    is_marked :
        (stem : Text)
        → stem_of path ≡ some stem
        → has_text stem m'.loaded_modules ≡ true
        → Settled paths m m' path
    is_absent :
        (before later : List Text) (then_ : Modules W)
        → paths ≡ before ++ path ∷ later
        → Along before m then_
        → (load_module kernel path then_.world).1 ≡ ok no_device
        → Settled paths m m' path

  abbrev pub Grows : Modules W → Modules W → Type 0
  Grows m m' =
      (stem : Text) → has_text stem m.loaded_modules ≡ true → has_text stem m'.loaded_modules ≡ true

  has_text-Grows :
      (stem : Text) (m : Modules W) (w : W)
      → Grows m (record { loaded_modules = stem ∷ m.loaded_modules; world = w })
  unfolding any
  has_text-Grows stem m w s h = ground (arith, h)

  has_text-marked : (stem : Text) (stems : List Text) → has_text stem (stem ∷ stems) ≡ true
  unfolding any
  has_text-marked stem stems = rw (bytes_eq_refl stem) refl

  after_load-AtPath :
      (path stem : Text) (m : Modules W) (r : W × Loading)
      → stem_of path ≡ some stem
      → has_text stem m.loaded_modules ≡ false
      → load_module kernel path m.world ≡ r
      → let q = after_load kernel stem m r in
        Grows m q.0 × AtPath path m q.0 × (q.1 ≡ true → Settled (path ∷ []) m q.0 path)
  after_load-AtPath path stem m (w, ok loaded) e new l = (
    has_text-Grows stem m w,
    asked stem _ e new (ap (λ r. r.0) (sym l)),
    λ _. is_marked stem e (has_text-marked stem m.loaded_modules),
  )
  after_load-AtPath path stem m (w, ok no_device) e new l = (
    λ s h. h,
    asked stem _ e new (ap (λ r. r.0) (sym l)),
    λ _. is_absent [] [] m refl (start m) (ap (λ r. r.1) l),
  )
  after_load-AtPath path stem m (w, err x) e new l =
      (λ s h. h, asked stem _ e new (ap (λ r. r.0) (sym l)), λ h. cc)

  load_path-AtPath :
      (path : Text) (m : Modules W)
      → let q = load_path kernel path m in
        Grows m q.0 × AtPath path m q.0 × (q.1 ≡ true → Settled (path ∷ []) m q.0 path)
  unfolding load_path any
  load_path-AtPath path m = elim (Option-cases (stem_of path)) [
    | inl no_stem ↦ rw (load_path, no_stem) (λ s h. h, bare no_stem, λ h. cc)
    | inr (stem, e) ↦ elim (Bool-cases (has_text stem m.loaded_modules)) [
      | inl here ↦
          rw (load_path, e, here) (λ s h. h, marked stem e here, λ _. is_marked stem e here)
      | inr new ↦
          rw (load_path, e, new)
            (after_load-AtPath path stem m (load_module kernel path m.world) e new refl)
    ]
  ]

  -- What is settled at the first path stays so to the end of the run.
  Settled-first :
      (path : Text) (paths : List Text) (m m1 m2 : Modules W)
      → Grows m1 m2
      → Settled (path ∷ []) m m1 path
      → Settled (path ∷ paths) m m2 path
  Settled-first path paths m m1 m2 g (is_marked stem e h) = is_marked stem e (g stem h)
  Settled-first path paths m m1 m2 g (is_absent [] later then_ q (start _) h) =
      is_absent [] paths m refl (start m) h
  Settled-first path paths m m1 m2 g (is_absent (p ∷ before) later then_ q a h) =
      absurd (longer before later q)
    where
      longer : (before later : List Text) → (path ∷ []) ≡ p ∷ before ++ path ∷ later → ⊥
      longer before later q = omega (arith, ap length q, length-append before (path ∷ later))

  Settled-later :
      (first path : Text) (paths : List Text) (m m1 m2 : Modules W)
      → AtPath first m m1
      → Settled paths m1 m2 path
      → Settled (first ∷ paths) m m2 path
  Settled-later first path paths m m1 m2 a (is_marked stem e h) = is_marked stem e h
  Settled-later first path paths m m1 m2 a (is_absent before later then_ q along h) =
      is_absent (first ∷ before) later then_ (ap (λ l. first ∷ l) q)
        (onward first before m m1 then_ a along) h

  -- When `load_resolved_module_paths` says that all is loaded, each of the paths has its module in
  -- the set of the loaded ones, or the kernel found no device for it when its turn came; and whatever it
  -- says, no module leaves the set.
  pub load_resolved_module_paths-Settled :
      (paths : List Text) (m : Modules W)
      → let r = load_resolved_module_paths kernel paths m in
        Grows m r.0
        × (r.1 ≡ true → (path : Text) → has_text path paths ≡ true → Settled paths m r.0 path)
  unfolding load_resolved_module_paths any
  load_resolved_module_paths-Settled [] m = (λ s h. h, λ _ path h. cc)
  load_resolved_module_paths-Settled (first ∷ paths) m =
      let (grows, at, one) = load_path-AtPath first m in
      let m1 = (load_path kernel first m).0 in
      let rest = load_resolved_module_paths-Settled paths m1 in
      (
        λ s h. rest.0 s (grows s h),
        λ h path member.
            let (here, later) = both _ _ h in
            elim (has_text-cons path first paths member) [
              | inl same ↦
                  subst
                    (λ x.
                      Settled (first ∷ paths) m
                        (load_resolved_module_paths kernel (first ∷ paths) m).0 x)
                    (sym same) (Settled-first first paths m m1 _ rest.0 (one here))
              | inr among ↦ Settled-later first path paths m m1 _ at (rest.1 later path among)
            ],
      )
    where
      both : (a b : Bool) → (a && b) ≡ true → (a ≡ true) × (b ≡ true)
      both a b h = ground (arith, h)

-- ===== src/Init/Modules/Load/Stems.antt =====
-- src/init/kmod.rs: `parse_modules_dep` lists a module under the stem of its path.
use trimrouter.Prelude.{
  ◌≡◌, refl, sym, ap, subst, ◌∙◌, inl, inr, true, none, some, List, [], ◌∷◌, ◌++◌, if◌then◌else◌,
  nat_eq, bytes_eq, bytes_eq_iff, bytes_key, Bool-cases, Option-cases,
}
use trimrouter.HashMap
use trimrouter.Net.{Text}
use trimrouter.Net.Hostname.{trim_start, trim_end}
use trimrouter.Init.Modules.Depends.{DepMap}
use trimrouter.Init.Modules.Depends.Order.{entry}
use trimrouter.Init.Modules.Load.{
  before_colon, after_colon, components, last_component, file_name, stem_of, ends_in_slash, join,
  line_deps, parse_modules_dep,
}
use trimrouter.Init.Modules.Load.Needed.{Keyed}

abbrev parts : Text → List Text
unfolding components
parts path = (components path).0 ∷ (components path).1

last_component-cons :
    (part l : Text) (rest : List Text)
    → last_component rest ≡ some l
    → last_component (part ∷ rest) ≡ some l
unfolding last_component
last_component-cons part l rest h = rw h refl

-- The last component of a text stays the last one when something comes before its first slash.
components-cons :
    (d : _) (path l : Text)
    → last_component (components path).1 ≡ some l
    → last_component (components (d ∷ path)).1 ≡ some l
unfolding components
components-cons d path l h = elim (Bool-cases (nat_eq d 47)) [
  | inl slash ↦ rw slash (last_component-cons (components path).0 l (components path).1 h)
  | inr other ↦ rw other h
]

components-after_slash :
    (dir path l : Text)
    → last_component (parts path) ≡ some l
    → last_component (components (dir ++ 47 ∷ path)).1 ≡ some l
unfolding components
components-after_slash [] path l h = h
components-after_slash (d ∷ dir) path l h =
    components-cons d (dir ++ 47 ∷ path) l (components-after_slash dir path l h)

components-in_dir :
    (dir path l : Text)
    → ends_in_slash dir ≡ true
    → last_component (parts path) ≡ some l
    → last_component (components (dir ++ path)).1 ≡ some l
unfolding components
components-in_dir [] path l s h = cc
components-in_dir (d ∷ []) path l s h = rw s h
components-in_dir (d ∷ e ∷ dir) path l s h =
    components-cons d ((e ∷ dir) ++ path) l (components-in_dir (e ∷ dir) path l s h)

parts-last :
    (path l : Text)
    → last_component (components path).1 ≡ some l
    → last_component (parts path) ≡ some l
unfolding parts
parts-last path l h = last_component-cons (components path).0 l (components path).1 h

join-last :
    (dir path l : Text)
    → last_component (parts path) ≡ some l
    → last_component (parts (join dir path)) ≡ some l
unfolding join components last_component bytes_eq
join-last dir [] l h = cc
join-last [] (c ∷ cs) l h = elim (Bool-cases (nat_eq c 47)) [
  | inl absolute ↦ rw (join, absolute) h
  | inr relative ↦ rw (join, relative) h
]
join-last (d ∷ ds) (c ∷ cs) l h = elim (Bool-cases (nat_eq c 47)) [
  | inl absolute ↦ rw (join, absolute) h
  | inr relative ↦ elim (Bool-cases (ends_in_slash (d ∷ ds))) [
    | inl slash ↦
        rw (join, relative, slash)
          (parts-last ((d ∷ ds) ++ c ∷ cs) l (components-in_dir (d ∷ ds) (c ∷ cs) l slash h))
    | inr bare ↦
        rw (join, relative, bare)
          (parts-last ((d ∷ ds) ++ 47 ∷ c ∷ cs) l (components-after_slash (d ∷ ds) (c ∷ cs) l h))
  ]
]

stem_of-join :
    (dir path stem : Text) → stem_of path ≡ some stem → stem_of (join dir path) ≡ some stem
unfolding stem_of file_name
stem_of-join dir path stem h = elim (Option-cases (last_component (parts path))) [
  | inl bare ↦ absurd (no_stem stem (rw (stem_of, file_name, bare) at h))
  | inr (l, e) ↦ rw (stem_of, file_name, join-last dir path l e) (rw (stem_of, file_name, e) at h)
]
  where
    no_stem : (s : Text) → none ≡ some s → ⊥
    no_stem s q = cc

-- What `parse_modules_dep` adds to a map that lists each module under the stem of its path keeps it so,
-- whatever the lines are.
parse_modules_dep-Keyed :
    (dir : Text) (lines : List Text) (map : DepMap)
    → Keyed map
    → Keyed (parse_modules_dep dir lines map)
unfolding parse_modules_dep
parse_modules_dep-Keyed dir [] map k = k
parse_modules_dep-Keyed dir (line ∷ lines) map k =
    elim (Option-cases (stem_of (trim_start (trim_end (before_colon line))))) [
      | inl bare ↦ rw (parse_modules_dep, bare) (parse_modules_dep-Keyed dir lines map k)
      | inr (stem, e) ↦
          rw (parse_modules_dep, e)
            (parse_modules_dep-Keyed dir lines _
              (added stem _ (stem_of-join dir (trim_start (trim_end (before_colon line))) stem e)))
    ]
  where
    path_of : (a b : Text) (c d : List Text) → entry a c ≡ entry b d → a ≡ b
    path_of a b c d h = cc

    added :
        (stem path : Text)
        → stem_of path ≡ some stem
        → Keyed (HashMap.insert stem (path, line_deps (after_colon line)) map)
    added stem path e name p deps q =
        let deps' = line_deps (after_colon line) in
        let found : (if bytes_eq stem name then entry path deps' else HashMap.get name map)
            ≡ entry p deps =
          sym (HashMap.get-insert stem name (path, deps') map) ∙ q in
        elim (Bool-cases (bytes_eq stem name)) [
          | inl same ↦
              subst (λ x. stem_of x ≡ some name) (path_of path p deps' deps (rw same at found))
                (e ∙ ap (λ n. some n) ((bytes_eq_iff stem name).0 same))
          | inr other ↦ k name p deps (rw other at found)
        ]

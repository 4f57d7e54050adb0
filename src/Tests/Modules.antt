-- ===== src/Tests/Modules.antt =====
-- Runs of the kernel modules' loader at concrete inputs.
use trimrouter.Prelude.{
  ℕ, ◌+◌, ◌<◌, ◌≡◌, ◌⊎◌, refl, sym, Bool, subst, inl, inr, true, false, none, some, List, [], ◌∷◌,
  arith, if◌then◌else◌, any, elem, bytes_eq, bytes_eq_iff, bytes_key, Bool-cases,
}
use trimrouter.HashMap
use trimrouter.Net.{Text}
use trimrouter.Init.Modules.{wildcard_match}
use trimrouter.Init.Modules.Depends.{DepMap, dashed, has_text, resolve_deps_recursive}
use trimrouter.Init.Modules.Depends.Order.{
  Ranked, InOrder, Loaded, entry, resolve_deps_recursive-InOrder,
}
use trimrouter.Init.Modules.Glob.{glob, wildcard_match-glob}
use trimrouter.Init.Modules.Load.{Kernel, Modules, parse_modules_dep}

-- The pattern a*b? and the text axxbc.
wildcard_match-glob_example :
    (b : Bool) × (wildcard_match (97 ∷ 42 ∷ 98 ∷ 63 ∷ []) (97 ∷ 120 ∷ 120 ∷ 98 ∷ 99 ∷ []) ≡ some b)
    × ((elem 42 (97 ∷ 120 ∷ 120 ∷ 98 ∷ 99 ∷ []) ≡ true)
        ⊎ (b ≡ glob (97 ∷ 42 ∷ 98 ∷ 63 ∷ []) (97 ∷ 120 ∷ 120 ∷ 98 ∷ 99 ∷ [])))
wildcard_match-glob_example =
    wildcard_match-glob (97 ∷ 42 ∷ 98 ∷ 63 ∷ []) (97 ∷ 120 ∷ 120 ∷ 98 ∷ 99 ∷ [])

-- A `*` of the text is taken for a character of the pattern: the pattern * does not match it and
-- one more character.
star_in_text : wildcard_match (42 ∷ []) (42 ∷ 120 ∷ []) ≡ some false
unfolding wildcard_match trimrouter.Init.Modules.match_loop
star_in_text = refl

-- The module b needs a_, which the map has as a-.
abbrev modules : DepMap
modules = (97 ∷ 45 ∷ [], (97 ∷ 45 ∷ [], [])) ∷ (98 ∷ [], (98 ∷ [], (97 ∷ 95 ∷ []) ∷ [])) ∷ []

abbrev rank : Text → ℕ
rank t = if bytes_eq t (98 ∷ []) then 1 else 0

deps_of : (p q : Text) (ds es : List Text) → entry p ds ≡ entry q es → ds ≡ es
deps_of p q ds es h = cc

only_dep : (dep : Text) → has_text dep ((97 ∷ 95 ∷ []) ∷ []) ≡ true → (97 ∷ 95 ∷ []) ≡ dep
unfolding any
only_dep dep h = sym ((bytes_eq_iff dep (97 ∷ 95 ∷ [])).0 (ground (arith, h)))

modules-Ranked : Ranked modules rank
unfolding HashMap.get any bytes_eq dashed
modules-Ranked name path deps dep e h = elim (Bool-cases (bytes_eq (97 ∷ 45 ∷ []) name)) [
  | inl is_a ↦
      let none_left : [] ≡ deps = deps_of (97 ∷ 45 ∷ []) path [] deps (rw is_a at e) in
      absurd (no_text (subst (λ ds. has_text dep ds ≡ true) (sym none_left) h))
  | inr not_a ↦ elim (Bool-cases (bytes_eq (98 ∷ []) name)) [
    | inl is_b ↦
        let one : ((97 ∷ 95 ∷ []) ∷ []) ≡ deps =
          deps_of (98 ∷ []) path ((97 ∷ 95 ∷ []) ∷ []) deps (rw (not_a, is_b) at e) in
        let dep_is = only_dep dep (subst (λ ds. has_text dep ds ≡ true) (sym one) h) in
        let name_is = (bytes_eq_iff (98 ∷ []) name).0 is_b in
        subst (λ d. rank (dashed d) < rank name) dep_is
          (subst (λ n. rank (dashed (97 ∷ 95 ∷ [])) < rank n) name_is (omega arith))
    | inr not_b ↦ absurd (no_entry (rw (not_a, not_b) at e))
  ]
]
  where
    no_text : false ≡ true → ⊥
    no_text n = cc

    no_entry : none ≡ entry path deps → ⊥
    no_entry n = cc

resolve_deps_recursive-InOrder_example :
    let r = (resolve_deps_recursive modules (98 ∷ [])).resolved in
    InOrder modules r × Loaded modules (dashed (98 ∷ [])) r
unfolding bytes_eq dashed
resolve_deps_recursive-InOrder_example =
    resolve_deps_recursive-InOrder modules rank (98 ∷ []) modules-Ranked (omega arith)

-- A kernel that loads every module and counts the calls.
abbrev loads_all : Kernel ℕ
loads_all = record {
  can_open = λ path n. true;
  finit_module = λ path compressed n. (n + 1, none);
  find_module_recursive = λ name n. none;
}

abbrev none_loaded : Modules ℕ
none_loaded = record { loaded_modules = []; world = 0 }

-- The line k/b.ko: k/a_.ko of the file in the directory d.
modules_dep_read :
    parse_modules_dep
      (100 ∷ [])
      ((107 ∷ 47 ∷ 98 ∷ 46 ∷ 107 ∷ 111 ∷ 58 ∷ 32 ∷ 107 ∷ 47 ∷ 97 ∷ 95 ∷ 46 ∷ 107 ∷ 111 ∷ []) ∷ [])
      []
    ≡ (98 ∷ [], (100 ∷ 47 ∷ 107 ∷ 47 ∷ 98 ∷ 46 ∷ 107 ∷ 111 ∷ [], (97 ∷ 45 ∷ []) ∷ [])) ∷ []
unfolding parse_modules_dep bytes_eq HashMap.insert HashMap.remove
modules_dep_read = refl

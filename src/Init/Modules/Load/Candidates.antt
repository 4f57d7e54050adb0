-- ===== src/Init/Modules/Load/Candidates.antt =====
-- src/init/kmod.rs: the names that an alias stands for are tried in turn until one is loaded.
use trimrouter.Prelude.{
  Bool, true, false, ◌&&◌, ◌||◌, not, Option, none, some, List, [], ◌∷◌, ◌++◌, if◌then◌else◌, elem,
  bytes_eq, bytes_key,
}
use trimrouter.Prelude.Results.{ok, err}
use trimrouter.HashMap
use trimrouter.Net.{Text}
use trimrouter.Init.Modules.{resolve_alias}
use trimrouter.Init.Modules.Depends.{DepMap, dashed, has_text, resolve_deps_recursive}
use trimrouter.Init.Modules.Load.{
  Kernel, Modules, Loading, loaded, load_module, load_resolved_module_paths, has_two_dots,
}

-- What `resolve_deps_recursive` pushed, the first first.
unfoldable pub push_order : List Text → List Text → List Text
push_order [] acc = acc
push_order (path ∷ paths) acc = push_order paths (path ∷ acc)

abbrev is_ok : Loading → Bool
is_ok (ok r) = true
is_ok (err e) = false

-- The aliases of `modules.alias`, none when the release of the kernel is unknown; the release; and
-- what `get_or_load_dep_map` returns.
module _ {W : Type 0} (kernel : Kernel W) (aliases : List (Text × Text)) (kdir : Text)
    (dep_cache : Option DepMap) where
  abbrev cached_path : Text → Option Text
  cached_path name = elim dep_cache [
    | none ↦ none
    | some dep_map ↦ elim (HashMap.get (dashed name) dep_map) [
      | none ↦ none
      | some (path, deps) ↦ some path
    ]
  ]

  unfoldable pub find_module_file : Text → W → Option Text
  unfolding dashed
  find_module_file name w =
      if elem 58 name || elem 47 name || has_two_dots name || elem 0 name
      then none
      else elim (cached_path name) [
        | some path ↦ some path
        | none ↦
            if bytes_eq kdir []
            then none
            else kernel.find_module_recursive (name ++ 46 ∷ 107 ∷ 111 ∷ []) w
      ]

  unfoldable pub load_single_module : Text → W → W × Loading
  unfolding find_module_file load_module
  load_single_module mod_name w = elim (find_module_file mod_name w) [
    | none ↦ (w, ok loaded)
    | some path ↦ load_module kernel path w
  ]

  abbrev single : Text → Modules W → Modules W × Bool
  single name m =
      let r = load_single_module name m.world in
      if elem 58 name then (m, false) else (record m { world = r.0 }, is_ok r.1)

  -- What a candidate does: the modules, whether it succeeded, and whether the loop ends.
  unfoldable pub load_candidate : DepMap → Text → Modules W → Modules W × Bool × Bool
  unfolding dashed resolve_deps_recursive push_order load_single_module load_resolved_module_paths
  load_candidate dep_map name m =
      if has_text (dashed name) m.loaded_modules
      then (m, true, false)
      else elim (push_order (resolve_deps_recursive dep_map name).resolved []) [
        | [] ↦ let r = single name m in (r.0, r.1, false)
        | path ∷ paths ↦
            let r = load_resolved_module_paths kernel (path ∷ paths) m in (r.0, r.1, r.1)
      ]

  unfoldable pub load_candidates : DepMap → List Text → Modules W → Modules W × Bool
  unfolding load_candidate
  load_candidates dep_map [] m = (m, false)
  load_candidates dep_map (name ∷ names) m =
      let (m1, success, is_last) = load_candidate dep_map name m in
      let rest = load_candidates dep_map names m1 in
      if is_last then (m1, true) else (rest.0, success || rest.1)

  unfoldable pub load_module_with_dep_map : Text → DepMap → Modules W → Modules W × Bool
  unfolding load_candidates resolve_alias
  load_module_with_dep_map mod_name dep_map m =
      load_candidates dep_map (resolve_alias aliases mod_name) m

  unfoldable pub load_all_single : List Text → Modules W → Modules W × Bool
  unfolding load_single_module
  load_all_single [] m = (m, false)
  load_all_single (name ∷ names) m =
      let r = load_single_module name m.world in
      let rest = load_all_single names (record m { world = r.0 }) in (rest.0, is_ok r.1 || rest.1)

  abbrev load_any : Option DepMap → Text → Modules W → Modules W × Bool
  load_any (some dep_map) mod_name m = load_module_with_dep_map mod_name dep_map m
  load_any none mod_name m = load_all_single (resolve_alias aliases mod_name) m

  -- With whether the error is logged.
  unfoldable pub load_module_with_dependencies : Text → Modules W → Modules W × Bool
  unfolding load_module_with_dep_map load_all_single resolve_alias
  load_module_with_dependencies mod_name m =
      let r = load_any dep_cache mod_name m in (r.0, not r.1 && not (elem 58 mod_name))

-- ===== src/Init/Modules/Load.antt =====
-- src/init/kmod.rs: `modules.dep`, and the loading of a module after what it depends on. The kernel and
-- the file system are a state that each call may change.
pub mod Brought
pub mod Candidates
pub mod Needed
pub mod Stems
use trimrouter.Prelude.{
  ℕ, Bool, true, false, ◌&&◌, ◌||◌, not, Option, none, some, List, [], ◌∷◌, ◌++◌, if◌then◌else◌,
  nat_eq, any, elem, bytes_eq, bytes_key,
}
use trimrouter.Prelude.Results.{Result, ok, err}
use trimrouter.HashMap
use trimrouter.Net.{Text}
use trimrouter.Net.Hostname.{before_dot, trim_start, trim_end}
use trimrouter.Init.Modules.{split_whitespace}
use trimrouter.Init.Modules.Depends.{DepMap, dashed, has_text, Deps, resolve_deps_recursive}

-- `split(':')`: the part before the first colon, and the rest after it.
unfoldable pub before_colon : Text → Text
before_colon [] = []
before_colon (c ∷ cs) = let rest = before_colon cs in if nat_eq c 58 then [] else c ∷ rest

unfoldable pub after_colon : Text → Option Text
after_colon [] = none
after_colon (c ∷ cs) = let rest = after_colon cs in if nat_eq c 58 then some cs else rest

-- The part of a path before its first `/`, and the components that follow.
unfoldable pub components : Text → Text × List Text
components [] = ([], [])
components (c ∷ cs) =
    let r = components cs in if nat_eq c 47 then ([], r.0 ∷ r.1) else (c ∷ r.0, r.1)

abbrev is_skipped : Text → Bool
is_skipped part = bytes_eq part [] || bytes_eq part (46 ∷ [])

-- The last component that is neither empty nor `.`.
unfoldable pub last_component : List Text → Option Text
last_component [] = none
last_component (part ∷ parts) = elim (last_component parts) [
  | some later ↦ some later
  | none ↦ if is_skipped part then none else some part
]

-- `Path::file_name`: nothing for a path that ends in `..`.
unfoldable pub file_name : Text → Option Text
unfolding components last_component
file_name path = elim (last_component ((components path).0 ∷ (components path).1)) [
  | none ↦ none
  | some name ↦ if bytes_eq name (46 ∷ 46 ∷ []) then none else some name
]

-- `f.split('.').next().unwrap_or(f).replace('_', "-")`
unfoldable pub stem_of : Text → Option Text
unfolding file_name before_dot dashed
stem_of path = elim (file_name path) [ none ↦ none | some f ↦ some (dashed (before_dot f)) ]

-- `Path::extension`: what follows the last dot, if something comes before that dot.
unfoldable pub after_last_dot : Text → Option Text
after_last_dot [] = none
after_last_dot (c ∷ cs) = elim (after_last_dot cs) [
  | some later ↦ some later
  | none ↦ if nat_eq c 46 then some cs else none
]

unfoldable pub extension : Text → Option Text
unfolding file_name after_last_dot
extension path = elim (file_name path) [
  | none ↦ none
  | some [] ↦ none
  | some (c ∷ cs) ↦ after_last_dot cs
]

-- `modules_dir.join(mod_path)`
abbrev pub ends_in_slash : Text → Bool
ends_in_slash [] = false
ends_in_slash (c ∷ []) = nat_eq c 47
ends_in_slash (c ∷ d ∷ cs) = ends_in_slash (d ∷ cs)

unfoldable pub join : Text → Text → Text
join dir [] = if bytes_eq dir [] || ends_in_slash dir then dir else dir ++ 47 ∷ []
join dir (c ∷ cs) =
    if nat_eq c 47
    then c ∷ cs
    else if bytes_eq dir [] || ends_in_slash dir
    then dir ++ c ∷ cs
    else dir ++ 47 ∷ c ∷ cs

unfoldable pub dep_stems : List Text → List Text
unfolding stem_of trim_start trim_end
dep_stems [] = []
dep_stems (dep ∷ words) =
    let rest = dep_stems words in
    elim (stem_of (trim_start (trim_end dep))) [
      | none ↦ rest
      | some [] ↦ rest
      | some (c ∷ cs) ↦ (c ∷ cs) ∷ rest
    ]

unfoldable pub line_deps : Option Text → List Text
unfolding dep_stems split_whitespace before_colon
line_deps none = []
line_deps (some rest) = dep_stems (split_whitespace (before_colon rest))

-- From the lines of the file, none if it cannot be read.
unfoldable pub parse_modules_dep : Text → List Text → DepMap → DepMap
unfolding stem_of join before_colon after_colon trim_start trim_end line_deps
parse_modules_dep modules_dir [] map = map
parse_modules_dep modules_dir (line ∷ lines) map =
    let mod_path = trim_start (trim_end (before_colon line)) in
    elim (stem_of mod_path) [
      | none ↦ parse_modules_dep modules_dir lines map
      | some stem ↦
          parse_modules_dep modules_dir lines
            (HashMap.insert stem (join modules_dir mod_path, line_deps (after_colon line)) map)
    ]

-- The number that `finit_module` fails with.
pub data Errno : Type 0 where
  eexist enodev enxio other_errno : Errno

pub data LoadModuleResult : Type 0 where
  loaded no_device : LoadModuleResult

pub data IoError : Type 0 where
  io_error : IoError

abbrev pub Loading : Type 0
Loading = Result IoError LoadModuleResult

-- The kernel and the file system: whether a file opens, `finit_module` of a path, compressed or not,
-- and the walk of `find_module_recursive`.
pub record Kernel (W : Type 0) : Type 0 where
  pub can_open : Text → W → Bool
  pub finit_module : Text → Bool → W → W × Option Errno
  pub find_module_recursive : Text → W → Option Text

abbrev result_of : Option Errno → Loading
result_of none = ok loaded
result_of (some eexist) = ok loaded
result_of (some enodev) = ok no_device
result_of (some enxio) = ok no_device
result_of (some other_errno) = err io_error

-- xz, gz and zst
abbrev is_compressed : Option Text → Bool
is_compressed none = false
is_compressed (some e) =
    bytes_eq e (120 ∷ 122 ∷ []) || bytes_eq e (103 ∷ 122 ∷ []) || bytes_eq e (122 ∷ 115 ∷ 116 ∷ [])

abbrev pub has_two_dots : Text → Bool
has_two_dots [] = false
has_two_dots (c ∷ []) = false
has_two_dots (c ∷ d ∷ cs) = (nat_eq c 46 && nat_eq d 46) || has_two_dots (d ∷ cs)

-- `LOADED_MODULES` and the world.
pub record Modules (W : Type 0) : Type 0 where
  pub loaded_modules : List Text
  pub world : W

module _ {W : Type 0} (kernel : Kernel W) where
  unfoldable pub load_module : Text → W → W × Loading
  unfolding extension
  load_module path w =
      let r = kernel.finit_module path (is_compressed (extension path)) w in
      if not (kernel.can_open path w) then (w, err io_error) else (r.0, result_of r.1)

  -- The mark in `LOADED_MODULES` of a module that was loaded, and what becomes of `all_loaded`.
  abbrev pub after_load : Text → Modules W → W × Loading → Modules W × Bool
  after_load stem m (w, ok loaded) =
      (record { loaded_modules = stem ∷ m.loaded_modules; world = w }, true)
  after_load stem m (w, ok no_device) = (record m { world = w }, true)
  after_load stem m (w, err e) = (record m { world = w }, false)

  unfoldable pub load_path : Text → Modules W → Modules W × Bool
  unfolding load_module stem_of
  load_path path m = elim (stem_of path) [
    | none ↦ (m, false)
    | some stem ↦
        if has_text stem m.loaded_modules
        then (m, true)
        else after_load stem m (load_module path m.world)
  ]

  unfoldable pub load_resolved_module_paths : List Text → Modules W → Modules W × Bool
  unfolding load_path
  load_resolved_module_paths [] m = (m, true)
  load_resolved_module_paths (path ∷ paths) m =
      let one = load_path path m in
      let rest = load_resolved_module_paths paths one.0 in (rest.0, one.1 && rest.1)

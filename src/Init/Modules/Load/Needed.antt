-- ===== src/Init/Modules/Load/Needed.antt =====
-- src/init/kmod.rs: a module that is loaded has all that it needs.
use trimrouter.Prelude.{◌≡◌, true, some, List, bytes_key}
use trimrouter.HashMap
use trimrouter.Net.{Text}
use trimrouter.Init.Modules.Depends.{DepMap, dashed, has_text}
use trimrouter.Init.Modules.Depends.Order.{Loaded}
use trimrouter.Init.Modules.Load.{Modules, stem_of}

module _ (dep_map : DepMap) where
  -- A module is listed under the stem of its path.
  abbrev pub Keyed : Type 0
  Keyed =
      (name path : Text) (deps : List Text)
      → HashMap.get name dep_map ≡ some (path, deps)
      → stem_of path ≡ some name

  -- A module needs itself, and what the modules that its entry lists need.
  pub data Needs : Text → Text → Type 0 where
    itself : (name : Text) → Needs name name
    through :
        (name path : Text) (deps : List Text) (dep target : Text)
        → HashMap.get name dep_map ≡ some (path, deps)
        → has_text dep deps ≡ true
        → Needs (dashed dep) target
        → Needs name target

  -- What the modules of the paths depend on is among the paths.
  abbrev Closed : List Text → Type 0
  Closed paths =
      (name path : Text) (deps : List Text) (dep : Text)
      → HashMap.get name dep_map ≡ some (path, deps)
      → has_text path paths ≡ true
      → has_text dep deps ≡ true
      → Loaded dep_map (dashed dep) paths

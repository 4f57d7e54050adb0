-- ===== src/Init/Modules/Depends.antt =====
-- src/init/kmod.rs: the order in which a module and what it depends on are loaded.
pub mod Order
use trimrouter.Prelude.{
  ℕ, zero, suc, Bool, true, false, Option, none, some, List, [], ◌∷◌, map, if◌then◌else◌, nat_eq,
  any, bytes_eq, bytes_key,
}
use trimrouter.HashMap
use trimrouter.Net.{Text}

-- The map that `parse_modules_dep` reads: of a name, the path and the names it depends on.
abbrev pub DepMap : Type 0
DepMap = List (Text × (Text × List Text))

-- `replace('_', "-")`
unfoldable pub dashed : Text → Text
dashed name = map (λ c. if nat_eq c 95 then 45 else c) name

abbrev pub has_text : Text → List Text → Bool
has_text t ts = any (bytes_eq t) ts

-- `resolved`, with the path that was pushed last first, and `visited`.
pub record Deps : Type 0 where
  pub resolved : List Text
  pub visited : List Text

unfoldable pub visit_all : (Text → Deps → Deps) → List Text → Deps → Deps
visit_all visit [] st = st
visit_all visit (dep ∷ deps) st = visit_all visit deps (visit dep st)

abbrev push : Text → Deps → Deps
push path st = record st { resolved = path ∷ st.resolved }

abbrev mark : Text → Deps → Deps
mark name st = record st { visited = name ∷ st.visited }

unfoldable pub enter : (Text → Deps → Deps) → Option (Text × List Text) → Deps → Deps
unfolding visit_all
enter visit none st = st
enter visit (some (path, deps)) st = push path (visit_all visit deps st)

module _ (dep_map : DepMap) where
  -- The fuel is the number of calls down to `MAX_DEP_RECURSION_DEPTH`.
  unfoldable pub resolve_deps_recursive_internal : ℕ → Text → Deps → Deps
  unfolding enter dashed
  resolve_deps_recursive_internal zero mod_name st = st
  resolve_deps_recursive_internal (suc fuel) mod_name st =
      let normalized = dashed mod_name in
      let entered =
        enter (resolve_deps_recursive_internal fuel) (HashMap.get normalized dep_map)
          (mark normalized st) in
      if has_text normalized st.visited then st else entered

  -- Depth 0 to 64.
  unfoldable pub resolve_deps_recursive : Text → Deps
  resolve_deps_recursive mod_name =
      resolve_deps_recursive_internal 65 mod_name (record { resolved = []; visited = [] })

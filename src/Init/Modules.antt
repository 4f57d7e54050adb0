-- ===== src/Init/Modules.antt =====
-- src/init/kmod.rs: the names of kernel modules: aliases with wildcards, and the order of dependencies. The
-- files under /lib/modules are given as their lines and entries; loading a module is a parameter.
pub mod Depends
pub mod Glob
pub mod Load
use trimrouter.Prelude.{
  ℕ, zero, suc, ◌+◌, ◌*◌, Bool, true, false, ◌||◌, Option, none, some, List, [], ◌∷◌, ◌++◌, map,
  if◌then◌else◌, nat_eq, bytes_eq, length, any,
}
use trimrouter.Net.{Text}
use trimrouter.Net.Hostname.{is_whitespace}

-- What is left of the pattern after the last `*`, and of the input at `match_idx`: the suffixes stand for
-- `star_idx + 1` and `match_idx`.
abbrev pub Star : Type 0
Star = Option (Text × Text)

-- The second loop and the test after it.
unfoldable pub only_stars : Text → Bool
only_stars [] = true
only_stars (x ∷ ps) = let rest = only_stars ps in if nat_eq x 42 then rest else false

abbrev retry : Star → (Text → Text → Star → Option Bool) → Option Bool
retry none next = some false
retry (some (star, [])) next = none
retry (some (star, x ∷ matched)) next = next star matched (some (star, matched))

-- The first loop, on the suffixes from `p_idx` and `s_idx`; `none` means that the fuel ran out.
unfoldable pub match_loop : ℕ → Text → Text → Star → Option Bool
unfolding only_stars
match_loop zero p s back = none
match_loop (suc fuel) p [] back = some (only_stars p)
match_loop (suc fuel) [] (c ∷ cs) back = retry back (match_loop fuel)
match_loop (suc fuel) (x ∷ ps) (c ∷ cs) back =
    let literal = match_loop fuel ps cs back in
    let star = match_loop fuel ps (c ∷ cs) (some (ps, c ∷ cs)) in
    let other = retry back (match_loop fuel) in
    if nat_eq x 63 || nat_eq x c then literal else if nat_eq x 42 then star else other

-- The fuel is enough: `Glob.wildcard_match-glob`.
unfoldable pub wildcard_match : Text → Text → Option Bool
wildcard_match pattern input =
    match_loop (suc (length input * suc (length pattern) + length pattern)) pattern input none

-- The words of a line: `split_whitespace`.
abbrev close : Text → List Text → List Text
close [] rest = rest
close (c ∷ cs) rest = (c ∷ cs) ∷ rest

-- The word that the text starts with, if any, and the words after it.
unfoldable pub words_from : Text → Text × List Text
unfolding is_whitespace
words_from [] = ([], [])
words_from (c ∷ cs) =
    let r = words_from cs in if is_whitespace c then ([], close r.0 r.1) else (c ∷ r.0, r.1)

unfoldable pub split_whitespace : Text → List Text
unfolding words_from
split_whitespace line = close (words_from line).0 (words_from line).1

-- alias
abbrev alias_word : Text
alias_word = 97 ∷ 108 ∷ 105 ∷ 97 ∷ 115 ∷ []

abbrev alias_of : List Text → Option (Text × Text)
alias_of (first ∷ pattern ∷ mod_name ∷ rest) =
    if bytes_eq first alias_word then some (pattern, mod_name) else none
alias_of _ = none

unfoldable pub parse_modules_alias_line : Text → Option (Text × Text)
unfolding split_whitespace
parse_modules_alias_line line = alias_of (split_whitespace line)

abbrev found : Option (Text × Text) → List (Text × Text) → List (Text × Text)
found none rest = rest
found (some a) rest = a ∷ rest

-- `load_alias_list`, from the lines of the file.
unfoldable pub load_alias_list : List Text → List (Text × Text)
unfolding parse_modules_alias_line
load_alias_list [] = []
load_alias_list (line ∷ lines) = found (parse_modules_alias_line line) (load_alias_list lines)

abbrev pub is_match : Option Bool → Bool
is_match (some b) = b
is_match none = false

-- The loop of `resolve_alias`.
unfoldable pub alias_matches : List (Text × Text) → Text → List Text
unfolding wildcard_match
alias_matches [] name = []
alias_matches ((pattern, mod_name) ∷ list) name =
    let rest = alias_matches list name in
    if is_match (wildcard_match pattern name) then mod_name ∷ rest else rest

abbrev or_itself : List Text → Text → List Text
or_itself [] name = name ∷ []
or_itself (m ∷ ms) name = m ∷ ms

unfoldable pub resolve_alias : List (Text × Text) → Text → List Text
unfolding alias_matches
resolve_alias list name = or_itself (alias_matches list name) name

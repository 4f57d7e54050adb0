-- ===== src/Net/Hostname.antt =====
-- src/services/utils.rs: `sanitize_hostname`. A text is the list of its code points.
use trimrouter.Prelude.{
  ℕ, ◌+◌, ◌≤◌, ◌<◌, ◌≡◌, refl, Bool, true, false, ◌&&◌, ◌||◌, not, Option, none, some, List, [],
  ◌∷◌, map, arith, if◌then◌else◌, nat_eq, ltb, leb, length,
}
use trimrouter.Net.{Hostname}

-- `raw.split('.').next()`: the text before the first dot.
unfoldable pub before_dot : List ℕ → List ℕ
before_dot [] = []
before_dot (c ∷ cs) = let rest = before_dot cs in if nat_eq c 46 then [] else c ∷ rest

-- `char::is_whitespace`: the code points with the property White_Space.
unfoldable pub is_whitespace : ℕ → Bool
is_whitespace c =
    (leb 9 c && leb c 13)
    || nat_eq c 32
    || nat_eq c 0x85
    || nat_eq c 0xa0
    || nat_eq c 0x1680
    || (leb 0x2000 c && leb c 0x200a)
    || nat_eq c 0x2028
    || nat_eq c 0x2029
    || nat_eq c 0x202f
    || nat_eq c 0x205f
    || nat_eq c 0x3000

unfoldable pub trim_start : List ℕ → List ℕ
unfolding is_whitespace
trim_start [] = []
trim_start (c ∷ cs) = let rest = trim_start cs in if is_whitespace c then rest else c ∷ cs

abbrev drop_last_space : Bool → List ℕ → List ℕ → List ℕ
drop_last_space true [] whole = []
drop_last_space _ _ whole = whole

unfoldable pub trim_end : List ℕ → List ℕ
unfolding is_whitespace
trim_end [] = []
trim_end (c ∷ cs) = let rest = trim_end cs in drop_last_space (is_whitespace c) rest (c ∷ rest)

-- `str::len`: the bytes of the UTF-8 encoding.
unfoldable pub utf8_len : List ℕ → ℕ
utf8_len [] = 0
utf8_len (c ∷ cs) =
    (if ltb c 0x80 then 1 else if ltb c 0x800 then 2 else if ltb c 0x10000 then 3 else 4)
    + utf8_len cs

abbrev starts_with_dash : List ℕ → Bool
starts_with_dash [] = false
starts_with_dash (c ∷ cs) = nat_eq c 45

unfoldable pub ends_with_dash : List ℕ → Bool
ends_with_dash [] = false
ends_with_dash (c ∷ []) = nat_eq c 45
ends_with_dash (c ∷ d ∷ cs) = ends_with_dash (d ∷ cs)

-- `c.is_ascii_alphanumeric() || c == '-'`
abbrev is_label_char : ℕ → Bool
is_label_char c =
    (leb 48 c && leb c 57) || (leb 65 c && leb c 90) || (leb 97 c && leb c 122) || nat_eq c 45

unfoldable pub all_label_chars : List ℕ → Bool
all_label_chars [] = true
all_label_chars (c ∷ cs) = is_label_char c && all_label_chars cs

abbrev pub lowercase_char : ℕ → ℕ
lowercase_char c = if leb 65 c && leb c 90 then c + 32 else c

unfoldable pub check_label : List ℕ → Option Hostname
unfolding utf8_len ends_with_dash all_label_chars
check_label label =
    if nat_eq (utf8_len label) 0 || ltb 63 (utf8_len label)
    then none
    else if starts_with_dash label || ends_with_dash label
    then none
    else if not (all_label_chars label)
    then none
    else some (map lowercase_char label)

unfoldable pub sanitize_hostname : List ℕ → Option Hostname
unfolding before_dot trim_start trim_end check_label
sanitize_hostname raw = check_label (trim_end (trim_start (before_dot raw)))

-- A label as the tables of names keep it: digits, lower case letters and dashes.
abbrev pub IsLabel : List ℕ → Type 0
IsLabel [] = Unit {0}
IsLabel (c ∷ cs) =
    (((leb 48 c && leb c 57) || (leb 97 c && leb c 122) || nat_eq c 45) ≡ true) × IsLabel cs

lowercase-IsLabel :
    (cs : List ℕ)
    → all_label_chars cs ≡ true
    → IsLabel (map lowercase_char cs) × (length (map lowercase_char cs) ≡ utf8_len cs)
unfolding all_label_chars utf8_len
lowercase-IsLabel [] h = (tt, refl)
lowercase-IsLabel (c ∷ cs) h =
    let (label, len) = lowercase-IsLabel cs (ground arith) in ((ground arith, label), ground arith)

check_label-parts :
    (label : List ℕ) (name : Hostname)
    → check_label label ≡ some name
    → (all_label_chars label ≡ true)
      × (0 < utf8_len label)
      × (utf8_len label ≤ 63)
      × (map lowercase_char label ≡ name)
unfolding check_label
check_label-parts label name h = ground arith

check_label-IsLabel :
    (label : List ℕ) (name : Hostname)
    → check_label label ≡ some name
    → IsLabel name × (0 < length name) × (length name ≤ 63)
check_label-IsLabel label name h =
    let (chars, lo, hi, same) = check_label-parts label name h in
    let (good, len) = lowercase-IsLabel label chars in rw (← same) (good, omega arith, omega arith)

-- What `sanitize_hostname` lets through is a label of 1 to 63 digits, lower case letters and dashes.
pub sanitize_hostname-IsLabel :
    (raw : List ℕ) (name : Hostname)
    → sanitize_hostname raw ≡ some name
    → IsLabel name × (0 < length name) × (length name ≤ 63)
unfolding sanitize_hostname
sanitize_hostname-IsLabel raw name h =
    check_label-IsLabel (trim_end (trim_start (before_dot raw))) name h

-- ===== src/Init/Modules/Glob.antt =====
-- src/init/kmod.rs: `wildcard_match` against what a pattern means.
use trimrouter.Prelude.{
  ℕ, zero, suc, ◌+◌, ◌*◌, ◌≤◌, ◌<◌, ◌≡◌, ◌⊎◌, refl, sym, ◌∙◌, ap, inl, inr, Bool, true, false, ◌||◌,
  ◌&&◌, Option, none, some, [], ◌∷◌, arith, if◌then◌else◌, nat_eq, elem, length, Bool-cases,
  nat_eq_iff, subst,
}
use trimrouter.Net.{Text}
use trimrouter.Init.Modules.{Star, only_stars, retry, match_loop, wildcard_match}

-- Some suffix of a text has a property.
unfoldable pub some_suffix : (Text → Bool) → Text → Bool
some_suffix f [] = f []
some_suffix f (c ∷ cs) = f (c ∷ cs) || some_suffix f cs

abbrev glob_one : ℕ → (Text → Bool) → Text → Bool
glob_one x f [] = false
glob_one x f (c ∷ cs) = (nat_eq x 63 || nat_eq x c) && f cs

-- What a pattern matches: `*` any text, `?` any character, and another character itself.
unfoldable pub glob : Text → Text → Bool
unfolding some_suffix
glob [] [] = true
glob [] (c ∷ cs) = false
glob (x ∷ ps) s = if nat_eq x 42 then some_suffix (glob ps) s else glob_one x (glob ps) s

some_suffix-here : (f : Text → Bool) (s : Text) → f s ≡ true → some_suffix f s ≡ true
unfolding some_suffix
some_suffix-here f [] h = h
some_suffix-here f (c ∷ cs) h = ground (arith, h)

-- A suffix of a suffix is a suffix.
some_suffix-twice :
    (f : Text → Bool) (s : Text) → some_suffix (some_suffix f) s ≡ true → some_suffix f s ≡ true
unfolding some_suffix
some_suffix-twice f [] h = h
some_suffix-twice f (c ∷ cs) h = ground (arith, h, some_suffix-twice f cs)

-- A character of the pattern that is no star takes one of the text.
some_suffix-literal :
    (x : ℕ) (ps : Text) (c : ℕ) (cs : Text)
    → nat_eq x 42 ≡ false
    → some_suffix (glob (x ∷ ps)) (c ∷ cs) ≡ true
    → some_suffix (glob ps) cs ≡ true
unfolding some_suffix glob
some_suffix-literal x ps c [] n h = ground (arith, n, h)
some_suffix-literal x ps c (d ∷ ds) n h = elim (Bool-cases (glob ps (d ∷ ds))) [
  | inl here ↦ some_suffix-here (glob ps) (d ∷ ds) here
  | inr later ↦ ground (arith, later, some_suffix-literal x ps d ds n (ground (arith, n, h, later)))
]

only_stars-glob : (p : Text) → only_stars p ≡ glob p []
unfolding only_stars glob some_suffix
only_stars-glob [] = refl
only_stars-glob (x ∷ ps) = ground (arith, only_stars-glob ps)

no_star :
    (c : ℕ) (cs : Text) → elem 42 (c ∷ cs) ≡ false → (nat_eq c 42 ≡ false) × (elem 42 cs ≡ false)
unfolding elem
no_star c cs h = ground (arith, h)

-- What the loop knows of the answer, at a suffix of the pattern and one of the text. After a star, some
-- suffix of the text that is left for it has to match what follows it; the text since then has
-- matched, and if a later suffix matches at all then one of what is left does.
module _ (answer : Bool) (k : ℕ) where
  abbrev Meets : ℕ → Text → Text → Star → Type 0
  Meets m p s none = (answer ≡ glob p s) × (length s ≤ m)
  Meets m p s (some (star, matched)) =
      (answer ≡ some_suffix (glob star) matched)
      × (glob star matched ≡ glob p s)
      × (some_suffix (glob star) matched ≡ true → some_suffix (glob p) s ≡ true)
      × (length s ≤ length matched)
      × (length matched ≤ m)
      × (length star < k)
      × (elem 42 matched ≡ false)

  -- The fuel that is needed from there on.
  abbrev Fuelled : ℕ → ℕ → Text → Type 0
  Fuelled fuel m p = (m * k + length p < fuel) × (length p < k)

  Meets-length : (m : ℕ) (p s : Text) (back : Star) → Meets m p s back → length s ≤ m
  Meets-length m p s none h = h.1
  Meets-length m p s (some (star, matched)) h = omega (arith, h)

  -- The text is at its end.
  Meets-end : (m : ℕ) (p : Text) (back : Star) → Meets m p [] back → glob p [] ≡ answer
  unfolding some_suffix
  Meets-end m p none h = sym h.0
  Meets-end m p (some (star, matched)) (a, same, later, _, _, _, _) =
      elim (Bool-cases (glob p [])) [
        | inl t ↦ t ∙ sym (a ∙ some_suffix-here (glob star) matched (same ∙ t))
        | inr f ↦ elim (Bool-cases (some_suffix (glob star) matched)) [
          | inl t ↦ later t ∙ sym (a ∙ t)
          | inr n ↦ f ∙ sym (a ∙ n)
        ]
      ]

  -- A character is taken.
  Meets-literal :
      (m x c : ℕ) (ps cs : Text) (back : Star)
      → nat_eq x 42 ≡ false
      → (nat_eq x 63 || nat_eq x c) ≡ true
      → Meets m (x ∷ ps) (c ∷ cs) back
      → Meets m ps cs back
  unfolding glob
  Meets-literal m x c ps cs none n t h = (ground (arith, n, t, h), omega (arith, h))
  Meets-literal m x c ps cs (some (star, matched)) n t (a, same, later, le, le', lt, plain) = (
    a,
    same ∙ ground (arith, n, t),
    λ g. some_suffix-literal x ps c cs n (later g),
    omega (arith, le),
    le',
    lt,
    plain,
  )

  -- A star is saved.
  Meets-star :
      (m : ℕ) (ps s : Text) (back : Star)
      → elem 42 s ≡ false
      → length ps < k
      → Meets m (42 ∷ ps) s back
      → Meets m ps s (some (ps, s))
  unfolding glob
  Meets-star m ps s none plain lt (a, le) = (a, refl, λ g. g, omega arith, le, lt, plain)
  Meets-star m ps s (some (star, matched)) plain lt (a, same, later, le, le', _, _) = (
    elim (Bool-cases (some_suffix (glob ps) s)) [
      | inl t ↦ a ∙ some_suffix-here (glob star) matched (same ∙ t) ∙ sym t
      | inr f ↦ elim (Bool-cases (some_suffix (glob star) matched)) [
        | inl t ↦ a ∙ t ∙ sym (some_suffix-twice (glob ps) s (later t))
        | inr n ↦ a ∙ n ∙ sym f
      ]
    ],
    refl,
    λ g. g,
    omega arith,
    omega (arith, le, le'),
    lt,
    plain,
  )

  -- The text does not match here: the star takes one more character, or there is plain match.
  retry-glob :
      (fuel m c : ℕ) (p cs : Text) (back : Star) (next : Text → Text → Star → Option Bool)
      → ((m' : ℕ) (p' s' : Text) (b : Star)
          → Meets m' p' s' b
          → elem 42 s' ≡ false
          → Fuelled fuel m' p'
          → next p' s' b ≡ some answer)
      → glob p (c ∷ cs) ≡ false
      → Meets m p (c ∷ cs) back
      → Fuelled (suc fuel) m p
      → retry back next ≡ some answer
  unfolding some_suffix elem
  retry-glob fuel m c p cs none next ih miss h f = ap some (sym (h.0 ∙ miss))
  retry-glob fuel m c p cs (some (star, [])) next ih miss h f = absurd (omega (arith, h))
  retry-glob fuel zero c p cs (some (star, d ∷ matched)) next ih miss h f =
      absurd (omega (arith, h))
  retry-glob fuel (suc m) c p cs (some (star, d ∷ matched)) next ih miss h f =
      let (a, same, later, le, le', lt, plain) = h in
      let gone : glob star (d ∷ matched) ≡ false = same ∙ miss in
      let plain' : elem 42 matched ≡ false = ground (arith, plain) in
      ih m star matched (some (star, matched))
        (ground (arith, a, gone), refl, λ g. g, omega arith, omega (arith, le'), lt, plain') plain'
        (omega (arith, f, lt), lt)

  loop-glob :
      (fuel m : ℕ) (p s : Text) (back : Star)
      → Meets m p s back
      → elem 42 s ≡ false
      → Fuelled fuel m p
      → match_loop fuel p s back ≡ some answer
  unfolding match_loop glob
  loop-glob zero m p s back h plain f = absurd (omega (arith, f))
  loop-glob (suc fuel) m p [] back h plain f = ap some (only_stars-glob p ∙ Meets-end m p back h)
  loop-glob (suc fuel) m [] (c ∷ cs) back h plain f =
      retry-glob fuel m c [] cs back (match_loop fuel) (loop-glob fuel) refl h f
  loop-glob (suc fuel) m (x ∷ ps) (c ∷ cs) back h plain f =
      let (char, rest) = no_star c cs plain in
      elim (Bool-cases (nat_eq x 63 || nat_eq x c)) [
        | inl takes ↦ rw takes (
            loop-glob fuel m ps cs back
              (Meets-literal m x c ps cs back (ground (arith, takes, char)) takes h) rest
              (omega (arith, f), omega (arith, f)))
        | inr apart ↦ elim (Bool-cases (nat_eq x 42)) [
          | inl star ↦
              let saved =
                subst (λ y. Meets m (y ∷ ps) (c ∷ cs) back) ((nat_eq_iff x 42).0 star) h in
              rw (apart, star)
                (loop-glob fuel m ps (c ∷ cs) (some (ps, c ∷ cs))
                  (Meets-star m ps (c ∷ cs) back plain (omega (arith, f)) saved) plain
                  (omega (arith, f), omega (arith, f)))
          | inr other ↦
              rw (apart, other)
                (retry-glob fuel m c (x ∷ ps) cs back (match_loop fuel) (loop-glob fuel)
                  (ground (arith, apart, other)) h f)
        ]
      ]

plain-glob :
    (pattern input : Text)
    → elem 42 input ≡ false
    → wildcard_match pattern input ≡ some (glob pattern input)
unfolding wildcard_match
plain-glob pattern input plain =
    loop-glob (glob pattern input) (suc (length pattern)) _ (length input) pattern input none
      (refl, omega arith) plain (omega arith, omega arith)

-- The loop ends, whatever the text has: a round takes a character of the pattern, or a character of what is
-- left for the last star.
module _ (k : ℕ) where
  abbrev Fits : ℕ → Text → Star → Type 0
  Fits m s none = length s ≤ m
  Fits m s (some (star, matched)) =
      (length s ≤ length matched) × (length matched ≤ m) × (length star < k)

  Fits-tail : (m c : ℕ) (cs : Text) (back : Star) → Fits m (c ∷ cs) back → Fits m cs back
  Fits-tail m c cs none h = omega (arith, h)
  Fits-tail m c cs (some (star, matched)) (le, le', lt) = (omega (arith, le), le', lt)

  Fits-length : (m : ℕ) (s : Text) (back : Star) → Fits m s back → length s ≤ m
  Fits-length m s none h = h
  Fits-length m s (some (star, matched)) h = omega (arith, h)

  -- The loop ends in an answer.
  abbrev Answers : Option Bool → Type 0
  Answers r = (b : Bool) × (r ≡ some b)

  abbrev Rounds : ℕ → ℕ → Text → Type 0
  Rounds fuel m p = (m * k + length p < fuel) × (length p < k)

  retry-Answers :
      (fuel m c : ℕ) (p cs : Text) (back : Star) (next : Text → Text → Star → Option Bool)
      → ((m' : ℕ) (p' s' : Text) (b : Star)
          → Fits m' s' b
          → Rounds fuel m' p'
          → Answers (next p' s' b))
      → Fits m (c ∷ cs) back
      → Rounds (suc fuel) m p
      → Answers (retry back next)
  retry-Answers fuel m c p cs none next ih h f = (false, refl)
  retry-Answers fuel m c p cs (some (star, [])) next ih h f = absurd (omega (arith, h))
  retry-Answers fuel zero c p cs (some (star, d ∷ matched)) next ih h f = absurd (omega (arith, h))
  retry-Answers fuel (suc m) c p cs (some (star, d ∷ matched)) next ih (le, le', lt) f =
      ih m star matched (some (star, matched)) (omega arith, omega (arith, le'), lt)
        (omega (arith, f, lt), lt)

  loop-Answers :
      (fuel m : ℕ) (p s : Text) (back : Star)
      → Fits m s back
      → Rounds fuel m p
      → Answers (match_loop fuel p s back)
  unfolding match_loop
  loop-Answers zero m p s back h f = absurd (omega (arith, f))
  loop-Answers (suc fuel) m p [] back h f = (only_stars p, refl)
  loop-Answers (suc fuel) m [] (c ∷ cs) back h f =
      retry-Answers fuel m c [] cs back (match_loop fuel) (loop-Answers fuel) h f
  loop-Answers (suc fuel) m (x ∷ ps) (c ∷ cs) back h f =
      elim (Bool-cases (nat_eq x 63 || nat_eq x c)) [
        | inl takes ↦ rw takes (
            loop-Answers fuel m ps cs back (Fits-tail m c cs back h)
              (omega (arith, f), omega (arith, f)))
        | inr apart ↦ elim (Bool-cases (nat_eq x 42)) [
          | inl star ↦
              rw (apart, star)
                (loop-Answers fuel m ps (c ∷ cs) (some (ps, c ∷ cs))
                  (omega arith, Fits-length m (c ∷ cs) back h, omega (arith, f))
                  (omega (arith, f), omega (arith, f)))
          | inr other ↦
              rw (apart, other)
                (retry-Answers fuel m c (x ∷ ps) cs back (match_loop fuel) (loop-Answers fuel) h f)
        ]
      ]

-- For every pattern and every text the loop ends within its fuel with an answer; and the text has a `*`, or
-- the answer is whether the pattern matches the text.
pub wildcard_match-glob :
    (pattern input : Text)
    → (b : Bool) × (wildcard_match pattern input ≡ some b)
      × ((elem 42 input ≡ true) ⊎ (b ≡ glob pattern input))
unfolding wildcard_match
wildcard_match-glob pattern input = elim (Bool-cases (elem 42 input)) [
  | inl starred ↦
      let (b, e) =
        loop-Answers (suc (length pattern)) _ (length input) pattern input none (omega arith)
          (omega arith, omega arith) in
      (b, e, inl starred)
  | inr plain ↦ (glob pattern input, plain-glob pattern input plain, inr refl)
]

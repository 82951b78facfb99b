-- ===== src/Text/Regex.antt =====
-- The part of Python's `re` that the patterns of the code use, as a backtracking matcher: the
-- matches of a pattern from a place, in the order in which `re` tries them.
use Prim.Native.String.{String}
use streaming_rag.Prelude.{
  ℕ, zero, suc, ◌+◌, ◌-◌, Bool, true, false, not, ◌&&◌, ◌||◌, Option, none, some, List, [], ◌∷◌,
  ◌++◌, Char, code, if◌then◌else◌, eqb, leb, is_some,
}

pub data Regex : Type 0 where
  empty : Regex
  one : (Char → Bool) → Regex
  seq : Regex → Regex → Regex
  alt : Regex → Regex → Regex
  -- greedy `*`; the body takes at least one character
  star : Regex → Regex
  -- `*?`, of the same kind
  lazy : Regex → Regex
  -- `$`, on a text without line ends
  at_end : Regex
  -- `\b`, for the word test given
  boundary : (Char → Bool) → Regex
  -- `(?<=[…])`
  behind : (Char → Bool) → Regex
  group : Regex → Regex

-- A place in a text: the character before it, what follows, how many characters were passed, and
-- the groups captured on the way.
pub record Place : Type 0 where
  pub before : Option Char
  pub rest : String
  pub passed : ℕ
  pub groups : List String

abbrev pub count_chars : String → ℕ
count_chars String.[] = 0
count_chars (String.◌∷◌ c s) = suc (count_chars s)

abbrev pub take_chars : ℕ → String → String
take_chars zero s = String.[]
take_chars (suc n) String.[] = String.[]
take_chars (suc n) (String.◌∷◌ c s) = String.◌∷◌ c (take_chars n s)

abbrev flat_map : (Place → List Place) → List Place → List Place
flat_map f [] = []
flat_map f (p ∷ ps) = f p ++ flat_map f ps

-- Greedy repetition: as many rounds as can be first.
abbrev repeat : ℕ → (Place → List Place) → Place → List Place
repeat zero f p = p ∷ []
repeat (suc fuel) f p = flat_map (repeat fuel f) (f p) ++ (p ∷ [])

-- The same rounds, as few as can be first.
abbrev repeat_lazily : ℕ → (Place → List Place) → Place → List Place
repeat_lazily zero f p = p ∷ []
repeat_lazily (suc fuel) f p = p ∷ flat_map (repeat_lazily fuel f) (f p)

abbrev is_done : String → Bool
is_done String.[] = true
is_done (String.◌∷◌ c s) = false

abbrev step_one : (Char → Bool) → Place → String → List Place
step_one test p String.[] = []
step_one test p (String.◌∷◌ c s) =
    if test c then record p { before = some c; rest = s; passed = suc p.passed } ∷ [] else []

abbrev holds_at : (Char → Bool) → Option Char → Bool
holds_at test none = false
holds_at test (some c) = test c

abbrev first_of_text : String → Option Char
first_of_text String.[] = none
first_of_text (String.◌∷◌ c s) = some c

abbrev differ : Bool → Bool → Bool
differ true b = not b
differ false b = b

-- Adds what a group matched, from `p` on.
abbrev captured : Place → List Place → List Place
captured p [] = []
captured p (q ∷ qs) =
    record q { groups = q.groups ++ (take_chars (q.passed - p.passed) p.rest ∷ []) } ∷ captured p qs

unfoldable pub match_at : Regex → Place → List Place
match_at empty p = p ∷ []
match_at (one test) p = step_one test p p.rest
match_at (seq a b) p = flat_map (match_at b) (match_at a p)
match_at (alt a b) p = match_at a p ++ match_at b p
match_at (star a) p = repeat (count_chars p.rest) (match_at a) p
match_at (lazy a) p = repeat_lazily (count_chars p.rest) (match_at a) p
match_at at_end p = if is_done p.rest then p ∷ [] else []
match_at (boundary word) p =
    if differ (holds_at word p.before) (holds_at word (first_of_text p.rest)) then p ∷ [] else []
match_at (behind test) p = if holds_at test p.before then p ∷ [] else []
match_at (group a) p = captured p (match_at a p)

abbrev pub first_match : List Place → Option Place
first_match [] = none
first_match (p ∷ ps) = some p

abbrev pub start_of : String → Place
start_of s = record { before = none; rest = s; passed = 0; groups = [] }

-- `pattern.search(text)`: the place where the leftmost match starts, and where it ends.
unfoldable pub search_from : Regex → ℕ → Option Char → String → Option (ℕ × Place)
unfolding match_at
search_from r i before String.[] =
    elim (first_match
      (match_at r (record { before = before; rest = String.[]; passed = i; groups = [] }))) [
        | none ↦ none
        | some q ↦ some (i, q)
      ]
search_from r i before (String.◌∷◌ c s) =
    let later = search_from r (suc i) (some c) s in
    elim (first_match
      (match_at r (record { before = before; rest = String.◌∷◌ c s; passed = i; groups = [] }))) [
        | none ↦ later
        | some q ↦ some (i, q)
      ]

unfoldable pub search_text : Regex → String → Option (ℕ × Place)
unfolding search_from
search_text r s = search_from r 0 none s

-- `bool(pattern.search(text))`
unfoldable pub found : Regex → String → Bool
unfolding search_text
found r s = is_some (search_text r s)

-- The groups of all matches, left to right and apart: `pattern.findall(text)`. `skip` counts the
-- characters of the match before that are still to be passed.
unfoldable pub find_from : Regex → ℕ → ℕ → Option Char → String → List (List String)
unfolding match_at
find_from r skip i before String.[] = []
find_from r (suc skip) i before (String.◌∷◌ c s) = find_from r skip (suc i) (some c) s
find_from r zero i before (String.◌∷◌ c s) =
    let next = λ (skip : ℕ). find_from r skip (suc i) (some c) s in
    elim (first_match
      (match_at r (record { before = before; rest = String.◌∷◌ c s; passed = i; groups = [] }))) [
        | none ↦ next 0
        | some q ↦ q.groups ∷ next (q.passed - i - 1)
      ]

unfoldable pub find_all : Regex → String → List (List String)
unfolding find_from
find_all r s = find_from r 0 0 none s

-- `pattern.finditer(text)`: where each match starts and ends.
unfoldable pub spans_from : Regex → ℕ → ℕ → Option Char → String → List (ℕ × ℕ)
unfolding match_at
spans_from r skip i before String.[] = []
spans_from r (suc skip) i before (String.◌∷◌ c s) = spans_from r skip (suc i) (some c) s
spans_from r zero i before (String.◌∷◌ c s) =
    let next = λ (skip : ℕ). spans_from r skip (suc i) (some c) s in
    elim (first_match
      (match_at r (record { before = before; rest = String.◌∷◌ c s; passed = i; groups = [] }))) [
        | none ↦ next 0
        | some q ↦ (i, q.passed) ∷ next (q.passed - i - 1)
      ]

unfoldable pub find_spans : Regex → String → List (ℕ × ℕ)
unfolding spans_from
find_spans r s = spans_from r 0 0 none s

abbrev pub drop_chars : ℕ → String → String
drop_chars zero s = s
drop_chars (suc n) String.[] = String.[]
drop_chars (suc n) (String.◌∷◌ c s) = drop_chars n s

-- `s[a:b]`
abbrev pub slice_chars : ℕ → ℕ → String → String
slice_chars a b s = take_chars (b - a) (drop_chars a s)

-- `pattern.split(text)`, from `a` on
abbrev pub split_spans : ℕ → List (ℕ × ℕ) → String → List String
split_spans a [] s = drop_chars a s ∷ []
split_spans a ((b, c) ∷ spans) s = slice_chars a b s ∷ split_spans c spans s

-- `pattern.match(text)`: the groups of a match at the start.
unfoldable pub match_start : Regex → String → Option (List String)
unfolding match_at
match_start r s = elim (first_match (match_at r (start_of s))) [
  | none ↦ none
  | some q ↦ some q.groups
]

-- `r{0,n}`, greedy
abbrev pub up_to : ℕ → Regex → Regex
up_to zero r = empty
up_to (suc n) r = alt (seq r (up_to n r)) empty

-- Characters and words of a pattern under `re.IGNORECASE`: letters by their small form, with the
-- four letters outside ASCII that `re` counts as `i`, `s` and `k`.
abbrev pub fold_case : ℕ → ℕ
fold_case c =
    if leb b'A' c && leb c b'Z'
    then c + 32
    else if eqb c 0x130 || eqb c 0x131
    then b'i'
    else if eqb c 0x17f
    then b's'
    else if eqb c 0x212a
    then b'k'
    else c

abbrev pub char_is : Char → Char → Bool
char_is a c = eqb (code a) (code c)

abbrev pub char_folds_to : Char → Char → Bool
char_folds_to a c = eqb (fold_case (code a)) (fold_case (code c))

-- A literal text in a pattern.
abbrev pub word_by : (Char → Char → Bool) → String → Regex
word_by same String.[] = empty
word_by same (String.◌∷◌ c s) = seq (one (same c)) (word_by same s)

abbrev pub any_of : List Regex → Regex
any_of [] = one (λ _. false)
any_of (r ∷ []) = r
any_of (r ∷ s ∷ rs) = alt r (any_of (s ∷ rs))

abbrev pub plus : Regex → Regex
plus r = seq r (star r)

abbrev pub optional : Regex → Regex
optional r = alt r empty

-- ===== src/Text.antt =====
-- What the code uses of Python's `str`: stripping, joining, order. Letters and blanks outside the
-- code's own patterns are Python's Unicode tables, a parameter.
pub mod Regex
use Prim.Native.Nat.{compare as compare_ℕ}
use Prim.Native.String.{String, compare, ◌++◌ as str_append}
use text.Mathlib.Text.{is_le}
use streaming_rag.Prelude.{
  ℕ, zero, suc, Bool, true, false, List, [], ◌∷◌, Char, code, if◌then◌else◌, ◌≡◌,
}

-- `\w` and `\s` of `re` (`str.isspace` too), and `str.lower` of one character.
pub record Unicode : Type 0 where
  pub is_word : Char → Bool
  pub is_space : Char → Bool
  pub lower : Char → Char

abbrev pub reverse_onto : String → String → String
reverse_onto String.[] acc = acc
reverse_onto (String.◌∷◌ c s) acc = reverse_onto s (String.◌∷◌ c acc)

module _ ⦃u : Unicode⦄ where
  unfoldable pub lstrip : String → String
  lstrip String.[] = String.[]
  lstrip (String.◌∷◌ c s) = let rest = lstrip s in if u.is_space c then rest else String.◌∷◌ c s

  -- `s.strip()`
  unfoldable pub strip : String → String
  unfolding lstrip
  strip s = reverse_onto (lstrip (reverse_onto (lstrip s) "")) ""

  -- `s.lower()`, one character at a time
  unfoldable pub lower_text : String → String
  lower_text String.[] = String.[]
  lower_text (String.◌∷◌ c s) = String.◌∷◌ (u.lower c) (lower_text s)

abbrev pub is_blank : String → Bool
is_blank String.[] = true
is_blank (String.◌∷◌ c s) = false

-- `sep.join(parts)`
unfoldable pub join : String → List String → String
join sep [] = ""
join sep (s ∷ []) = s
join sep (s ∷ t ∷ ts) = str_append s (str_append sep (join sep (t ∷ ts)))

-- `a <= b` on texts: by code points
abbrev pub text_leb : String → String → Bool
text_leb a b = is_le (compare a b)

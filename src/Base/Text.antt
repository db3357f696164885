-- ===== src/Base/Text.antt =====
-- The functions of Go's `strings` package that the operator calls, on texts of characters.
use Prim.Native.Nat.{ℕ, suc, zero, ◌-◌}
use Prim.Native.Char.{Char, code}
use Prim.Native.String.{String, ◌++◌, count}
use mathlib.Core.Bool.{Bool, true, false, ◌&&◌, ◌||◌}
use mathlib.Core.Option.{Option, none, some}
use mathlib.Core.List.{List, [], ◌∷◌}
use magma_operator.Base.Bools.{◌==◌, nat_eq, leb, if◌then◌else◌}

abbrev pub char_eq : Char → Char → Bool
char_eq c d = nat_eq (code c) (code d)

-- `strings.CutPrefix(s, p)`: what follows the prefix.
unfoldable pub cut_prefix : String → String → Option String
cut_prefix s String.[] = some s
cut_prefix String.[] (String.◌∷◌ d p) = none
cut_prefix (String.◌∷◌ c s) (String.◌∷◌ d p) =
    let rest = cut_prefix s p in if char_eq c d then rest else none

-- `strings.HasPrefix(s, p)`
unfoldable pub has_prefix : String → String → Bool
unfolding cut_prefix
has_prefix s p = elim (cut_prefix s p) [ none ↦ false | some _ ↦ true ]

-- `strings.Contains(s, t)`
unfoldable pub contains : String → String → Bool
unfolding has_prefix
contains String.[] t = has_prefix "" t
contains (String.◌∷◌ c s) t = has_prefix (String.◌∷◌ c s) t || contains s t

-- The loop of `strings.ReplaceAll(s, old, new)`, `old` not empty; `skip` characters of the last
-- match are still to be dropped.
unfoldable pub replace_from : ℕ → String → String → String → String
replace_from skip String.[] old new = ""
replace_from (suc skip) (String.◌∷◌ c s) old new = replace_from skip s old new
replace_from zero (String.◌∷◌ c s) old new = elim (has_prefix (String.◌∷◌ c s) old) [
  | true ↦ new ++ replace_from (count old - 1) s old new
  | false ↦ String.◌∷◌ c (replace_from zero s old new)
]

unfoldable pub replace_all : String → String → String → String
unfolding replace_from has_prefix
replace_all = replace_from zero

-- The first pair whose old text stands at the start of a text.
unfoldable pub find_pair : List (String × String) → String → Option (String × String)
unfolding has_prefix
find_pair [] s = none
find_pair ((old, new) ∷ ps) s = if has_prefix s old then some (old, new) else find_pair ps s

-- The loop of a `strings.Replacer`: at each place of the text the first old text, in the order of
-- the arguments, that stands there is replaced, and the loop goes on behind it.
unfoldable pub replace_pairs_from : ℕ → List (String × String) → String → String
unfolding find_pair
replace_pairs_from skip pairs String.[] = ""
replace_pairs_from (suc skip) pairs (String.◌∷◌ c s) = replace_pairs_from skip pairs s
replace_pairs_from zero pairs (String.◌∷◌ c s) = elim (find_pair pairs (String.◌∷◌ c s)) [
  | none ↦ String.◌∷◌ c (replace_pairs_from zero pairs s)
  | some (old, new) ↦ new ++ replace_pairs_from (count old - 1) pairs s
]

-- `strings.NewReplacer(pairs...).Replace(s)`, the old texts not empty
unfoldable pub replace_pairs : List (String × String) → String → String
unfolding replace_pairs_from
replace_pairs = replace_pairs_from zero

-- The character at a place of a text, or `c` past its end.
char_or : Char → String → ℕ → Char
char_or c String.[] n = c
char_or c (String.◌∷◌ d s) zero = d
char_or c (String.◌∷◌ d s) (suc n) = char_or c s n

-- `unicode.ToLower` on ASCII; other characters are left as they are.
lower_char : Char → Char
unfolding char_or
lower_char c =
    if leb b'A' (code c) && leb (code c) b'Z'
    then char_or c "abcdefghijklmnopqrstuvwxyz" (code c - b'A')
    else c

-- `strings.ToLower(s)`
unfoldable pub to_lower : String → String
unfolding lower_char
to_lower String.[] = ""
to_lower (String.◌∷◌ c s) = String.◌∷◌ (lower_char c) (to_lower s)

-- `strings.EqualFold(s, t)`
unfoldable pub equal_fold : String → String → Bool
unfolding to_lower
equal_fold s t = to_lower s == to_lower t

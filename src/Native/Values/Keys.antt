-- ===== src/Native/Values/Keys.antt =====
-- Escaping a selector's key for the map of values, and undoing it: `escapeValueKey` and
-- `selectorValues` of internal/controller/native_runner.go.
use Prim.Native.String.append
use Prim.Native.Char.{Char, code}
use text.Mathlib.TextEquality.{Char-path}
use magma_operator.Base.{
  Bool, Bool-cases, String, ap, arith, cut_prefix, false, find_pair, has_prefix, if◌then◌else◌, inl,
  inr, nat_eq, not, refl, replace_all, replace_from, replace_pairs, replace_pairs_from, true, ◌&&◌,
  ◌<>◌, ◌∙◌, ◌≡◌,
}
use magma_operator.Native.Values.{escape_value_key, unescape_value_key}

-- A key without a backslash
unfoldable pub has_no_backslash : String → Bool
has_no_backslash String.[] = true
has_no_backslash (String.◌∷◌ c s) = not (nat_eq (code c) 92) && has_no_backslash s

abbrev dot : Char
dot = "."

abbrev backslash : Char
backslash = "\\"

-- A backslash before each dot
abbrev dotted : String → String
dotted String.[] = ""
dotted (String.◌∷◌ c s) =
    if nat_eq (code c) 46
    then String.◌∷◌ backslash (String.◌∷◌ dot (dotted s))
    else String.◌∷◌ c (dotted s)

two_chars : (t : String) → "\\." <> t ≡ String.◌∷◌ backslash (String.◌∷◌ dot t)
two_chars t =
    append.cons backslash "." t
    ∙ ap (String.◌∷◌ backslash) (append.cons dot "" t ∙ ap (String.◌∷◌ dot) (append.nil t))

escape-dotted : (s : String) → has_no_backslash s ≡ true → escape_value_key s ≡ dotted s
unfolding has_no_backslash escape_value_key replace_pairs replace_pairs_from find_pair has_prefix
    cut_prefix
escape-dotted String.[] free = refl
escape-dotted (String.◌∷◌ c s) free =
    let ih = escape-dotted s (ground arith) in
    let plain : nat_eq (code c) 92 ≡ false = ground arith in
    elim (Bool-cases (nat_eq (code c) 46)) [
      | inl is_dot ↦
          rw
            (
              escape_value_key, replace_pairs, replace_pairs_from, find_pair, has_prefix,
              cut_prefix, plain, is_dot,
            )
            (two_chars _ ∙ ap (λ t. String.◌∷◌ backslash (String.◌∷◌ dot t)) ih)
      | inr no_dot ↦
          rw
            (
              escape_value_key, replace_pairs, replace_pairs_from, find_pair, has_prefix,
              cut_prefix, plain, no_dot,
            )
            (ap (String.◌∷◌ c) ih)
    ]

-- The first replacement finds nothing: no two backslashes follow each other.
no_double-dotted :
    (s : String) → has_no_backslash s ≡ true → replace_from 0 (dotted s) "\\\\." "." ≡ dotted s
unfolding has_no_backslash replace_from has_prefix cut_prefix
no_double-dotted String.[] free = refl
no_double-dotted (String.◌∷◌ c s) free =
    let ih = no_double-dotted s (ground arith) in
    let plain : nat_eq (code c) 92 ≡ false = ground arith in
    elim (Bool-cases (nat_eq (code c) 46)) [
      | inl is_dot ↦ rw (is_dot) (ap (λ t. String.◌∷◌ backslash (String.◌∷◌ dot t)) ih)
      | inr no_dot ↦ rw (no_dot, replace_from, has_prefix, cut_prefix, plain) (ap (String.◌∷◌ c) ih)
    ]

-- The second one takes the backslashes away.
undo-dotted : (s : String) → has_no_backslash s ≡ true → replace_from 0 (dotted s) "\\." "." ≡ s
unfolding has_no_backslash replace_from has_prefix cut_prefix
undo-dotted String.[] free = refl
undo-dotted (String.◌∷◌ c s) free =
    let ih = undo-dotted s (ground arith) in
    let plain : nat_eq (code c) 92 ≡ false = ground arith in
    elim (Bool-cases (nat_eq (code c) 46)) [
      | inl is_dot ↦
          (let same : code dot ≡ code c = ground arith in
            rw is_dot (
              append.cons dot "" _
              ∙ (λ i. String.◌∷◌ (Char-path dot c same i) ((append.nil _ ∙ ih) i))))
      | inr no_dot ↦ rw (no_dot, replace_from, has_prefix, cut_prefix, plain) (ap (String.◌∷◌ c) ih)
    ]

-- A selector's key without a backslash, as every label of Kubernetes is, comes back when the key of
-- the map of values that `escapeValueKey` makes of it is read by `selectorValues`.
pub unescape_value_key-escape_value_key :
    (key : String) → has_no_backslash key ≡ true → unescape_value_key (escape_value_key key) ≡ key
unfolding unescape_value_key replace_all
unescape_value_key-escape_value_key key free =
    rw (escape-dotted key free) (rw (no_double-dotted key free) (undo-dotted key free))

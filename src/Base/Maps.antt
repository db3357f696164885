-- ===== src/Base/Maps.antt =====
-- Go's `map[string]V` as an association list with distinct keys. A nil map reads like an empty one.
use mathlib.Core.Bool.{true, false}
use mathlib.Core.Option.{Option, none, some}
use mathlib.Core.List.{List, [], ◌∷◌}
use Prim.Native.String.{String}
use mathlib.Core.Path.{◌≡◌, refl}
use native.Mathlib.Omega.{arith}
use text.Mathlib.TextEquality.{eq_iff}
use magma_operator.Base.Bools.{◌==◌, if◌then◌else◌}

abbrev pub Dict {ℓ} : Type ℓ → Type ℓ
Dict V = List (String × V)

module _ {ℓ} {V : Type ℓ} where
  -- `v, ok := m[k]`
  unfoldable pub lookup : String → Dict V → Option V
  lookup k [] = none
  lookup k ((j, v) ∷ m) = if j == k then some v else lookup k m

  -- `m[k] = v`
  unfoldable pub insert : String → V → Dict V → Dict V
  insert k v [] = (k, v) ∷ []
  insert k v ((j, w) ∷ m) = if j == k then (k, v) ∷ m else (j, w) ∷ insert k v m

  -- `delete(m, k)`
  unfoldable pub remove : String → Dict V → Dict V
  remove k [] = []
  remove k ((j, w) ∷ m) = let rest = remove k m in if j == k then rest else (j, w) ∷ rest

  -- `maps.Copy(m, n)`
  unfoldable pub copy : Dict V → Dict V → Dict V
  copy m [] = m
  copy m ((k, v) ∷ n) = insert k v (copy m n)

  -- What a write leaves under the key that is asked for.
  pub lookup-insert :
      (written asked : String) (v : V) (m : Dict V)
      → lookup asked (insert written v m) ≡ (if written == asked then some v else lookup asked m)
  unfolding lookup insert
  lookup-insert written asked v [] = refl
  lookup-insert written asked v ((head, w) ∷ rest) =
      let ih = lookup-insert written asked v rest in
      ground (arith, ih, eq_iff written asked, eq_iff head asked, eq_iff head written)

  pub lookup-remove :
      (k j : String) (m : Dict V) → lookup j (remove k m) ≡ (if k == j then none else lookup j m)
  unfolding lookup remove
  lookup-remove k j [] = ground arith
  lookup-remove k j ((i, w) ∷ m) =
      ground (arith, eq_iff k j, eq_iff i k, eq_iff i j, lookup-remove k j m)

-- What `copy` leaves under a key: the source's value if it has one.
pub lookup-copy {ℓ} :
    {V : Type ℓ} (j : String) (m n : Dict V)
    → lookup j (copy m n) ≡ elim (lookup j n) [ none ↦ lookup j m | some v ↦ some v ]
unfolding copy lookup
lookup-copy j m [] = refl
lookup-copy j m ((k, v) ∷ n) = rw lookup-insert (ground (arith, lookup-copy j m n))

-- `m[k]`: the empty text where the key is missing.
unfoldable pub entry : String → Dict String → String
unfolding lookup
entry k m = elim (lookup k m) [ none ↦ "" | some v ↦ v ]

pub entry-lookup : (k v : String) (m : Dict String) → lookup k m ≡ some v → entry k m ≡ v
unfolding entry
entry-lookup k v m found = rw (found, entry) refl

pub entry-insert :
    (k j v : String) (m : Dict String) → entry j (insert k v m) ≡ (if k == j then v else entry j m)
unfolding entry
entry-insert k j v m = ground (arith, lookup-insert k j v m)

pub entry-remove :
    (k j : String) (m : Dict String) → entry j (remove k m) ≡ (if k == j then "" else entry j m)
unfolding entry
entry-remove k j m = ground (arith, lookup-remove k j m)

-- Only a key that is there has a value that is not empty.
pub lookup-entry :
    (k v : String) (m : Dict String)
    → (entry k m == v) ≡ true
    → (v == "") ≡ false
    → lookup k m ≡ some v
unfolding entry
lookup-entry k v m = by_cases (lookup k m)
  where
    by_cases :
        (o : Option String)
        → ((elim o [ none ↦ "" | some w ↦ w ]) == v) ≡ true
        → (v == "") ≡ false
        → o ≡ some v
    by_cases none p q = ground (arith, eq_iff "" v)
    by_cases (some w) p q = ground (arith, eq_iff w v)

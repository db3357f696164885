-- ===== src/Orc8r/SecretHash.antt =====
-- The hash of a secret's contents: `secretDataHash` of
-- internal/controller/magmaorc8r_controller.go.
pub mod Order
pub mod Sorted
pub mod Fields
use Prim.Native.Char.{code}
use magma_operator.Base.{
  Bool, Dict, List, String, [], char_eq, entry, false, if◌then◌else◌, ltb, true, ◌<>◌, ◌∷◌,
}
use magma_operator.Kube.Library.{Library}

-- `s < t` on texts, which goes by their bytes, and so by their code points.
unfoldable pub text_lt : String → String → Bool
text_lt String.[] String.[] = false
text_lt String.[] (String.◌∷◌ d t) = true
text_lt (String.◌∷◌ c s) String.[] = false
text_lt (String.◌∷◌ c s) (String.◌∷◌ d t) =
    let rest = text_lt s t in if char_eq c d then rest else ltb (code c) (code d)

-- `slices.Sort` on texts
unfoldable pub insert_text : String → List String → List String
insert_text s [] = s ∷ []
insert_text s (t ∷ ts) = let rest = insert_text s ts in if text_lt t s then t ∷ rest else s ∷ t ∷ ts

unfoldable pub sort_texts : List String → List String
unfolding insert_text
sort_texts [] = []
sort_texts (s ∷ ss) = insert_text s (sort_texts ss)

-- The loop over the keys of a map
unfoldable pub keys : Dict String → List String
keys [] = []
keys ((k, v) ∷ m) = k ∷ keys m

-- The loop that collects what is hashed: each key and its value, a zero byte behind both.
unfoldable pub hash_input : Dict String → List String → String
hash_input m [] = ""
hash_input m (k ∷ ks) = k <> "\0" <> entry k m <> "\0" <> hash_input m ks

module _ (L : Library) where
  -- `secretDataHash`
  unfoldable pub secret_data_hash : Dict String → String
  secret_data_hash m = L.sha256_hex (hash_input m (sort_texts (keys m)))

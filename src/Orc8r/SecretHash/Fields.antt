-- ===== src/Orc8r/SecretHash/Fields.antt =====
-- What `secretDataHash` of internal/controller/magmaorc8r_controller.go hashes determines the keys
-- and values, where they have no zero byte.
use Prim.Native.String.append
use Prim.Native.Char.{Char, code}
use magma_operator.Base.{
  All, Bool, Dict, List, String, [], ap, arith, entry, false, if◌then◌else◌, nat_eq, not, refl,
  true, ◌&&◌, ◌<>◌, ◌∙◌, ◌∷◌, ◌≡◌,
}
use magma_operator.Orc8r.SecretHash.{hash_input}

-- A character in front of the first of some fields.
abbrev onto_first : Char → List String → List String
onto_first c [] = String.◌∷◌ c "" ∷ []
onto_first c (f ∷ fs) = String.◌∷◌ c f ∷ fs

-- The fields of a text between its zero bytes, `bytes.Split(s, []byte{0})`.
unfoldable pub split_fields : String → List String
split_fields String.[] = "" ∷ []
split_fields (String.◌∷◌ c s) =
    let rest = split_fields s in if nat_eq (code c) 0 then "" ∷ rest else onto_first c rest

-- A text without a zero byte.
unfoldable pub is_nul_free : String → Bool
is_nul_free String.[] = true
is_nul_free (String.◌∷◌ c s) = not (nat_eq (code c) 0) && is_nul_free s

-- Each key is followed by its value; what is behind the last zero byte is empty.
unfoldable pub key_value_fields : Dict String → List String → List String
key_value_fields m [] = "" ∷ []
key_value_fields m (k ∷ ks) = k ∷ entry k m ∷ key_value_fields m ks

abbrev nul : Char
nul = "\0"

nul_append : (s : String) → "\0" <> s ≡ String.◌∷◌ nul s
nul_append s = append.cons nul "" s ∙ ap (String.◌∷◌ nul) (append.nil s)

pub split_fields-field :
    (f s : String) → is_nul_free f ≡ true → split_fields (f <> "\0" <> s) ≡ f ∷ split_fields s
unfolding split_fields is_nul_free
split_fields-field String.[] s free = rw (append.nil ("\0" <> s), nul_append s) refl
split_fields-field (String.◌∷◌ c f) s free =
    let ih = split_fields-field f s (ground arith) in
    let nonzero : nat_eq (code c) 0 ≡ false = ground arith in
    rw (append.cons c f ("\0" <> s), ih, nonzero) refl

-- The keys and values of a secret have no zero byte, which Kubernetes asks of the keys, and PEM
-- texts are.
abbrev pub AreNulFree : Dict String → List String → Type 0
AreNulFree m ks = All (λ k. (is_nul_free k ≡ true) × (is_nul_free (entry k m) ≡ true)) ks

-- What is hashed of a map can be read back: where no key and no value has a zero byte, its fields
-- between zero bytes are each key of the list with its value, in turn, and an empty one behind the
-- last.
pub split_fields-hash_input :
    (m : Dict String) (ks : List String)
    → AreNulFree m ks
    → split_fields (hash_input m ks) ≡ key_value_fields m ks
unfolding hash_input split_fields key_value_fields
split_fields-hash_input m [] free = refl
split_fields-hash_input m (k ∷ ks) free =
    split_fields-field k _ free.0.0
    ∙ ap (λ fs. k ∷ fs)
        (split_fields-field (entry k m) _ free.0.1
          ∙ ap (λ fs. entry k m ∷ fs) (split_fields-hash_input m ks free.1))

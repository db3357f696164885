-- ===== src/Orc8r/SecretHash/Sorted.antt =====
-- `secretDataHash` of internal/controller/magmaorc8r_controller.go does not depend on the order in
-- which the map is walked.
use magma_operator.Base.{
  All, Bool, Bool-cases, Dict, List, Option, String, [], ap, arith, entry, eq_iff, false,
  if◌then◌else◌, inl, inr, lookup, none, not, refl, some, sym, true, ◌&&◌, ◌<>◌, ◌==◌, ◌||◌, ◌∙◌,
  ◌∷◌, ◌≡◌,
}
use magma_operator.Kube.Library.{Library}
use magma_operator.Orc8r.SecretHash.{
  hash_input, insert_text, keys, secret_data_hash, sort_texts, text_lt,
}
use magma_operator.Orc8r.SecretHash.Order.{text_lt_irrefl, text_lt-total, text_lt_trans}

-- Whether a text is in a list.
unfoldable pub has_key : String → List String → Bool
has_key s [] = false
has_key s (t ∷ ts) = t == s || has_key s ts

-- A map has each key once.
abbrev pub HasDistinctKeys : Dict String → Type 0
HasDistinctKeys [] = Unit
HasDistinctKeys ((k, v) ∷ m) = (lookup k m ≡ none) × HasDistinctKeys m

-- Each text is smaller than those behind it.
abbrev IsSorted : List String → Type 0
IsSorted [] = Unit
IsSorted (s ∷ ss) = All (λ t. text_lt s t ≡ true) ss × IsSorted ss

has_key-insert_text :
    (k s : String) (ts : List String) → has_key k (insert_text s ts) ≡ (s == k || has_key k ts)
unfolding has_key insert_text
has_key-insert_text k s [] = refl
has_key-insert_text k s (t ∷ ts) = let ih = has_key-insert_text k s ts in ground (arith, ih)

has_key-sort_texts : (k : String) (ss : List String) → has_key k (sort_texts ss) ≡ has_key k ss
unfolding has_key sort_texts
has_key-sort_texts k [] = refl
has_key-sort_texts k (s ∷ ss) =
    let ih = has_key-sort_texts k ss in
    let step = has_key-insert_text k s (sort_texts ss) in ground (arith, ih, step)

has_key-keys :
    (k : String) (m : Dict String)
    → has_key k (keys m) ≡ elim (lookup k m) [ none ↦ false | some _ ↦ true ]
unfolding has_key keys lookup
has_key-keys k [] = refl
has_key-keys k ((j, v) ∷ m) = let ih = has_key-keys k m in ground (arith, ih)

-- What holds of a text and of a list holds of the list with the text put in.
All-insert_text :
    (P : String → Type 0) (s : String) (ts : List String)
    → P s
    → All P ts
    → All P (insert_text s ts)
unfolding insert_text
All-insert_text P s [] p all_ts = (p, tt)
All-insert_text P s (t ∷ ts) p all_ts =
    let rest = All-insert_text P s ts p all_ts.1 in
    elim (text_lt t s) as (λ b. All P (if b then t ∷ insert_text s ts else s ∷ t ∷ ts)) [
      | true ↦ (all_ts.0, rest)
      | false ↦ (p, all_ts)
    ]

-- A text smaller than the first of a sorted list is smaller than all of it.
below-All :
    (s t : String) (ts : List String)
    → text_lt s t ≡ true
    → All (λ u. text_lt t u ≡ true) ts
    → All (λ u. text_lt s u ≡ true) ts
below-All s t [] p q = tt
below-All s t (u ∷ us) p q = (text_lt_trans s t u p q.0, below-All s t us p q.1)

-- Of two texts that differ, one that is not greater is smaller.
lt_of_not_gt : (s t : String) → (t == s) ≡ false → text_lt t s ≡ false → text_lt s t ≡ true
lt_of_not_gt s t differ not_gt = elim (Bool-cases (text_lt s t)) [
  | inl lt ↦ lt
  | inr not_lt ↦ (let same = text_lt-total s t not_lt not_gt in ground (arith, same, eq_iff t s))
]

insert_text-IsSorted :
    (s : String) (ts : List String)
    → has_key s ts ≡ false
    → IsSorted ts
    → IsSorted (insert_text s ts)
unfolding insert_text has_key
insert_text-IsSorted s [] p q = (tt, tt)
insert_text-IsSorted s (t ∷ ts) p q =
    let rest = insert_text-IsSorted s ts (ground arith) q.1 in
    elim (Bool-cases (text_lt t s)) [
      | inl lt ↦ rw lt (All-insert_text (λ u. text_lt t u ≡ true) s ts lt q.0, rest)
      | inr ge ↦
          (let below = lt_of_not_gt s t (ground arith) ge in
            rw ge ((below, below-All s t ts below q.0), q))
    ]

sort_keys-IsSorted : (m : Dict String) → HasDistinctKeys m → IsSorted (sort_texts (keys m))
unfolding sort_texts keys
sort_keys-IsSorted [] d = tt
sort_keys-IsSorted ((k, v) ∷ m) d =
    let absent : has_key k (sort_texts (keys m)) ≡ false =
      has_key-sort_texts k (keys m) ∙ has_key-keys k m ∙ rw d.0 refl in
    insert_text-IsSorted k (sort_texts (keys m)) absent (sort_keys-IsSorted m d.1)

-- A text smaller than all of a list is not in it.
absent_below :
    (s : String) (ts : List String) → All (λ t. text_lt s t ≡ true) ts → has_key s ts ≡ false
unfolding has_key
absent_below s [] q = refl
absent_below s (t ∷ ts) q =
    let ih = absent_below s ts q.1 in
    let q0 = q.0 in ground (arith, ih, q0, eq_iff t s, text_lt_irrefl s)

-- A sorted list without its first text has what the whole list has, but that text.
has_key-tail :
    (s k : String) (ss : List String)
    → IsSorted (s ∷ ss)
    → has_key k ss ≡ (has_key k (s ∷ ss) && not (s == k))
unfolding has_key
has_key-tail s k ss q = let gone = absent_below s ss q.0 in ground (arith, gone, eq_iff s k)

self_absent : (s : String) (ss : List String) → ¬ (has_key s (s ∷ ss) ≡ false)
unfolding has_key
self_absent s ss bad = ground (arith, bad, eq_iff s s)

-- Of two sorted lists with the same texts, neither starts with the smaller one.
heads_eq :
    (s t : String) (ss ts : List String)
    → IsSorted (s ∷ ss)
    → IsSorted (t ∷ ts)
    → ((k : String) → has_key k (s ∷ ss) ≡ has_key k (t ∷ ts))
    → s ≡ t
heads_eq s t ss ts p q same =
    text_lt-total s t (not_below s t ss ts q same) (not_below t s ts ss p (λ k. sym (same k)))
  where
    not_below :
        (s t : String) (ss ts : List String)
        → IsSorted (t ∷ ts)
        → ((k : String) → has_key k (s ∷ ss) ≡ has_key k (t ∷ ts))
        → text_lt s t ≡ false
    not_below s t ss ts q same = elim (Bool-cases (text_lt s t)) [
      | inl lt ↦
          (let gone = absent_below s (t ∷ ts) (lt, below-All s t ts lt q.0) in
            absurd (self_absent s ss (same s ∙ gone)))
      | inr not_lt ↦ not_lt
    ]

IsSorted-unique :
    (ss ts : List String)
    → IsSorted ss
    → IsSorted ts
    → ((k : String) → has_key k ss ≡ has_key k ts)
    → ss ≡ ts
unfolding has_key
IsSorted-unique [] [] p q same = refl
IsSorted-unique [] (t ∷ ts) p q same = absurd (self_absent t ts (sym (same t)))
IsSorted-unique (s ∷ ss) [] p q same = absurd (self_absent s ss (same s))
IsSorted-unique (s ∷ ss) (t ∷ ts) p q same =
    let head = heads_eq s t ss ts p q same in
    let tail = IsSorted-unique ss ts p.1 q.1 (λ k.
      has_key-tail s k ss p
      ∙ ap (λ b. b && not (s == k)) (same k)
      ∙ ap (λ u. has_key k (t ∷ ts) && not (u == k)) head
      ∙ sym (has_key-tail t k ts q)) in
    λ i. head i ∷ tail i

-- The same keys and the same values are hashed as the same text.
hash_input-cong :
    (m n : Dict String) (ks : List String)
    → ((k : String) → lookup k m ≡ lookup k n)
    → hash_input m ks ≡ hash_input n ks
unfolding hash_input entry
hash_input-cong m n [] same = refl
hash_input-cong m n (k ∷ ks) same =
    λ i. k <> "\0" <> entry_of (same k i) <> "\0" <> hash_input-cong m n ks same i
  where
    entry_of : Option String → String
    entry_of o = elim o [ none ↦ "" | some v ↦ v ]

-- Two maps with the same value under each key, each given with distinct keys in some order, have
-- the same hash: the order in which Go walks the map does not show in `secretDataHash`.
pub secret_data_hash-order :
    (L : Library) (m n : Dict String)
    → HasDistinctKeys m
    → HasDistinctKeys n
    → ((k : String) → lookup k m ≡ lookup k n)
    → secret_data_hash L m ≡ secret_data_hash L n
unfolding secret_data_hash
secret_data_hash-order L m n dm dn same =
    let same_keys =
      IsSorted-unique (sort_texts (keys m)) (sort_texts (keys n)) (sort_keys-IsSorted m dm)
        (sort_keys-IsSorted n dn)
        (λ k.
          has_key-sort_texts k (keys m)
          ∙ has_key-keys k m
          ∙ ap (λ o. elim o [ none ↦ false | some _ ↦ true ]) (same k)
          ∙ sym (has_key-keys k n)
          ∙ sym (has_key-sort_texts k (keys n))) in
    ap L.sha256_hex (ap (hash_input m) same_keys ∙ hash_input-cong m n (sort_texts (keys n)) same)

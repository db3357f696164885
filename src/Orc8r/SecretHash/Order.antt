-- ===== src/Orc8r/SecretHash/Order.antt =====
-- The order on texts that `slices.Sort` uses is a strict total order.
use text.Mathlib.TextEquality.{Char-path}
use Prim.Native.Char.{code}
use magma_operator.Base.{String, arith, false, refl, true, ◌≡◌}
use magma_operator.Orc8r.SecretHash.{text_lt}

pub text_lt_irrefl : (s : String) → text_lt s s ≡ false
unfolding text_lt
text_lt_irrefl String.[] = refl
text_lt_irrefl (String.◌∷◌ c s) = ground (arith, text_lt_irrefl s)

pub text_lt_trans : (s t u : String) → text_lt s t ≡ true → text_lt t u ≡ true → text_lt s u ≡ true
unfolding text_lt
text_lt_trans String.[] String.[] u p q = cc
text_lt_trans String.[] (String.◌∷◌ d t) String.[] p q = cc
text_lt_trans String.[] (String.◌∷◌ d t) (String.◌∷◌ e u) p q = refl
text_lt_trans (String.◌∷◌ c s) String.[] u p q = cc
text_lt_trans (String.◌∷◌ c s) (String.◌∷◌ d t) String.[] p q = cc
text_lt_trans (String.◌∷◌ c s) (String.◌∷◌ d t) (String.◌∷◌ e u) p q =
    let ih = text_lt_trans s t u in ground (arith, ih)

-- Texts of which neither is smaller are equal.
pub text_lt-total : (s t : String) → text_lt s t ≡ false → text_lt t s ≡ false → s ≡ t
unfolding text_lt
text_lt-total String.[] String.[] p q = refl
text_lt-total String.[] (String.◌∷◌ d t) p q = cc
text_lt-total (String.◌∷◌ c s) String.[] p q = cc
text_lt-total (String.◌∷◌ c s) (String.◌∷◌ d t) p q =
    let same : code c ≡ code d = ground arith in
    let rest : s ≡ t = text_lt-total s t (ground arith) (ground arith) in
    λ i. String.◌∷◌ (Char-path c d same i) (rest i)

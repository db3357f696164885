-- ===== src/Agw/Status/Message.antt =====
-- How long a condition's message can be: `conditionMessage` of
-- internal/controller/native_runner.go.
use Prim.Native.Char.{len_utf8}
use Prim.Native.Nat.{Ordering, compare}
use Prim.Native.String.{fits, len, slice}
use text.Mathlib.TextPositions.{len-append}
use magma_operator.Agw.Status.{condition_message}
use magma_operator.Base.{Bool-cases, String, arith, inl, inr, leb, refl, ℕ, ◌-◌, ◌≡◌, ◌≤◌}
use Prim.Native.String.len
use Prim.Native.String.slice

-- What is taken of a text fits.
len-slice : (s : String) (k : ℕ) → len (slice s 0 k) ≤ k
len-slice String.[] k = rw (slice.nil 0 k, len.nil) (omega arith)
len-slice (String.◌∷◌ c s) k =
    rw (slice.cons-zero c s k)
      (by_order (compare (len_utf8 c) k) (len-slice s (k - len_utf8 c)) refl)
  where
    by_order :
        (o : Ordering)
        → len (slice s 0 (k - len_utf8 c)) ≤ k - len_utf8 c
        → compare (len_utf8 c) k ≡ o
        → len (fits o c (slice s 0 (k - len_utf8 c))) ≤ k
    by_order Ordering.gt rest p = rw len.nil (omega arith)
    by_order Ordering.lt rest p = rw len.cons (ground (arith, rest, p))
    by_order Ordering.eq rest p = rw len.cons (ground (arith, rest, p))

-- A condition's message has at most 32013 bytes, below the 32768 that Kubernetes allows.
pub len-condition_message : (message : String) → len (condition_message message) ≤ 32013
unfolding condition_message
len-condition_message message = elim (Bool-cases (leb (len message) 32000)) [
  | inl short ↦ rw short (ground arith)
  | inr long ↦
      (let cut = len-slice message 32000 in
        let joined = len-append (slice message 0 32000) "... truncated" in
        rw long (rw joined (omega (arith, cut))))
]

-- ===== src/Base/Int.antt =====
-- Go's `int32` and `int64` as integers, with the wrap of an `int32` written out, and `strconv.Itoa`.
use magma_operator.Base.{
  ℕ, zero, suc, ◌+◌, ◌-◌, ◌/◌, ◌%◌, Bool, true, ltb, nat_eq, if◌then◌else◌, String, ◌<>◌,
}

-- `negsuc n` is -(n + 1).
pub data ℤ : Type 0 where
  pos : ℕ → ℤ
  negsuc : ℕ → ℤ

-- The `int32` with a given bit pattern.
unfoldable pub of_bits : ℕ → ℤ
of_bits r = if ltb r 2147483648 then pos r else negsuc (4294967295 - r)

-- The bit pattern that conversion to `int32` keeps.
unfoldable pub to_bits : ℤ → ℕ
to_bits (pos n) = n % 4294967296
to_bits (negsuc n) = 4294967295 - n % 4294967296

-- `a + k` in `int32`, for a constant `k`
unfoldable pub add_int32 : ℤ → ℕ → ℤ
unfolding of_bits to_bits
add_int32 a k = of_bits ((to_bits a + k) % 4294967296)

-- `a <= 0`
unfoldable pub not_positive : ℤ → Bool
not_positive (pos n) = nat_eq n 0
not_positive (negsuc n) = true

digit : ℕ → String
digit n =
    if ltb n 5
    then if nat_eq n 0
      then "0"
      else if nat_eq n 1
      then "1"
      else if nat_eq n 2
      then "2"
      else if nat_eq n 3
      then "3"
      else "4"
    else if nat_eq n 5
    then "5"
    else if nat_eq n 6
    then "6"
    else if nat_eq n 7
    then "7"
    else if nat_eq n 8
    then "8"
    else "9"

-- The decimal digits of a number in front of a text. A number below 2^64 has at most 20 digits,
-- and the fuel given is one more than the number itself.
decimal : ℕ → ℕ → String → String
decimal zero n out = out
decimal (suc f) n out =
    let here = digit (n % 10) <> out in
    let rest = decimal f (n / 10) here in if ltb n 10 then here else rest

-- `%d` of a value that is not negative
unfoldable pub show_ℕ : ℕ → String
unfolding decimal digit
show_ℕ n = decimal (suc n) n ""

-- `strconv.Itoa`, `%d`
unfoldable pub show : ℤ → String
unfolding show_ℕ
show (pos n) = show_ℕ n
show (negsuc n) = "-" <> show_ℕ (suc n)

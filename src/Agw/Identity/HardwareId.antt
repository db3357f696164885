-- ===== src/Agw/Identity/HardwareId.antt =====
-- The hardware id that is made up is a UUID of version 4: `newHardwareID` of
-- internal/controller/agw_identity.go.
use Prim.Native.Nat.{bit_and, bit_or}
use magma_operator.Agw.Identity.{mark_uuid, modify}
use magma_operator.Base.{
  All, Bool, Bool-cases, List, Option, [], ap, arith, false, if◌then◌else◌, inl, inr, nat_eq, none,
  refl, some, suc, sym, true, zero, ℕ, ◌%◌, ◌&&◌, ◌+◌, ◌<◌, ◌∙◌, ◌∷◌, ◌≡◌,
}

-- The byte at a place of a list
unfoldable pub byte_at : List ℕ → ℕ → Option ℕ
byte_at [] i = none
byte_at (b ∷ bs) zero = some b
byte_at (b ∷ bs) (suc i) = byte_at bs i

abbrev all_below : ℕ → (ℕ → Bool) → Bool
all_below zero p = true
all_below (suc n) p = p n && all_below n p

-- What was checked of all numbers below a bound holds of each.
below-all : (n : ℕ) (p : ℕ → Bool) (b : ℕ) → all_below n p ≡ true → b < n → p b ≡ true
below-all zero p b checked small = absurd (omega arith)
below-all (suc n) p b checked small = elim (Bool-cases (nat_eq b n)) [
  | inl same ↦ (let is : b ≡ n = ground arith in rw is (ground arith))
  | inr differs ↦ below-all n p b (ground arith) (ground arith)
]

version_byte : (b : ℕ) → b < 256 → bit_or (bit_and b 0x0f) 0x40 ≡ 64 + b % 16
version_byte b small =
    let checked =
      below-all 256 (λ n. nat_eq (bit_or (bit_and n 0x0f) 0x40) (64 + n % 16)) b refl small in
    ground (arith, checked)

variant_byte : (b : ℕ) → b < 256 → bit_or (bit_and b 0x3f) 0x80 ≡ 128 + b % 64
variant_byte b small =
    let checked =
      below-all 256 (λ n. nat_eq (bit_or (bit_and n 0x3f) 0x80) (128 + n % 64)) b refl small in
    ground (arith, checked)

-- What the marks of a UUID of version 4 make of the byte at a place.
abbrev pub uuid_byte : ℕ → ℕ → ℕ
uuid_byte i b = if nat_eq 6 i then 64 + b % 16 else if nat_eq 8 i then 128 + b % 64 else b

abbrev pub change : (ℕ → ℕ) → Option ℕ → Option ℕ
change f none = none
change f (some b) = some (f b)

byte_at-modify :
    (i j : ℕ) (f : ℕ → ℕ) (bs : List ℕ)
    → byte_at (modify i f bs) j ≡ (if nat_eq i j then change f (byte_at bs j) else byte_at bs j)
unfolding byte_at modify
byte_at-modify i j f [] = ground arith
byte_at-modify zero zero f (b ∷ bs) = refl
byte_at-modify zero (suc j) f (b ∷ bs) =
    let no : nat_eq 0 (suc j) ≡ false = ground arith in rw no refl
byte_at-modify (suc i) zero f (b ∷ bs) =
    let no : nat_eq (suc i) 0 ≡ false = ground arith in rw no refl
byte_at-modify (suc i) (suc j) f (b ∷ bs) =
    let same : nat_eq (suc i) (suc j) ≡ nat_eq i j = ground arith in
    rw same (byte_at-modify i j f bs)

-- A byte of a list is a byte.
byte_at-small : (bs : List ℕ) (i b : ℕ) → All (λ n. n < 256) bs → byte_at bs i ≡ some b → b < 256
unfolding byte_at
byte_at-small [] i b small e = cc
byte_at-small (c ∷ bs) zero b small e =
    let here = small.0 in let same : c ≡ b = cc in rw (sym same) here
byte_at-small (c ∷ bs) (suc i) b small e = byte_at-small bs i b small.1 e

-- A byte under both marks.
mark_byte :
    (i : ℕ) (o : Option ℕ)
    → ((b : ℕ) → o ≡ some b → b < 256)
    → (let six = if nat_eq 6 i then change (λ b. bit_or (bit_and b 0x0f) 0x40) o else o in
        if nat_eq 8 i then change (λ b. bit_or (bit_and b 0x3f) 0x80) six else six)
      ≡ change (uuid_byte i) o
mark_byte i none small = elim (Bool-cases (nat_eq 8 i)) [
  | inl p ↦ elim (Bool-cases (nat_eq 6 i)) [ inl q ↦ rw (p, q) refl | inr q ↦ rw (p, q) refl ]
  | inr p ↦ elim (Bool-cases (nat_eq 6 i)) [ inl q ↦ rw (p, q) refl | inr q ↦ rw (p, q) refl ]
]
mark_byte i (some b) small =
    let is_byte = small b refl in
    elim (Bool-cases (nat_eq 8 i)) [
      | inl eight ↦
          (let not_six : nat_eq 6 i ≡ false = ground arith in
            rw (eight, not_six) (ap some (variant_byte b is_byte)))
      | inr not_eight ↦ elim (Bool-cases (nat_eq 6 i)) [
        | inl six ↦ rw (not_eight, six) (ap some (version_byte b is_byte))
        | inr not_six ↦ rw (not_eight, not_six) refl
      ]
    ]

-- Of bytes below 256, `newHardwareID` sets the upper half of byte 6 to the version, 4, and the upper
-- two bits of byte 8 to the variant, binary 10; it leaves their other bits and all other bytes.
pub byte_at-mark_uuid :
    (raw : List ℕ) (i : ℕ)
    → All (λ n. n < 256) raw
    → byte_at (mark_uuid raw) i ≡ change (uuid_byte i) (byte_at raw i)
unfolding mark_uuid
byte_at-mark_uuid raw i small =
    byte_at-modify 8 i _ _
    ∙ ap (λ o. if nat_eq 8 i then change (λ b. bit_or (bit_and b 0x3f) 0x80) o else o)
        (byte_at-modify 6 i _ raw)
    ∙ mark_byte i (byte_at raw i) (λ b. byte_at-small raw i b small)

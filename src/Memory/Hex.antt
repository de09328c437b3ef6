-- ===== src/Memory/Hex.antt =====
-- Bytes and their texts: Java's signed bytes, and hexadecimal digits.
use ghidra_rpc_win.Common.{
  ℕ, ◌+◌, ◌*◌, ◌/◌, ◌%◌, ◌<◌, ◌≡◌, refl, ap, subst, false, Option, none, some, List, [], ◌∷◌, map,
  arith, ltb, All, Bool-cases, inl, inr,
}
use ghidra_rpc_win.Search.{hex_digit, hex_char}
use ghidra_rpc_win.Memory.{to_unsigned, to_signed, to_hex, from_hex, is_ascii_space, pair_of}

abbrev pub IsByte : ℕ → Type 0
IsByte b = b < 256

to_unsigned-to_signed : (b : ℕ) → b < 256 → to_unsigned (to_signed b) ≡ b
unfolding to_unsigned to_signed
to_unsigned-to_signed b h = elim (Bool-cases (ltb b 128)) [
  | inl small ↦ rw small (omega arith)
  | inr large ↦ rw large (ground arith)
]

-- Bytes sent to Java come back as they were.
pub map-to_unsigned-to_signed :
    (bs : List ℕ) → All IsByte bs → map to_unsigned (map to_signed bs) ≡ bs
map-to_unsigned-to_signed [] h = refl
map-to_unsigned-to_signed (b ∷ bs) h =
    rw (to_unsigned-to_signed b h.0, map-to_unsigned-to_signed bs h.1)

hex_digit-lt : (c d : ℕ) → hex_digit c ≡ some d → d < 16
unfolding hex_digit
hex_digit-lt c d h = ground arith

abbrev AllIn : Option (List ℕ) → Type 0
AllIn none = Unit
AllIn (some bs) = All IsByte bs

byte_of : (x y : ℕ) → x < 16 → y < 16 → x * 16 + y < 256
byte_of x y h k = omega arith

pair_of-All :
    (x y : Option ℕ) (rest : Option (List ℕ)) (bs : List ℕ)
    → ((d : ℕ) → x ≡ some d → d < 16)
    → ((d : ℕ) → y ≡ some d → d < 16)
    → ((cs : List ℕ) → rest ≡ some cs → All IsByte cs)
    → pair_of x y rest ≡ some bs
    → All IsByte bs
pair_of-All (some x) (some y) (some cs) bs hx hy hr h =
    subst AllIn h (byte_of x y (hx x refl) (hy y refl), hr cs refl)
pair_of-All (some x) (some y) none bs hx hy hr h = cc
pair_of-All (some x) none rest bs hx hy hr h = cc
pair_of-All none y rest bs hx hy hr h = cc

-- What is read from hexadecimal text are bytes.
pub from_hex-All : (t bs : List ℕ) → from_hex t ≡ some bs → All IsByte bs
unfolding from_hex
from_hex-All [] [] h = tt
from_hex-All [] (b ∷ bs) h = cc
from_hex-All (a ∷ []) [] h = tt
from_hex-All (a ∷ []) (b ∷ bs) h = ground arith
from_hex-All (a ∷ b ∷ t) bs h = elim (Bool-cases (is_ascii_space a)) [
  | inl space ↦ from_hex-All (b ∷ t) bs (rw space at h)
  | inr digit ↦
      pair_of-All (hex_digit a) (hex_digit b) (from_hex t) bs (hex_digit-lt a) (hex_digit-lt b)
        (from_hex-All t) (rw digit at h)
]

pub hex_digit-hex_char : (d : ℕ) → d < 16 → hex_digit (hex_char d) ≡ some d
unfolding hex_digit
hex_digit-hex_char d h = ground arith

pub hex_char-no_space : (d : ℕ) → d < 16 → is_ascii_space (hex_char d) ≡ false
hex_char-no_space d h = ground arith

-- The hexadecimal text of bytes is read as those bytes.
pub from_hex-to_hex : (bs : List ℕ) → All IsByte bs → from_hex (to_hex bs) ≡ some bs
unfolding from_hex to_hex
from_hex-to_hex [] h = refl
from_hex-to_hex (b ∷ bs) h =
    rw
      (
        hex_char-no_space (b / 16) (omega arith),
        hex_digit-hex_char (b / 16) (omega arith),
        hex_digit-hex_char (b % 16) (omega arith),
        from_hex-to_hex bs h.1,
      )
      (ap (λ (n : ℕ). some (n ∷ bs)) (omega arith))

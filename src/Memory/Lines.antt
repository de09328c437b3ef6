-- ===== src/Memory/Lines.antt =====
-- What one line of the hex dump shows.
use ghidra_rpc_win.Common.{
  ℕ, zero, suc, ◌+◌, ◌-◌, ◌*◌, ◌/◌, ◌%◌, ◌≤◌, ◌≡◌, refl, sym, ◌∙◌, ap, Option, none, some, List, [],
  ◌∷◌, ◌++◌, map, length, length-append, length-take, length-drop, append_assoc, append-nil, take,
  drop, All, arith,
}
use ghidra_rpc_win.Common.Text.{join}
use ghidra_rpc_win.Search.{hex_byte}
use ghidra_rpc_win.Memory.{
  from_hex, repeat, format_address, hex_group, ascii, two_spaces, dump_line,
}
use ghidra_rpc_win.Memory.Hex.{IsByte, hex_digit-hex_char, hex_char-no_space}

abbrev joined : List ℕ → Option (List ℕ) → Option (List ℕ)
joined bs none = none
joined bs (some cs) = some (bs ++ cs)

from_hex-hex_byte :
    (b : ℕ) (t : List ℕ) → IsByte b → from_hex (hex_byte b ++ t) ≡ joined (b ∷ []) (from_hex t)
unfolding from_hex
from_hex-hex_byte b t h =
    rw
      (
        hex_char-no_space (b / 16) (omega arith),
        hex_digit-hex_char (b / 16) (omega arith),
        hex_digit-hex_char (b % 16) (omega arith),
      )
      (byte (from_hex t))
  where
    byte :
        (o : Option (List ℕ))
        → (elim o [ none ↦ none | some bs ↦ some ((b / 16 * 16 + b % 16) ∷ bs) ])
          ≡ joined (b ∷ []) o
    byte none = refl
    byte (some bs) = ap (λ (n : ℕ). some (n ∷ bs)) (omega arith)

from_hex-space : (t : List ℕ) → from_hex (32 ∷ t) ≡ from_hex t
unfolding from_hex
from_hex-space [] = refl
from_hex-space (c ∷ t) = refl

from_hex-repeat : (n : ℕ) (t : List ℕ) → from_hex (repeat n 32 ++ t) ≡ from_hex t
unfolding repeat
from_hex-repeat zero t = refl
from_hex-repeat (suc n) t = from_hex-space (repeat n 32 ++ t) ∙ from_hex-repeat n t

joined-nil : (o : Option (List ℕ)) → joined [] o ≡ o
joined-nil none = refl
joined-nil (some cs) = refl

joined-cons :
    (b : ℕ) (bs : List ℕ) (o : Option (List ℕ)) → joined (b ∷ []) (joined bs o) ≡ joined (b ∷ bs) o
joined-cons b bs none = refl
joined-cons b bs (some cs) = refl

abbrev hex_bytes : List ℕ → List ℕ
unfolding join
hex_bytes bs = join (32 ∷ []) (map hex_byte bs)

from_hex-hex_bytes :
    (bs t : List ℕ) → All IsByte bs → from_hex (hex_bytes bs ++ t) ≡ joined bs (from_hex t)
unfolding join
from_hex-hex_bytes [] t h = sym (joined-nil (from_hex t))
from_hex-hex_bytes (b ∷ []) t h = from_hex-hex_byte b t h.0
from_hex-hex_bytes (b ∷ c ∷ bs) t h =
    from_hex-hex_byte b (32 ∷ (hex_bytes (c ∷ bs) ++ t)) h.0
    ∙ (ap (joined (b ∷ []))
          (from_hex-space (hex_bytes (c ∷ bs) ++ t) ∙ from_hex-hex_bytes (c ∷ bs) t h.1)
        ∙ joined-cons b (c ∷ bs) (from_hex t))

from_hex-hex_group :
    (bs t : List ℕ) → All IsByte bs → from_hex (hex_group bs ++ t) ≡ joined bs (from_hex t)
unfolding hex_group
from_hex-hex_group bs t h =
    ap from_hex (append_assoc (hex_bytes bs) (repeat (23 - length (hex_bytes bs)) 32) t)
    ∙ (from_hex-hex_bytes bs (repeat (23 - length (hex_bytes bs)) 32 ++ t) h
        ∙ ap (joined bs) (from_hex-repeat (23 - length (hex_bytes bs)) t))

length-repeat : (n c : ℕ) → length (repeat n c) ≡ n
unfolding repeat
length-repeat zero c = refl
length-repeat (suc n) c = ap (λ (m : ℕ). suc m) (length-repeat n c)

length-hex_bytes : (b : ℕ) (bs : List ℕ) → length (hex_bytes (b ∷ bs)) + 1 ≡ 3 * length (b ∷ bs)
unfolding join
length-hex_bytes b [] = refl
length-hex_bytes b (c ∷ bs) = omega (arith, length-hex_bytes c bs)

hex_bytes_fit : (bs : List ℕ) → length bs ≤ 8 → length (hex_bytes bs) ≤ 23
unfolding join
hex_bytes_fit [] h = omega arith
hex_bytes_fit (b ∷ bs) h = omega (arith, length-hex_bytes b bs)

length-hex_group : (bs : List ℕ) → length bs ≤ 8 → length (hex_group bs) ≡ 23
unfolding hex_group
length-hex_group bs h =
    length-append (hex_bytes bs) (repeat (23 - length (hex_bytes bs)) 32)
    ∙ omega (arith, length-repeat (23 - length (hex_bytes bs)) 32, hex_bytes_fit bs h)

pub All-take : (n : ℕ) (bs : List ℕ) → All IsByte bs → All IsByte (take n bs)
All-take zero bs h = tt
All-take (suc n) [] h = tt
All-take (suc n) (b ∷ bs) h = (h.0, All-take n bs h.1)

pub All-drop : (n : ℕ) (bs : List ℕ) → All IsByte bs → All IsByte (drop n bs)
All-drop zero bs h = h
All-drop (suc n) [] h = tt
All-drop (suc n) (b ∷ bs) h = All-drop n bs h.1

take-drop : (n : ℕ) (bs : List ℕ) → take n bs ++ drop n bs ≡ bs
take-drop zero bs = refl
take-drop (suc n) [] = refl
take-drop (suc n) (b ∷ bs) = ap (λ (t : List ℕ). b ∷ t) (take-drop n bs)

-- A line: the address, 48 columns that read as the bytes, and their ASCII characters.
pub record Shows (address : ℕ) (chunk line : List ℕ) : Type 0 where
  pub columns : List ℕ
  pub shown : from_hex columns ≡ some chunk
  pub aligned : length columns ≡ 48
  pub parts :
      line
      ≡ format_address address
        ++ (two_spaces ++ (columns ++ (two_spaces ++ (124 ∷ (map ascii chunk ++ 124 ∷ [])))))

abbrev columns_of : List ℕ → List ℕ
columns_of chunk = hex_group (take 8 chunk) ++ (two_spaces ++ hex_group (drop 8 chunk))

from_hex-columns_of : (chunk : List ℕ) → All IsByte chunk → from_hex (columns_of chunk) ≡ some chunk
unfolding from_hex
from_hex-columns_of chunk h =
    from_hex-hex_group (take 8 chunk) (two_spaces ++ hex_group (drop 8 chunk)) (All-take 8 chunk h)
    ∙ (ap (joined (take 8 chunk)) (
          from_hex-space (32 ∷ hex_group (drop 8 chunk))
          ∙ (from_hex-space (hex_group (drop 8 chunk))
              ∙ (ap from_hex (sym (append-nil (hex_group (drop 8 chunk))))
                  ∙ from_hex-hex_group (drop 8 chunk) [] (All-drop 8 chunk h))))
        ∙ ap some (
            ap (λ (t : List ℕ). take 8 chunk ++ t) (append-nil (drop 8 chunk)) ∙ take-drop 8 chunk))

length-columns_of : (chunk : List ℕ) → length chunk ≤ 16 → length (columns_of chunk) ≡ 48
length-columns_of chunk h =
    length-append (hex_group (take 8 chunk)) (two_spaces ++ hex_group (drop 8 chunk))
    ∙ omega (
      arith,
      length-hex_group (take 8 chunk) (ground (arith, length-take 8 chunk)),
      length-hex_group (drop 8 chunk) (ground (arith, length-drop 8 chunk)),
    )

pub dump_line-Shows :
    (address : ℕ) (chunk : List ℕ)
    → length chunk ≤ 16
    → All IsByte chunk
    → Shows address chunk (dump_line address chunk)
unfolding dump_line
dump_line-Shows address chunk h bytes = record {
  columns = columns_of chunk;
  shown = from_hex-columns_of chunk bytes;
  aligned = length-columns_of chunk h;
  parts =
      ap (λ (t : List ℕ). format_address address ++ (two_spaces ++ t))
        (sym (
          append_assoc (hex_group (take 8 chunk)) (two_spaces ++ hex_group (drop 8 chunk))
            (two_spaces ++ (124 ∷ (map ascii chunk ++ 124 ∷ [])))));
}

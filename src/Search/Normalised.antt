-- ===== src/Search/Normalised.antt =====
-- Normalising a normalised byte pattern.
use ghidra_rpc_win.Common.{
  ℕ, ◌<◌, zero, suc, ◌≡◌, refl, ap, Bool, true, false, ◌&&◌, none, some, List, [], ◌∷◌, ◌++◌, map,
  arith, All,
}
use ghidra_rpc_win.Common.Text.{join, text_eq, text_eq_iff}
use ghidra_rpc_win.Common.Text.Words.{split-join, strip-join}
use ghidra_rpc_win.Common.Exec.{Result, ok, err}
use ghidra_rpc_win.Search.{
  hex_byte, normalize_token, normalize_tokens, spaced, has_blank, normalize_byte_pattern,
}
use ghidra_rpc_win.Search.Patterns.{
  Item, InByte, token_text, normalize_byte_pattern-items, map-IsWord,
}

-- Normalising what is normal: by a table over the bytes.
all_below : ℕ → (ℕ → Bool) → Bool
all_below zero p = true
all_below (suc n) p = p n && all_below n p

abbrev stays : ℕ → Bool
stays v = elim (normalize_token (hex_byte v)) [ ok t ↦ text_eq t (hex_byte v) | err e ↦ false ]

all_below-at : (n : ℕ) (p : ℕ → Bool) (v : ℕ) → all_below n p ≡ true → v < n → p v ≡ true
unfolding all_below
all_below-at zero p v h lt = absurd (omega arith)
all_below-at (suc n) p v h lt = ground (arith, all_below-at n p v)

stays_all : all_below 256 stays ≡ true
unfolding all_below normalize_token text_eq
stays_all = refl

stays-token :
    (v : ℕ) (r : Result (List ℕ))
    → elim r [ ok t ↦ text_eq t (hex_byte v) | err e ↦ false ] ≡ true
    → r ≡ ok (hex_byte v)
stays-token v (ok t) h = ap ok ((text_eq_iff t (hex_byte v)).0 h)
stays-token v (err e) h = cc

normalize_token-token_text :
    (i : Item) → InByte i → normalize_token (token_text i) ≡ ok (token_text i)
normalize_token-token_text none h = unfold normalize_token in refl
normalize_token-token_text (some v) h =
    stays-token v (normalize_token (hex_byte v)) (all_below-at 256 stays v stays_all h)

normalize_tokens-token_text :
    (is : List Item) → All InByte is → normalize_tokens (map token_text is) ≡ ok (map token_text is)
unfolding normalize_tokens
normalize_tokens-token_text [] h = refl
normalize_tokens-token_text (i ∷ is) h =
    rw (normalize_token-token_text i h.0, normalize_tokens-token_text is h.1)

has_blank-append : (a b : List ℕ) → has_blank (a ++ 32 ∷ b) ≡ true
unfolding has_blank
has_blank-append [] b = refl
has_blank-append (c ∷ a) b = ground (arith, has_blank-append a b)

spaced-join :
    (i : Item) (is : List Item)
    → spaced (join (32 ∷ []) (map token_text (i ∷ is))) ≡ join (32 ∷ []) (map token_text (i ∷ is))
unfolding spaced join
spaced-join none [] = refl
spaced-join (some v) [] = ground arith
spaced-join i (j ∷ is) =
    rw (has_blank-append (token_text i) (join (32 ∷ []) (map token_text (j ∷ is))))

normalize_joined :
    (i : Item) (is : List Item)
    → All InByte (i ∷ is)
    → normalize_byte_pattern (join (32 ∷ []) (map token_text (i ∷ is)))
      ≡ ok (join (32 ∷ []) (map token_text (i ∷ is)))
unfolding normalize_byte_pattern
normalize_joined i is h = rw (
  strip-join (token_text i) (map token_text is) (map-IsWord (i ∷ is) h),
  spaced-join i is,
  split-join (map token_text (i ∷ is)) (map-IsWord (i ∷ is) h),
  normalize_tokens-token_text (i ∷ is) h,
)

-- Normalising a normalised pattern changes nothing.
pub normalize_byte_pattern_idem :
    (pattern n : List ℕ) → normalize_byte_pattern pattern ≡ ok n → normalize_byte_pattern n ≡ ok n
normalize_byte_pattern_idem pattern n h =
    let (i, is, ei, bytes, en) = normalize_byte_pattern-items pattern n h in
    rw en (normalize_joined i is bytes)

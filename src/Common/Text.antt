-- ===== src/Common/Text.antt =====
-- Text as a list of code points, where the program walks it.
pub mod Words
use Prim.Native.Nat.{ℕ, ◌+◌}
use Prim.Native.Char.{code}
use Prim.Native.String.{String}
use mathlib.Core.Bool.{Bool, true, false, ◌&&◌, ◌||◌}
use mathlib.Core.Path.{◌≡◌, refl}
use mathlib.Core.Logic.{◌↔◌}
use native.Mathlib.Omega.{arith}
use mathlib.Core.List.{List, [], ◌∷◌, ◌++◌}
use ghidra_rpc_win.Common.Tests.{◌==◌, leb, if◌then◌else◌}
use ghidra_rpc_win.Common.Lists.{is_empty}

abbrev pub codes : String → List ℕ
codes String.[] = []
codes (String.◌∷◌ c s) = code c ∷ codes s

-- `t.startswith(p)`
unfoldable pub starts_with : List ℕ → List ℕ → Bool
starts_with [] t = true
starts_with (a ∷ p) [] = false
starts_with (a ∷ p) (b ∷ t) = a == b && starts_with p t

-- `p in t`
unfoldable pub in_text : List ℕ → List ℕ → Bool
unfolding starts_with
in_text p [] = starts_with p []
in_text p (c ∷ t) = starts_with p (c ∷ t) || in_text p t

-- `str.isspace` of one character, for the characters below 256.
unfoldable pub is_space : ℕ → Bool
is_space c = (leb 9 c && leb c 13) || (leb 28 c && leb c 32) || c == 133 || c == 160

unfoldable pub lstrip : List ℕ → List ℕ
lstrip [] = []
lstrip (c ∷ t) = let rest = lstrip t in if is_space c then rest else c ∷ t

unfoldable pub rstrip : List ℕ → List ℕ
rstrip [] = []
rstrip (c ∷ t) = let rest = rstrip t in if is_empty rest && is_space c then [] else c ∷ rest

-- `t.strip()`
abbrev pub strip : List ℕ → List ℕ
strip t = rstrip (lstrip t)

abbrev pub flush : List ℕ → List (List ℕ) → List (List ℕ)
flush [] ws = ws
flush (c ∷ w) ws = (c ∷ w) ∷ ws

-- `t.split()`, behind the part of a word that has been read.
unfoldable pub words : List ℕ → List ℕ → List (List ℕ)
words w [] = flush w []
words w (c ∷ t) =
    let next = words [] t in
    let longer = words (w ++ c ∷ []) t in if is_space c then flush w next else longer

abbrev pub split : List ℕ → List (List ℕ)
split t = words [] t

-- `t.lower()`, for ASCII letters
unfoldable pub lower : List ℕ → List ℕ
lower [] = []
lower (c ∷ t) = (if leb 65 c && leb c 90 then c + 32 else c) ∷ lower t

-- `sep.join(parts)`
unfoldable pub join : List ℕ → List (List ℕ) → List ℕ
join sep [] = []
join sep (p ∷ []) = p
join sep (p ∷ q ∷ ps) = p ++ (sep ++ join sep (q ∷ ps))

-- `s == t`
unfoldable pub text_eq : List ℕ → List ℕ → Bool
text_eq [] [] = true
text_eq [] (b ∷ t) = false
text_eq (a ∷ s) [] = false
text_eq (a ∷ s) (b ∷ t) = a == b && text_eq s t

pub text_eq_iff : (s t : List ℕ) → (text_eq s t ≡ true) ↔ (s ≡ t)
unfolding text_eq
text_eq_iff [] [] = (λ h. refl, λ h. refl)
text_eq_iff [] (b ∷ t) = (λ h. cc, λ h. cc)
text_eq_iff (a ∷ s) [] = (λ h. cc, λ h. cc)
text_eq_iff (a ∷ s) (b ∷ t) = ground (arith, text_eq_iff s t)

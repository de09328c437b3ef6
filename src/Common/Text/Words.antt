-- ===== src/Common/Text/Words.antt =====
-- Splitting what was joined: words without spaces come back.
use Prim.Native.Nat.{ℕ}
use mathlib.Core.Path.{◌≡◌, refl, ap, ◌∙◌, sym}
use mathlib.Core.Bool.{false}
use mathlib.Core.List.{List, [], ◌∷◌, ◌++◌, append_assoc, append-nil}
use native.Mathlib.Omega.{arith}
use ghidra_rpc_win.Common.Lists.{All, is_empty}
use ghidra_rpc_win.Common.Text.{is_space, lstrip, rstrip, strip, flush, words, split, join}

-- A word: some characters, none a space.
pub record IsWord (w : List ℕ) : Type 0 where
  pub some_char : is_empty w ≡ false
  pub no_space : All (λ c. is_space c ≡ false) w

abbrev sep : List ℕ
sep = 32 ∷ []

words-word :
    (w cur rest : List ℕ)
    → All (λ c. is_space c ≡ false) w
    → words cur (w ++ rest) ≡ words (cur ++ w) rest
unfolding words
words-word [] cur rest h = rw append-nil
words-word (c ∷ w) cur rest h =
    rw h.0
      (words-word w (cur ++ c ∷ []) rest h.1 ∙ ap (λ r. words r rest) (append_assoc cur (c ∷ []) w))

flush-word : (w : List ℕ) (ws : List (List ℕ)) → is_empty w ≡ false → flush w ws ≡ w ∷ ws
flush-word [] ws h = cc
flush-word (c ∷ w) ws h = refl

words-space : (cur rest : List ℕ) → words cur (32 ∷ rest) ≡ flush cur (words [] rest)
unfolding words is_space
words-space cur rest = refl

split-word : (w : List ℕ) → IsWord w → split w ≡ w ∷ []
split-word w h =
    ap (words []) (sym (append-nil w))
    ∙ (words-word w [] [] h.no_space ∙ (unfold words in flush-word w [] h.some_char))

pub split-join : (ws : List (List ℕ)) → All IsWord ws → split (join sep ws) ≡ ws
unfolding join
split-join [] h = unfold words in refl
split-join (w ∷ []) h = split-word w h.0
split-join (w ∷ v ∷ ws) h =
    words-word w [] (sep ++ join sep (v ∷ ws)) h.0.no_space
    ∙ (words-space w (join sep (v ∷ ws))
        ∙ (flush-word w _ h.0.some_char ∙ ap (λ r. w ∷ r) (split-join (v ∷ ws) h.1)))

-- A text that begins with no space, and one that ends with none, are left alone.
lstrip-word : (w rest : List ℕ) → IsWord w → lstrip (w ++ rest) ≡ w ++ rest
unfolding lstrip
lstrip-word [] rest h = cc h.some_char
lstrip-word (c ∷ w) rest h = rw h.no_space.0

rstrip-All : (w : List ℕ) → All (λ c. is_space c ≡ false) w → rstrip w ≡ w
unfolding rstrip
rstrip-All [] h = refl
rstrip-All (c ∷ w) h = rw (rstrip-All w h.1, h.0) (ground arith)

is_empty-append : (a b : List ℕ) → is_empty b ≡ false → is_empty (a ++ b) ≡ false
is_empty-append [] b h = h
is_empty-append (c ∷ a) b h = refl

pub rstrip-append : (a b : List ℕ) → is_empty b ≡ false → rstrip b ≡ b → rstrip (a ++ b) ≡ a ++ b
unfolding rstrip
rstrip-append [] b h e = e
rstrip-append (c ∷ a) b h e = rw (rstrip-append a b h e, is_empty-append a b h)

join-is_full :
    (w : List ℕ) (ws : List (List ℕ)) → All IsWord (w ∷ ws) → is_empty (join sep (w ∷ ws)) ≡ false
unfolding join
join-is_full w [] h = h.0.some_char
join-is_full [] (v ∷ ws) h = cc
join-is_full (c ∷ w) (v ∷ ws) h = refl

rstrip-join :
    (w : List ℕ) (ws : List (List ℕ))
    → All IsWord (w ∷ ws)
    → rstrip (join sep (w ∷ ws)) ≡ join sep (w ∷ ws)
unfolding join
rstrip-join w [] h = rstrip-All w h.0.no_space
rstrip-join w (v ∷ ws) h =
    rstrip-append w (sep ++ join sep (v ∷ ws)) refl
      (rstrip-append sep (join sep (v ∷ ws)) (join-is_full v ws h.1) (rstrip-join v ws h.1))

join-cons : (w : List ℕ) (ws : List (List ℕ)) → (rest : List ℕ) × (join sep (w ∷ ws) ≡ w ++ rest)
unfolding join
join-cons w [] = ([], sym (append-nil w))
join-cons w (v ∷ ws) = (sep ++ join sep (v ∷ ws), refl)

-- Joined words have no space at either end.
pub strip-join :
    (w : List ℕ) (ws : List (List ℕ))
    → All IsWord (w ∷ ws)
    → strip (join sep (w ∷ ws)) ≡ join sep (w ∷ ws)
strip-join w ws h =
    let (rest, e) = join-cons w ws in
    ap rstrip (ap lstrip e ∙ (lstrip-word w rest h.0 ∙ sym e)) ∙ rstrip-join w ws h

-- ===== src/VersionTracking/Normalised.antt =====
-- Normalised code has no word left that a pattern matches, and the other words stay.
use ghidra_rpc_win.Common.{
  ℕ, ◌≡◌, refl, sym, ◌∙◌, ap, subst, Bool, true, false, ◌||◌, List, [], ◌∷◌, ◌++◌, map, append-nil,
  snoc_append, if◌then◌else◌, All, ◌⊎◌, Bool-cases, inl, inr,
}
use ghidra_rpc_win.Common.Text.{starts_with}
use ghidra_rpc_win.VersionTracking.Normalise.{
  Rule, is_hex, is_word, all_of, prefixed, is_var, rewrite, normalise, decompiled_rules,
  disassembly_rules, normalise_decompiled, normalise_disassembly,
}

-- No rule matches the word.
abbrev pub Unmatched : List ℕ → List Rule → Type 0
Unmatched w = All (λ (r : Rule). r.matches w ≡ false)

-- No rule of all matches the replacement of one of these, and the replacements are words.
abbrev pub Settled : List Rule → List Rule → Type 0
Settled all =
    All (λ (r : Rule). Unmatched r.replacement all × (all_of is_word r.replacement ≡ true))

-- The words of a text, empty ones too, one of which has been read in part.
unfoldable pub words_of : List ℕ → List ℕ → List (List ℕ)
words_of w [] = w ∷ []
words_of w (c ∷ t) =
    let longer = words_of (w ++ c ∷ []) t in
    let next = words_of [] t in if is_word c then longer else w ∷ next

rewrite-Unmatched : (w : List ℕ) (rules : List Rule) → Unmatched w rules → rewrite rules w ≡ w
unfolding rewrite
rewrite-Unmatched w [] h = refl
rewrite-Unmatched w (r ∷ rules) h = rw h.0 (rewrite-Unmatched w rules h.1)

rewrite-matched :
    (r : Rule) (rules : List Rule) (w : List ℕ)
    → r.matches w ≡ true
    → rewrite (r ∷ rules) w ≡ rewrite rules r.replacement
unfolding rewrite
rewrite-matched r rules w h = rw h refl

rewrite-other :
    (r : Rule) (rules : List Rule) (w : List ℕ)
    → r.matches w ≡ false
    → rewrite (r ∷ rules) w ≡ rewrite rules w
unfolding rewrite
rewrite-other r rules w h = rw h refl

-- A rewriting leaves the word, and then no rule matched it, or a word that no rule of all matches.
rewrite_cases :
    (w : List ℕ) (rules all : List Rule)
    → Settled all rules
    → ((v : List ℕ) → Unmatched v all → Unmatched v rules)
    → (Unmatched w rules × (rewrite rules w ≡ w)) ⊎ Unmatched (rewrite rules w) all
unfolding rewrite
rewrite_cases w [] all h sub = inl (tt, refl)
rewrite_cases w (r ∷ rules) all h sub = elim (Bool-cases (r.matches w)) [
  | inl matched ↦ inr (
      subst (λ v. Unmatched v all)
        (sym (
          rewrite-matched r rules w matched
          ∙ rewrite-Unmatched r.replacement rules (sub r.replacement h.0.0).1))
        h.0.0)
  | inr other ↦ elim (rewrite_cases w rules all h.1 (λ v u. (sub v u).1)) [
    | inl (u, e) ↦ inl ((other, u), rewrite-other r rules w other ∙ e)
    | inr u ↦ inr (subst (λ v. Unmatched v all) (sym (rewrite-other r rules w other)) u)
  ]
]

-- The replacement of the first rule that matches, if there is one.
unfoldable pub first_match : List Rule → List ℕ → List ℕ
first_match [] w = w
first_match (r ∷ rules) w = if r.matches w then r.replacement else first_match rules w

rewrite-first_match :
    (w : List ℕ) (rules all : List Rule)
    → Settled all rules
    → ((v : List ℕ) → Unmatched v all → Unmatched v rules)
    → rewrite rules w ≡ first_match rules w
unfolding rewrite first_match
rewrite-first_match w [] all h sub = refl
rewrite-first_match w (r ∷ rules) all h sub = elim (Bool-cases (r.matches w)) [
  | inl matched ↦
      rewrite-matched r rules w matched
      ∙ (rewrite-Unmatched r.replacement rules (sub r.replacement h.0.0).1 ∙ rw matched refl)
  | inr other ↦
      rewrite-other r rules w other
      ∙ (rewrite-first_match w rules all h.1 (λ v u. (sub v u).1) ∙ rw other refl)
]

map_same :
    (f k : List ℕ → List ℕ)
    → ((w : List ℕ) → f w ≡ k w)
    → (ws : List (List ℕ)) → map f ws ≡ map k ws
map_same f k h [] = refl
map_same f k h (w ∷ ws) = rw (h w, map_same f k h ws)

rewrite_settles :
    (w : List ℕ) (rules : List Rule) → Settled rules rules → Unmatched (rewrite rules w) rules
rewrite_settles w rules h = elim (rewrite_cases w rules rules h (λ v u. u)) [
  | inl (u, e) ↦ subst (λ v. Unmatched v rules) (sym e) u
  | inr u ↦ u
]

rewrite-is_word :
    (w : List ℕ) (rules all : List Rule)
    → Settled all rules
    → all_of is_word w ≡ true
    → all_of is_word (rewrite rules w) ≡ true
unfolding rewrite
rewrite-is_word w [] all h k = k
rewrite-is_word w (r ∷ rules) all h k = elim (Bool-cases (r.matches w)) [
  | inl matched ↦ rw matched (rewrite-is_word r.replacement rules all h.1 h.0.1)
  | inr other ↦ rw other (rewrite-is_word w rules all h.1 k)
]

all_of-snoc :
    (w : List ℕ) (c : ℕ)
    → all_of is_word w ≡ true
    → is_word c ≡ true
    → all_of is_word (w ++ c ∷ []) ≡ true
all_of-snoc [] c h k = rw k refl
all_of-snoc (d ∷ w) c h k =
    all_of-cons d (w ++ c ∷ []) (first d w h) (all_of-snoc w c (others d w h) k)
  where
    all_of-cons :
        (d : ℕ) (w : List ℕ)
        → is_word d ≡ true
        → all_of is_word w ≡ true
        → all_of is_word (d ∷ w) ≡ true
    all_of-cons d w h k = rw (h, k) refl

    first : (d : ℕ) (w : List ℕ) → all_of is_word (d ∷ w) ≡ true → is_word d ≡ true
    first d w h = elim (Bool-cases (is_word d)) [ inl e ↦ e | inr e ↦ cc (rw e at h) ]

    others : (d : ℕ) (w : List ℕ) → all_of is_word (d ∷ w) ≡ true → all_of is_word w ≡ true
    others d w h = rw (first d w h) at h

words_of-word :
    (x u t : List ℕ) → all_of is_word u ≡ true → words_of x (u ++ t) ≡ words_of (x ++ u) t
unfolding words_of
words_of-word x [] t h = ap (λ y. words_of y t) (sym (append-nil x))
words_of-word x (c ∷ u) t h = elim (Bool-cases (is_word c)) [
  | inl word ↦
      rw word (
        words_of-word (x ++ c ∷ []) u t (rw word at h) ∙ ap (λ y. words_of y t) (snoc_append x c u))
  | inr other ↦ cc (rw other at h)
]

words_of-other :
    (x : List ℕ) (c : ℕ) (t : List ℕ) → is_word c ≡ false → words_of x (c ∷ t) ≡ x ∷ words_of [] t
unfolding words_of
words_of-other x c t h = rw h refl

-- The words of a normalised text are the rewritten words of the text, in order.
words_of-normalise :
    (rules : List Rule) (w t : List ℕ)
    → Settled rules rules
    → all_of is_word w ≡ true
    → words_of [] (normalise rules w t) ≡ map (rewrite rules) (words_of w t)
unfolding words_of normalise
words_of-normalise rules w [] h k =
    ap (words_of []) (sym (append-nil (rewrite rules w)))
    ∙ words_of-word [] (rewrite rules w) [] (rewrite-is_word w rules rules h k)
words_of-normalise rules w (c ∷ t) h k = elim (Bool-cases (is_word c)) [
  | inl word ↦ rw word (words_of-normalise rules (w ++ c ∷ []) t h (all_of-snoc w c k word))
  | inr other ↦ rw other (
      words_of-word [] (rewrite rules w) (c ∷ normalise rules [] t)
        (rewrite-is_word w rules rules h k)
      ∙ (words_of-other (rewrite rules w) c (normalise rules [] t) other
          ∙ ap (λ ws. rewrite rules w ∷ ws) (words_of-normalise rules [] t h refl)))
]

map-All :
    (P : List ℕ → Type 0) (f : List ℕ → List ℕ) (ws : List (List ℕ))
    → ((w : List ℕ) → P (f w))
    → All P (map f ws)
map-All P f [] h = tt
map-All P f (w ∷ ws) h = (h w, map-All P f ws h)

-- A word that is an address, with or without its prefix.
abbrev pub is_address : List ℕ → Bool
unfolding prefixed
is_address w = prefixed "0x" is_hex 6 w || prefixed "" is_hex 6 w

decompiled_rules-Settled : Settled decompiled_rules decompiled_rules
unfolding prefixed is_var starts_with
decompiled_rules-Settled = (
  ((refl, (refl, (refl, (refl, (refl, (refl, (refl, tt))))))), refl),
  (
    ((refl, (refl, (refl, (refl, (refl, (refl, (refl, tt))))))), refl),
    (
      ((refl, (refl, (refl, (refl, (refl, (refl, (refl, tt))))))), refl),
      (
        ((refl, (refl, (refl, (refl, (refl, (refl, (refl, tt))))))), refl),
        (
          ((refl, (refl, (refl, (refl, (refl, (refl, (refl, tt))))))), refl),
          (
            ((refl, (refl, (refl, (refl, (refl, (refl, (refl, tt))))))), refl),
            (((refl, (refl, (refl, (refl, (refl, (refl, (refl, tt))))))), refl), tt),
          ),
        ),
      ),
    ),
  ),
)

disassembly_rules-Settled : Settled disassembly_rules disassembly_rules
unfolding prefixed starts_with
disassembly_rules-Settled = (((refl, (refl, tt)), refl), (((refl, (refl, tt)), refl), tt))

none_address : (w : List ℕ) → Unmatched w disassembly_rules → is_address w ≡ false
unfolding prefixed
none_address w h = rw (h.0, h.1.0) refl

-- The words of normalised pseudo-C are those of the code, in order, where each word that one of the seven patterns matches stands as the replacement of the first such pattern; and no pattern matches any word that is left.
pub normalise_decompiled-words :
    (code : List ℕ)
    → (words_of [] (normalise_decompiled code)
        ≡ map (first_match decompiled_rules) (words_of [] code))
      × All (λ w. Unmatched w decompiled_rules) (words_of [] (normalise_decompiled code))
unfolding normalise_decompiled
normalise_decompiled-words code =
    let same = words_of-normalise decompiled_rules [] code decompiled_rules-Settled refl in
    (
      same
          ∙ map_same (rewrite decompiled_rules) (first_match decompiled_rules)
              (λ w.
                rewrite-first_match w decompiled_rules decompiled_rules decompiled_rules-Settled
                  (λ v u. u))
              (words_of [] code),
      subst (All (λ w. Unmatched w decompiled_rules)) (sym same) (
          map-All (λ w. Unmatched w decompiled_rules) (rewrite decompiled_rules) (words_of [] code)
            (λ w. rewrite_settles w decompiled_rules decompiled_rules-Settled)),
    )

-- The words of normalised disassembly are those of the code, in order, each rewritten on its own, and none of them is an address.
pub normalise_disassembly-words :
    (code : List ℕ)
    → (words_of [] (normalise_disassembly code)
        ≡ map (rewrite disassembly_rules) (words_of [] code))
      × All (λ w. is_address w ≡ false) (words_of [] (normalise_disassembly code))
unfolding normalise_disassembly
normalise_disassembly-words code =
    let same = words_of-normalise disassembly_rules [] code disassembly_rules-Settled refl in
    (
      same,
      subst (All (λ w. is_address w ≡ false)) (sym same) (
          map-All (λ w. is_address w ≡ false) (rewrite disassembly_rules) (words_of [] code)
            (λ w.
              none_address (rewrite disassembly_rules w)
                (rewrite_settles w disassembly_rules disassembly_rules-Settled))),
    )

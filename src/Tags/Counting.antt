-- ===== src/Tags/Counting.antt =====
-- What the counts of `list_tags` are.
use ghidra_rpc_win.Common.{
  ℕ, ◌+◌, ◌≡◌, refl, ◌∙◌, sym, ap, String, Bool, false, ◌||◌, List, [], ◌∷◌, if◌then◌else◌, arith,
}
use ghidra_rpc_win.Common.Dict.{Dict}
use ghidra_rpc_win.Common.Text.{text_eq, text_eq_iff}
use ghidra_rpc_win.Common.Exec.{ok, >>=-ok}
use ghidra_rpc_win.Context.{ProgramInfo, get_program}
use ghidra_rpc_win.Functions.{FunctionManager}
use ghidra_rpc_win.Tags.{
  TagManager, Counts, define_tag, count_tag, define_tags, count_tags, insert_count, sorted_counts,
  count_uses, list_tags,
}

-- `counts.get(tag, 0)`
pub count_of : List ℕ → Counts → ℕ
count_of tag [] = 0
count_of tag ((t, n) ∷ counts) = let rest = count_of tag counts in if text_eq t tag then n else rest

-- How often a tag stands in a list.
pub uses_in : List ℕ → List (List ℕ) → ℕ
uses_in tag [] = 0
uses_in tag (t ∷ ts) = let rest = uses_in tag ts in if text_eq t tag then rest + 1 else rest

count_of-count_tag :
    (tag t : List ℕ) (counts : Counts)
    → count_of tag (count_tag t counts)
      ≡ (if text_eq t tag then count_of tag counts + 1 else count_of tag counts)
unfolding count_of count_tag
count_of-count_tag tag t [] = ground arith
count_of-count_tag tag t ((s, n) ∷ counts) =
    ground (
      arith,
      text_eq_iff s t,
      text_eq_iff s tag,
      text_eq_iff t tag,
      count_of-count_tag tag t counts,
    )

count_of-count_tags :
    (tag : List ℕ) (ts : List (List ℕ)) (counts : Counts)
    → count_of tag (count_tags ts counts) ≡ count_of tag counts + uses_in tag ts
unfolding count_tags uses_in
count_of-count_tags tag [] counts = omega arith
count_of-count_tags tag (t ∷ ts) counts =
    ground (arith, count_of-count_tags tag ts (count_tag t counts), count_of-count_tag tag t counts)

count_of-define_tag :
    (tag t : List ℕ) (counts : Counts)
    → count_of tag counts ≡ 0
    → count_of tag (define_tag t counts) ≡ 0
unfolding count_of define_tag
count_of-define_tag tag t [] h = ground arith
count_of-define_tag tag t ((s, n) ∷ counts) h = ground (arith, count_of-define_tag tag t counts)

count_of-define_tags :
    (tag : List ℕ) (ts : List (List ℕ)) (counts : Counts)
    → count_of tag counts ≡ 0
    → count_of tag (define_tags ts counts) ≡ 0
unfolding define_tags
count_of-define_tags tag [] counts h = h
count_of-define_tags tag (t ∷ ts) counts h =
    count_of-define_tags tag ts (define_tag t counts) (count_of-define_tag tag t counts h)

has_count : List ℕ → Counts → Bool
has_count tag [] = false
has_count tag ((t, n) ∷ counts) = text_eq t tag || has_count tag counts

-- No tag is counted twice.
abbrev Nodup : Counts → Type 0
Nodup [] = Unit
Nodup ((t, n) ∷ counts) = (has_count t counts ≡ false) × Nodup counts

has_count-define_tag :
    (s t : List ℕ) (counts : Counts)
    → has_count s (define_tag t counts) ≡ (text_eq t s || has_count s counts)
unfolding has_count define_tag
has_count-define_tag s t [] = refl
has_count-define_tag s t ((r, n) ∷ counts) =
    ground
      (arith, text_eq_iff r t, text_eq_iff r s, text_eq_iff t s, has_count-define_tag s t counts)

has_count-count_tag :
    (s t : List ℕ) (counts : Counts)
    → has_count s (count_tag t counts) ≡ (text_eq t s || has_count s counts)
unfolding has_count count_tag
has_count-count_tag s t [] = refl
has_count-count_tag s t ((r, n) ∷ counts) =
    ground
      (arith, text_eq_iff r t, text_eq_iff r s, text_eq_iff t s, has_count-count_tag s t counts)

define_tag-Nodup : (t : List ℕ) (counts : Counts) → Nodup counts → Nodup (define_tag t counts)
unfolding define_tag has_count
define_tag-Nodup t [] h = (refl, tt)
define_tag-Nodup t ((r, n) ∷ counts) h = ground (
  arith,
  text_eq_iff r t,
  text_eq_iff t r,
  has_count-define_tag r t counts,
  define_tag-Nodup t counts h.1,
)

count_tag-Nodup : (t : List ℕ) (counts : Counts) → Nodup counts → Nodup (count_tag t counts)
unfolding count_tag has_count
count_tag-Nodup t [] h = (refl, tt)
count_tag-Nodup t ((r, n) ∷ counts) h = ground (
  arith,
  text_eq_iff r t,
  text_eq_iff t r,
  has_count-count_tag r t counts,
  count_tag-Nodup t counts h.1,
)

define_tags-Nodup :
    (ts : List (List ℕ)) (counts : Counts) → Nodup counts → Nodup (define_tags ts counts)
unfolding define_tags
define_tags-Nodup [] counts h = h
define_tags-Nodup (t ∷ ts) counts h =
    define_tags-Nodup ts (define_tag t counts) (define_tag-Nodup t counts h)

count_tags-Nodup :
    (ts : List (List ℕ)) (counts : Counts) → Nodup counts → Nodup (count_tags ts counts)
unfolding count_tags
count_tags-Nodup [] counts h = h
count_tags-Nodup (t ∷ ts) counts h =
    count_tags-Nodup ts (count_tag t counts) (count_tag-Nodup t counts h)

-- Sorting keeps the counts.
count_of-insert_count :
    (tag t : List ℕ) (n : ℕ) (counts : Counts)
    → has_count t counts ≡ false
    → count_of tag (insert_count t n counts) ≡ (if text_eq t tag then n else count_of tag counts)
unfolding count_of insert_count has_count
count_of-insert_count tag t n [] h = refl
count_of-insert_count tag t n ((s, k) ∷ counts) h = ground (
  arith,
  text_eq_iff s t,
  text_eq_iff s tag,
  text_eq_iff t tag,
  count_of-insert_count tag t n counts,
)

has_count-insert_count :
    (s t : List ℕ) (n : ℕ) (counts : Counts)
    → has_count s (insert_count t n counts) ≡ (text_eq t s || has_count s counts)
unfolding has_count insert_count
has_count-insert_count s t n [] = refl
has_count-insert_count s t n ((r, k) ∷ counts) = ground (arith, has_count-insert_count s t n counts)

has_count-sorted_counts :
    (s : List ℕ) (counts : Counts) → has_count s (sorted_counts counts) ≡ has_count s counts
unfolding sorted_counts has_count
has_count-sorted_counts s [] = refl
has_count-sorted_counts s ((t, n) ∷ counts) =
    has_count-insert_count s t n (sorted_counts counts)
    ∙ ap (λ b. text_eq t s || b) (has_count-sorted_counts s counts)

count_of-sorted_counts :
    (tag : List ℕ) (counts : Counts)
    → Nodup counts
    → count_of tag (sorted_counts counts) ≡ count_of tag counts
unfolding sorted_counts count_of
count_of-sorted_counts tag [] h = refl
count_of-sorted_counts tag ((t, n) ∷ counts) h =
    count_of-insert_count tag t n (sorted_counts counts) (has_count-sorted_counts t counts ∙ h.0)
    ∙ ap (λ (k : ℕ). if text_eq t tag then n else k) (count_of-sorted_counts tag counts h.1)

module _ (g : FunctionManager) (m : TagManager g) where
  -- How often the functions have a tag.
  pub uses_by : List ℕ → List (FunctionManager.Function g) → FunctionManager.W g → ℕ
  uses_by tag [] w = 0
  uses_by tag (func ∷ funcs) w = uses_in tag (TagManager.tags m func w) + uses_by tag funcs w

  count_of-count_uses :
      (tag : List ℕ) (funcs : List (FunctionManager.Function g)) (w : FunctionManager.W g)
      (counts : Counts)
      → count_of tag (count_uses g m funcs w counts) ≡ count_of tag counts + uses_by tag funcs w
  unfolding count_uses uses_by
  count_of-count_uses tag [] w counts = omega arith
  count_of-count_uses tag (func ∷ funcs) w counts = omega (
    arith,
    count_of-count_uses tag funcs w (count_tags (TagManager.tags m func w) counts),
    count_of-count_tags tag (TagManager.tags m func w) counts,
  )

  count_uses-Nodup :
      (funcs : List (FunctionManager.Function g)) (w : FunctionManager.W g) (counts : Counts)
      → Nodup counts
      → Nodup (count_uses g m funcs w counts)
  unfolding count_uses
  count_uses-Nodup [] w counts h = h
  count_uses-Nodup (func ∷ funcs) w counts h =
      count_uses-Nodup funcs w (count_tags (TagManager.tags m func w) counts)
        (count_tags-Nodup (TagManager.tags m func w) counts h)

  listed :
      (program : FunctionManager.P g) (w : FunctionManager.W g) (tag : List ℕ)
      → count_of tag (
          sorted_counts (
            count_uses g m
              (FunctionManager.functions g program w)
              w
              (define_tags (TagManager.all_tags m program w) [])))
        ≡ uses_by tag (FunctionManager.functions g program w) w
  unfolding count_of
  listed program w tag =
      let funcs = FunctionManager.functions g program w in
      let defined = define_tags (TagManager.all_tags m program w) [] in
      count_of-sorted_counts tag (count_uses g m funcs w defined) (
        count_uses-Nodup funcs w defined
          (define_tags-Nodup (TagManager.all_tags m program w) [] tt))
      ∙ count_of-count_uses tag funcs w defined
      ∙ ap (λ (n : ℕ). n + uses_by tag funcs w)
          (count_of-define_tags tag (TagManager.all_tags m program w) [] refl)
      ∙ omega arith

  -- `list_tags` counts each tag as often as the functions of the program have it; a tag that is
  -- not listed counts as zero.
  pub list_tags-uses_by :
      (binary : String) (programs : Dict (ProgramInfo (FunctionManager.P g)))
      (w : FunctionManager.W g) (counts : Counts) (tag : List ℕ)
      → list_tags g m binary programs w ≡ ok counts
      → (pi : ProgramInfo (FunctionManager.P g)) × (get_program binary programs ≡ ok pi)
        × (count_of tag counts ≡ uses_by tag (FunctionManager.functions g pi.program w) w)
  unfolding list_tags
  list_tags-uses_by binary programs w counts tag h =
      let (pi, found, e) = >>=-ok (get_program binary programs) _ h in
      (pi, found, ap (count_of tag) (sym (ok_inj _ counts e)) ∙ listed pi.program w tag)
    where
      ok_inj : (c d : Counts) → ok c ≡ ok d → c ≡ d
      ok_inj c d e = cc

-- ===== src/Tags.antt =====
-- ghidra_rpc/server/tools/tags.py: tagging functions, and listing by tag.
-- A tag is its list of characters, taken below 256. Functions are Ghidra's, as in Functions.
pub mod Tagging
pub mod Counting
pub mod Listed
use ghidra_rpc_win.Common.{
  ℕ, ◌+◌, String, Bool, true, false, ◌&&◌, ◌||◌, Option, none, some, List, [], ◌∷◌, if◌then◌else◌,
  ltb, ◌==◌, is_empty, length,
}
use ghidra_rpc_win.Common.Dict.{Dict}
use ghidra_rpc_win.Common.Text.{text_eq, strip}
use ghidra_rpc_win.Common.Exec.{Exn, Result, ok, err, raise, value_error, reject_if, ◌>>=◌, ◌>>◌}
use ghidra_rpc_win.Context.{ProgramInfo, get_program}
use ghidra_rpc_win.Functions.{FunctionManager, find_function, ghidra_transaction}
use ghidra_rpc_win.Listing.{Page, page}

-- The tag manager of a program, and the tags of its functions.
pub record TagManager (g : FunctionManager) : Type 0 where
  pub has_function_tag : FunctionManager.P g → List ℕ → FunctionManager.W g → Bool
  pub create_function_tag :
      FunctionManager.P g → List ℕ → FunctionManager.W g → Result (Unit {0}) × FunctionManager.W g
  pub add_tag :
      FunctionManager.Function g
      → List ℕ
      → FunctionManager.W g
      → Result (Unit {0}) × FunctionManager.W g
  pub remove_tag :
      FunctionManager.Function g
      → List ℕ
      → FunctionManager.W g
      → Result (Unit {0}) × FunctionManager.W g
  pub tags : FunctionManager.Function g → FunctionManager.W g → List (List ℕ)
  pub all_tags : FunctionManager.P g → FunctionManager.W g → List (List ℕ)
  pub save : FunctionManager.P g → FunctionManager.W g → Result (Unit {0}) × FunctionManager.W g

-- Python's order of texts, and `sorted`.
unfoldable pub text_leb : List ℕ → List ℕ → Bool
text_leb [] t = true
text_leb (a ∷ s) [] = false
text_leb (a ∷ s) (b ∷ t) = let rest = text_leb s t in ltb a b || (a == b && rest)

unfoldable pub insert_text : List ℕ → List (List ℕ) → List (List ℕ)
unfolding text_leb
insert_text t [] = t ∷ []
insert_text t (s ∷ ts) =
    let rest = insert_text t ts in if text_leb t s then t ∷ s ∷ ts else s ∷ rest

unfoldable pub sorted : List (List ℕ) → List (List ℕ)
unfolding insert_text
sorted [] = []
sorted (t ∷ ts) = insert_text t (sorted ts)

-- `tag in tags`
unfoldable pub has_tag : List ℕ → List (List ℕ) → Bool
unfolding text_eq
has_tag tag [] = false
has_tag tag (t ∷ ts) = text_eq t tag || has_tag tag ts

-- A dict from tags to counts, in insertion order: `counts[t] = 0`, and one more for a tag.
abbrev pub Counts : Type 0
Counts = List (List ℕ × ℕ)

unfoldable pub define_tag : List ℕ → Counts → Counts
unfolding text_eq
define_tag tag [] = (tag, 0) ∷ []
define_tag tag ((t, n) ∷ counts) =
    let rest = define_tag tag counts in if text_eq t tag then (t, 0) ∷ counts else (t, n) ∷ rest

unfoldable pub count_tag : List ℕ → Counts → Counts
unfolding text_eq
count_tag tag [] = (tag, 1) ∷ []
count_tag tag ((t, n) ∷ counts) =
    let rest = count_tag tag counts in if text_eq t tag then (t, n + 1) ∷ counts else (t, n) ∷ rest

unfoldable pub define_tags : List (List ℕ) → Counts → Counts
unfolding define_tag
define_tags [] counts = counts
define_tags (tag ∷ tags) counts = define_tags tags (define_tag tag counts)

unfoldable pub count_tags : List (List ℕ) → Counts → Counts
unfolding count_tag
count_tags [] counts = counts
count_tags (tag ∷ tags) counts = count_tags tags (count_tag tag counts)

-- `sorted(tag_counts.items())`; the tags of a dict differ, so their counts are never compared.
unfoldable pub insert_count : List ℕ → ℕ → Counts → Counts
unfolding text_leb
insert_count tag n [] = (tag, n) ∷ []
insert_count tag n ((t, k) ∷ counts) =
    let rest = insert_count tag n counts in
    if text_leb tag t then (tag, n) ∷ (t, k) ∷ counts else (t, k) ∷ rest

unfoldable pub sorted_counts : Counts → Counts
unfolding insert_count
sorted_counts [] = []
sorted_counts ((t, n) ∷ counts) = insert_count t n (sorted_counts counts)

module _ (g : FunctionManager) (m : TagManager g) where
  open g use {P, W, Function, functions}
  open m use {has_function_tag, create_function_tag, add_tag, remove_tag, tags, all_tags, save}

  pub record TagResult : Type 0 where
    pub func : Function
    pub tag : List ℕ
    pub tags_after : List (List ℕ)

  pub record UntagResult : Type 0 where
    pub func : Function
    pub tag : List ℕ
    pub removed : Bool
    pub tags_after : List (List ℕ)

  -- The checks that both handlers begin with, and the program.
  unfoldable pub tag_request : String → List ℕ → List ℕ → Dict (ProgramInfo P) → Result P
  unfolding get_program
  tag_request binary target tag programs = do
    reject_if (is_empty target) ("Missing required argument: target" ∷ [])
    reject_if (is_empty tag) ("Missing required argument: tag" ∷ [])
    pi ← get_program binary programs
    ok pi.program

  -- Inside the transaction: the tag is created if need be, and the stripped text is added.
  abbrev after_create : Function → List ℕ → Result (Unit {0}) × W → Result (Unit {0}) × W
  after_create func tag (err e, w) = (err e, w)
  after_create func tag (ok u, w) = add_tag func (strip tag) w

  unfoldable pub tag_body : P → Function → List ℕ → W → Result (Unit {0}) × W
  tag_body program func tag w =
      if has_function_tag program tag w
      then add_tag func (strip tag) w
      else after_create func tag (create_function_tag program tag w)

  abbrev pub after_save : {R : Type 0} → R → Result (Unit {0}) × W → Result R × W
  after_save r (err e, w) = (err e, w)
  after_save r (ok u, w) = (ok r, w)

  abbrev pub tagged : P → Function → List ℕ → Result (Unit {0}) × W → Result TagResult × W
  tagged program func tag (err e, w) = (err e, w)
  tagged program func tag (ok u, w) =
      after_save (record { func = func; tag = tag; tags_after = sorted (tags func w) })
        (save program w)

  abbrev pub do_tag : P → List ℕ → W → Result Function → Result TagResult × W
  do_tag program tag w (err e) = (err e, w)
  do_tag program tag w (ok func) =
      tagged program func tag (ghidra_transaction g program (tag_body program func tag) w)

  abbrev tag_in : List ℕ → List ℕ → W → Result P → Result TagResult × W
  tag_in target tag w (err e) = (err e, w)
  tag_in target tag w (ok program) = do_tag program tag w (find_function g program target w)

  unfoldable pub tag_function :
      String → List ℕ → List ℕ → Dict (ProgramInfo P) → W → Result TagResult × W
  unfolding tag_request tag_body sorted ghidra_transaction find_function
  tag_function binary target tag programs w =
      tag_in target tag w (tag_request binary target tag programs)

  -- Only a removal is saved.
  abbrev pub untagged : P → Function → List ℕ → Result (Unit {0}) × W → Result UntagResult × W
  untagged program func tag (err e, w) = (err e, w)
  untagged program func tag (ok u, w) =
      after_save
        (record { func = func; tag = tag; removed = true; tags_after = sorted (tags func w) })
        (save program w)

  unfoldable pub do_untag : P → Function → List ℕ → W → Result UntagResult × W
  unfolding has_tag sorted ghidra_transaction
  do_untag program func tag w =
      if has_tag tag (tags func w)
      then untagged program func tag (ghidra_transaction g program (remove_tag func tag) w)
      else (
        ok (record { func = func; tag = tag; removed = false; tags_after = sorted (tags func w) }),
        w,
      )

  abbrev pub untag_found : P → List ℕ → W → Result Function → Result UntagResult × W
  untag_found program tag w (err e) = (err e, w)
  untag_found program tag w (ok func) = do_untag program func tag w

  abbrev untag_in : List ℕ → List ℕ → W → Result P → Result UntagResult × W
  untag_in target tag w (err e) = (err e, w)
  untag_in target tag w (ok program) = untag_found program tag w (find_function g program target w)

  unfoldable pub untag_function :
      String → List ℕ → List ℕ → Dict (ProgramInfo P) → W → Result UntagResult × W
  unfolding tag_request do_untag find_function
  untag_function binary target tag programs w =
      untag_in target tag w (tag_request binary target tag programs)

  -- The uses of the tags in the functions that are left.
  unfoldable pub count_uses : List Function → W → Counts → Counts
  unfolding count_tags
  count_uses [] w counts = counts
  count_uses (func ∷ funcs) w counts = count_uses funcs w (count_tags (tags func w) counts)

  unfoldable pub list_tags : String → Dict (ProgramInfo P) → W → Result Counts
  unfolding get_program define_tags count_uses sorted_counts
  list_tags binary programs w = do
    pi ← get_program binary programs
    ok (
        sorted_counts
          (count_uses (functions pi.program w) w (define_tags (all_tags pi.program w) [])))

  unfoldable pub functions_by_tag :
      String → List ℕ → ℕ → Dict (ProgramInfo P) → W → Result (Page Function)
  unfolding get_program has_tag page
  functions_by_tag binary tag limit programs w = do
    reject_if (is_empty tag) ("Missing required argument: tag" ∷ [])
    pi ← get_program binary programs
    ok (page (λ func. has_tag tag (tags func w)) (λ func. func) limit (functions pi.program w))

-- ===== src/Tests/Tags.antt =====
-- Runs of the function search and of the tag handlers, on two functions; only `main` has tags.
use ghidra_rpc_win.Common.{
  ℕ, ◌≡◌, refl, sym, ◌∙◌, ap, ◌↔◌, ◌⊎◌, Bool, true, false, none, List, [], ◌∷◌, keep, if◌then◌else◌,
}
use ghidra_rpc_win.Common.Dict
use ghidra_rpc_win.Common.Dict.{Dict}
use ghidra_rpc_win.Common.Text.{
  codes, text_eq, text_eq_iff, in_text, starts_with, lower, lstrip, rstrip, is_space,
}
use ghidra_rpc_win.Common.Exec.{Result, ok}
use ghidra_rpc_win.Context.{ProgramInfo, get_program}
use ghidra_rpc_win.Functions.{FunctionManager, find_function, is_exact, ghidra_transaction}
use ghidra_rpc_win.Functions.Resolve.{is_partial, find_function_iff}
use ghidra_rpc_win.Listing.{Page}
use ghidra_rpc_win.Tags.{
  TagManager, TagResult, UntagResult, has_tag, insert_text, sorted, text_leb, do_tag, do_untag,
  tag_body, list_tags, functions_by_tag,
}
use ghidra_rpc_win.Tags.Tagging.{IsLawful}
use ghidra_rpc_win.Tags.Counting.{count_of, uses_by, list_tags-uses_by}

abbrev manager : FunctionManager
manager = record {
  P = Unit;
  W = List (List ℕ);
  Address = List ℕ;
  Function = Bool;
  get_address = λ p t. ok none;
  function_at = λ p a w. ok none;
  function_containing = λ p a w. ok none;
  functions = λ p w. true ∷ false ∷ [];
  name = λ f w. if f then codes "main" else codes "domain_init";
  start_transaction = λ p w. w;
  end_transaction = λ p committed w. w;
}

abbrev tag_manager : TagManager manager
tag_manager = record {
  has_function_tag = λ p tag w. has_tag tag w;
  create_function_tag = λ p tag w. (ok tt, w);
  add_tag = λ f tag w. (ok tt, tag ∷ w);
  remove_tag = λ f tag w. (ok tt, []);
  tags = λ f w. w;
  all_tags = λ p w. w;
  save = λ p w. (ok tt, w);
}

abbrev Step : Type 0
Step = Result (Unit {0}) × List (List ℕ)

same_state : (v w : List (List ℕ)) → ◌≡◌ {A = Step} (ok tt, v) (ok tt, w) → v ≡ w
same_state v w h = cc

has_head : (tag : List ℕ) (w : List (List ℕ)) → has_tag tag (tag ∷ w) ≡ true
unfolding has_tag
has_head tag w = rw ((text_eq_iff tag tag).1 refl)

tag_manager-IsLawful : IsLawful manager tag_manager
tag_manager-IsLawful = record {
  tags-add_tag =
      λ func tag w w' h. ap (has_tag tag) (sym (same_state (tag ∷ w) w' h)) ∙ has_head tag w;
  tags-commit = λ program func w. refl;
  tags-save = λ program func w w' h. sym (same_state w w' h);
}

by_name : find_function manager tt (codes "MAIN") [] ≡ ok true
unfolding find_function text_eq in_text starts_with lower
by_name = refl

abbrev MatchesOf : List ℕ → Bool → Type 0
MatchesOf target func =
    (keep (is_exact manager target []) (true ∷ false ∷ []) ≡ func ∷ [])
    ⊎ ((keep (is_exact manager target []) (true ∷ false ∷ []) ≡ [])
        × (keep (is_partial manager target []) (true ∷ false ∷ []) ≡ func ∷ []))

find_function_iff_example :
    (find_function manager tt (codes "MAIN") [] ≡ ok true) ↔ MatchesOf (codes "MAIN") true
unfolding starts_with
find_function_iff_example = find_function_iff manager tt (codes "MAIN") [] true refl

abbrev tag_result : TagResult manager tag_manager
tag_result = record { func = true; tag = codes " x "; tags_after = codes "a" ∷ codes "x" ∷ [] }

abbrev untag_result : UntagResult manager tag_manager
untag_result = record { func = true; tag = codes "x"; removed = true; tags_after = [] }

tagging :
    do_tag manager tag_manager tt (codes " x ") (codes "a" ∷ []) (ok true)
    ≡ (ok tag_result, codes "x" ∷ codes "a" ∷ [])
unfolding has_tag insert_text text_leb ghidra_transaction tag_body text_eq lstrip rstrip is_space
    sorted
tagging = refl

untagging :
    do_untag manager tag_manager tt true (codes "x") (codes "x" ∷ codes "a" ∷ [])
    ≡ (ok untag_result, [])
unfolding do_untag text_eq
untagging = refl

abbrev programs : Dict (ProgramInfo Unit)
programs =
    ("/ls", record { name = "ls"; program = tt; analysis_complete = true; file_path = none }) ∷ []

listing :
    list_tags manager tag_manager "ls" programs (codes "b" ∷ codes "a" ∷ [])
    ≡ ok ((codes "a", 2) ∷ (codes "b", 2) ∷ [])
unfolding list_tags get_program Dict.lookup in_text text_eq
listing = refl

list_tags-uses_by_example :
    (pi : ProgramInfo Unit) × (get_program "ls" programs ≡ ok pi)
    × (count_of (codes "a") ((codes "a", 2) ∷ (codes "b", 2) ∷ [])
        ≡ uses_by manager tag_manager (codes "a") (true ∷ false ∷ []) (codes "b" ∷ codes "a" ∷ []))
list_tags-uses_by_example =
    list_tags-uses_by manager tag_manager "ls" programs (codes "b" ∷ codes "a" ∷ [])
      ((codes "a", 2) ∷ (codes "b", 2) ∷ []) (codes "a") listing

abbrev first_of_two : Page Bool
first_of_two = record { rows = true ∷ []; count = 1; total = 2 }

by_tag :
    functions_by_tag manager tag_manager "ls" (codes "a") 1 programs (codes "a" ∷ [])
    ≡ ok first_of_two
unfolding functions_by_tag get_program Dict.lookup in_text text_eq
by_tag = refl

-- ===== src/Tests/Bookmarks.antt =====
-- Runs of the bookmark handlers, on a manager that keeps one comment.
use ghidra_rpc_win.Common.{
  ℕ, String, ◌≡◌, refl, sym, Bool, true, false, Option, none, some, List, [], ◌∷◌,
}
use ghidra_rpc_win.Common.Dict
use ghidra_rpc_win.Common.Dict.{Dict}
use ghidra_rpc_win.Common.Text.{codes, text_eq, lower, in_text}
use ghidra_rpc_win.Common.Exec.{Result, ok}
use ghidra_rpc_win.Context.{ProgramInfo, get_program, parse_address}
use ghidra_rpc_win.Bookmarks.{
  Manager, SetResult, RemoveResult, created, updated, set_bookmark, remove_bookmark, find_type,
}
use ghidra_rpc_win.Bookmarks.Marking.{IsLawful, remove_bookmark-set_bookmark}

abbrev manager : Manager
manager = record {
  P = Unit;
  W = Option String;
  Address = List ℕ;
  Bookmark = String;
  get_address = λ p t. some t;
  get_bookmark = λ p a t c w. w;
  set_bookmark = λ p a t c text w. (ok tt, some text);
  remove_bookmark = λ p bm w. (ok tt, none);
  bookmarks_at = λ p a w. "x" ∷ "y" ∷ [];
  bookmarks_of = λ p t w. "x" ∷ [];
  all_bookmarks = λ p w. "x" ∷ "y" ∷ "z" ∷ [];
  address_of = λ bm. codes "0";
  type_string = λ bm. "Note";
  category = λ bm. "";
  comment = λ bm. bm;
  save = λ p w. (ok tt, w);
}

abbrev Step : Type 0
Step = Result (Unit {0}) × Option String

same_state : (v w : Option String) → ◌≡◌ {A = Step} (ok tt, v) (ok tt, w) → v ≡ w
same_state v w h = cc

manager-IsLawful : IsLawful manager
manager-IsLawful = record {
  get-set = λ program addr bm_type cat text w w' h. (text, sym (same_state (some text) w' h));
  get-remove = λ program addr bm_type cat bm w w' found h. sym (same_state none w' h);
  get-save = λ program addr bm_type cat w w' h. sym (same_state w w' h);
}

abbrev programs : Dict (ProgramInfo Unit)
programs =
    ("/ls", record { name = "ls"; program = tt; analysis_complete = true; file_path = none }) ∷ []

abbrev set_result : String → SetResult manager
set_result text = record {
  address = codes "401000";
  bm_type = "Note";
  category_text = "vuln";
  comment_text = text;
  action = created;
}

abbrev again : SetResult manager
again = record (set_result "b") { action = updated }

abbrev removed : Bool → RemoveResult manager
removed b = record { address = codes "401000"; bm_type = "Note"; removed = b }

first_set :
    set_bookmark manager "ls" "0x401000" "NOTE" "vuln" "a" programs none
    ≡ (ok (set_result "a"), some "a")
unfolding set_bookmark find_type get_program parse_address Dict.lookup in_text text_eq lower
first_set = refl

second_set :
    set_bookmark manager "ls" "0x401000" "NOTE" "vuln" "b" programs (some "a")
    ≡ (ok again, some "b")
unfolding set_bookmark find_type get_program parse_address Dict.lookup in_text text_eq lower
second_set = refl

first_removal :
    remove_bookmark manager "ls" "0x401000" "NOTE" "vuln" programs (some "a")
    ≡ (ok (removed true), none)
unfolding remove_bookmark find_type get_program parse_address Dict.lookup in_text text_eq lower
first_removal = refl

second_removal :
    remove_bookmark manager "ls" "0x401000" "NOTE" "vuln" programs none ≡ (ok (removed false), none)
unfolding remove_bookmark find_type get_program parse_address Dict.lookup in_text text_eq lower
second_removal = refl

remove_bookmark-set_bookmark_example : (true ≡ true) × (false ≡ false)
remove_bookmark-set_bookmark_example =
    remove_bookmark-set_bookmark manager manager-IsLawful "ls" "0x401000" "NOTE" "vuln" "a" programs
      none (some "a") none none (set_result "a") (removed true) (removed false) first_set
      first_removal second_removal

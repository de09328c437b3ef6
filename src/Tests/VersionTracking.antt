-- ===== src/Tests/VersionTracking.antt =====
-- Runs of a comparison of two programs.
use ghidra_rpc_win.Common.{
  All, map, take, drop, min, ◌-◌, if◌then◌else◌, ℕ, ◌+◌, ◌≤◌, ◌≡◌, refl, ◌⊎◌, ap, arith, eq_iff,
  Option, String, str_eq, Bool, true, false, not, ◌&&◌, none, some, List, [], ◌∷◌, ◌==◌, length,
  keep,
}
use ghidra_rpc_win.Common.Dict
use ghidra_rpc_win.Common.Exec.{Exn, Result, ok, err, os_error}
use ghidra_rpc_win.Common.Text.{codes, in_text, text_eq}
use ghidra_rpc_win.Context.{ProgramInfo, get_program}
use ghidra_rpc_win.Context.Loading.{Project, Context}
use ghidra_rpc_win.VersionTracking.Bulk.{
  Decompiler, FunctionRow, own_functions, decompile_program, has_error,
}
use ghidra_rpc_win.VersionTracking.Paged.{decompile_program-page}
use ghidra_rpc_win.VersionTracking.Normalise.{
  prefixed, is_var, decompiled_rules, normalise_decompiled,
}
use ghidra_rpc_win.VersionTracking.Normalised.{
  words_of, first_match, Unmatched, normalise_decompiled-words,
}
use ghidra_rpc_win.VersionTracking.{
  function_association, Match, MatchSet, Program, Scale, Options, Entry, best_matches,
  collect_matches, track_report, is_changed,
}
use ghidra_rpc_win.VersionTracking.Best.{IsBest, NodupSources, find_source, best_matches-IsBest}
use ghidra_rpc_win.VersionTracking.Ranked.{IsDescending, track_report-IsDescending}
use ghidra_rpc_win.VersionTracking.Handles.{
  Tracker, Pair, Opened, open_vt_programs, with_session, ◌>>=◌,
}
use ghidra_rpc_win.VersionTracking.Handles.Standing.{IsIdentity, IsKeyed}
use ghidra_rpc_win.VersionTracking.Handles.Restoring.{IsGivenBack}
use ghidra_rpc_win.VersionTracking.Handles.Gone.{BothGone}
use ghidra_rpc_win.VersionTracking.Handles.Kept.{SameProgram, with_session-Taken}
use ghidra_rpc_win.VersionTracking.Tracking.{track, version_track, vt_session_name}
use ghidra_rpc_win.VersionTracking.Tracking.Keys.{version_track-SameProgram}

abbrev match_of : String → String → ℕ → Match
match_of source destination similarity = record {
  association = function_association;
  status = "AVAILABLE";
  similarity = similarity;
  confidence = 1;
  source_address = source;
  destination_address = destination;
}

abbrev sets : List MatchSet
sets =
    record { correlator = some "Exact"; matches = match_of "10" "20" 4 ∷ match_of "11" "21" 9 ∷ [] }
    ∷ record { correlator = none; matches = match_of "10" "22" 7 ∷ [] }
    ∷ []

abbrev scale : Scale
scale = record { one = 9; round4 = λ n. n }

abbrev options : Options
options = record { limit = 5; include_data = false; min_similarity = 1; changed_only = false }

abbrev code : Program
code = record {
  functions = [];
  function_at = λ addr. some addr;
  function_containing = λ addr. none;
}

abbrev collected : List Entry
collected = collect_matches scale options code code sets

best_matches-IsBest_example :
    NodupSources (best_matches collected)
    × ((addr : String) → IsBest addr collected (find_source addr (best_matches collected)))
best_matches-IsBest_example = best_matches-IsBest collected

track_report-IsDescending_example :
    let r = track_report scale options code code sets in
    let best = best_matches collected in
    IsDescending r.matched
    × ((options.limit ≡ 0) ⊎ (length r.matched ≤ options.limit))
    × (r.source_functions_matched ≡ length best)
    × (r.changed_functions ≡ length (keep (is_changed scale) best))
    × (r.identical_functions ≡ length (keep (λ e. not (is_changed scale e)) best))
track_report-IsDescending_example = track_report-IsDescending scale options code code sets

abbrev project : Project
project = record {
  P = ℕ;
  W = ℕ;
  resolve = λ p. p;
  exists = λ p w. true;
  unique_name = λ p w. p;
  file_name = λ p. p;
  get_file = λ name w. true;
  open_program = λ name w. (ok w, w + 1);
  import_program = λ p w. (ok none, w);
  save_as = λ p name w. (ok tt, w);
  close_program = λ p w. (ok tt, w);
  save = λ p w. (ok tt, w);
  is_analyzed = λ p w. true;
  analysis = λ p w. (record { seconds = 1; outcome = ok tt }, w);
  mark_analyzed = λ p w. w;
  close_project = λ w. (ok tt, w);
}

abbrev lock_held : Exn
lock_held = record { kind = os_error; message = "locked" ∷ [] }

-- Records are compared field by field.
abbrev same_bool : Bool → Bool → Bool
same_bool true b = b
same_bool false b = not b

abbrev same_path : Option String → Option String → Bool
same_path none none = true
same_path (some p) (some q) = str_eq p q
same_path _ _ = false

abbrev same_info : ProgramInfo ℕ → ProgramInfo ℕ → Bool
same_info x y =
    str_eq x.name y.name
    && (x.program == y.program
        && (same_bool x.analysis_complete y.analysis_complete && same_path x.file_path y.file_path))

-- A tracker whose sessions are created, or not.
abbrev tracker : Bool → Tracker project
tracker creates = record {
  V = ℕ;
  C = ℕ;
  same = same_info;
  get_domain_object = λ name w. (ok w, w + 1);
  create_session = λ name src dst w. (session_or creates w, w);
  release_session = λ v w. (ok tt, w);
  release = λ p w. (ok tt, w);
  make_correlator = λ factory src dst w. (ok 0, w);
  start_transaction = λ v w. (ok tt, w);
  correlate = λ c v w. (ok tt, w);
  end_transaction = λ v b w. w;
  match_sets = λ v w. ok sets;
  listing = λ p w. code;
}
  where
    session_or : Bool → ℕ → Result ℕ
    session_or true w = ok w
    session_or false w = err lock_held

abbrev loaded : ℕ → String → ProgramInfo ℕ
loaded n name = record { name = name; program = n; analysis_complete = true; file_path = none }

abbrev two_loaded : Context project
two_loaded = record { programs = ("/v1", loaded 1 "v1") ∷ ("/v2", loaded 2 "v2") ∷ []; world = 10 }

abbrev none_loaded : Context project
none_loaded = record { programs = []; world = 12 }

abbrev pair : (b : Bool) → Pair project (tracker b)
pair b = record { src_name = "v1"; dst_name = "v2"; src_key = some "/v1"; dst_key = some "/v2" }

abbrev opened : (b : Bool) → Opened project (tracker b)
opened b = record { src_prog = 10; dst_prog = 11 }

both_opened :
    (b : Bool)
    → open_vt_programs project (tracker b) "/v1" "/v2" two_loaded
      ≡ (ok (pair b, opened b), none_loaded)
unfolding open_vt_programs get_program Dict.lookup Dict.contains Dict.erase in_text text_eq ◌>>=◌
both_opened b = refl

gives_back : (b : Bool) → IsGivenBack project (tracker b)
gives_back b = record {
  release_session = λ v w. refl;
  release = λ p w. refl;
  open_program = λ name w. (w, refl);
}

same_info_lem : (x y : ProgramInfo ℕ) → same_info x y ≡ true → x ≡ y
same_info_lem x y h =
    let (names, h1) = both (str_eq x.name y.name) _ h in
    let (programs, h2) = both (x.program == y.program) _ h1 in
    let (complete, paths) = both (same_bool x.analysis_complete y.analysis_complete) _ h2 in
    equal ((eq_iff x.name y.name).0 names) (numbers x.program y.program programs)
      (bools x.analysis_complete y.analysis_complete complete)
      (path_texts x.file_path y.file_path paths)
  where
    both : (a b : Bool) → a && b ≡ true → (a ≡ true) × (b ≡ true)
    both true b h = (refl, h)
    both false b h = cc

    numbers : (m n : ℕ) → m == n ≡ true → m ≡ n
    numbers m n h = ground arith

    bools : (a b : Bool) → same_bool a b ≡ true → a ≡ b
    bools true true h = refl
    bools true false h = cc
    bools false true h = cc
    bools false false h = refl

    path_texts : (p q : Option String) → same_path p q ≡ true → p ≡ q
    path_texts none none h = refl
    path_texts none (some q) h = cc
    path_texts (some p) none h = cc
    path_texts (some p) (some q) h = ap some ((eq_iff p q).0 h)

    equal :
        {n m : String} {p q : ℕ} {a b : Bool} {f k : Option String}
        → n ≡ m
        → p ≡ q
        → a ≡ b
        → f ≡ k
        → ◌≡◌ {A = ProgramInfo ℕ}
            (record { name = n; program = p; analysis_complete = a; file_path = f })
            (record { name = m; program = q; analysis_complete = b; file_path = k })
    equal e1 e2 e3 e4 = rw (e1, e2, e3, e4) refl

tracker-IsIdentity : (b : Bool) → IsIdentity project (tracker b)
tracker-IsIdentity b = record { refl_law = λ x. reflexive x; eq_law = same_info_lem }
  where
    bools : (a : Bool) → same_bool a a ≡ true
    bools true = refl
    bools false = refl

    path_texts : (p : Option String) → same_path p p ≡ true
    path_texts none = refl
    path_texts (some p) = (eq_iff p p).1 refl

    numbers : (n : ℕ) → n == n ≡ true
    numbers n = ground arith

    reflexive : (x : ProgramInfo ℕ) → same_info x x ≡ true
    reflexive x =
        rw
          (
            (eq_iff x.name x.name).1 refl,
            numbers x.program,
            bools x.analysis_complete,
            path_texts x.file_path,
          )
          refl

two_loaded-IsKeyed : (b : Bool) → IsKeyed project (tracker b) two_loaded.programs
unfolding Dict.lookup
two_loaded-IsKeyed b = record { nodup = (refl, (refl, tt)); no_empty = refl }

version_track-SameProgram_example :
    ((version_track project (tracker true) scale options "/v1" "/v2" two_loaded).0
      ≡ (track project (tracker true) scale options (opened true) 12 none_loaded).0)
    × ((k : String)
        → SameProgram project
            (tracker true)
            k
            two_loaded
            (version_track project (tracker true) scale options "/v1" "/v2" two_loaded).1)
version_track-SameProgram_example =
    version_track-SameProgram project (tracker true) scale options "/v1" "/v2" (pair true)
      (opened true) 12 two_loaded none_loaded none_loaded (tracker-IsIdentity true)
      (two_loaded-IsKeyed true) refl (both_opened true) refl (gives_back true)

-- Without a session both programs are lost.
with_session-Taken_example :
    ((with_session project
        (tracker false)
        (vt_session_name project (tracker false))
        "/v1"
        "/v2"
        (track project (tracker false) scale options)
        two_loaded).0
      ≡ err lock_held)
    × BothGone project
        (tracker false)
        "/v1"
        "/v2"
        two_loaded
        (with_session project
          (tracker false)
          (vt_session_name project (tracker false))
          "/v1"
          "/v2"
          (track project (tracker false) scale options)
          two_loaded).1
with_session-Taken_example =
    with_session-Taken project (tracker false) (vt_session_name project (tracker false)) "/v1" "/v2"
      (track project (tracker false) scale options) (pair false) (opened false) lock_held two_loaded
      none_loaded none_loaded (tracker-IsIdentity false) (two_loaded-IsKeyed false)
      (both_opened false) refl

normalise_decompiled-words_example :
    (words_of [] (normalise_decompiled (codes "local_1c = FUN_00401000(x)"))
      ≡ map (first_match decompiled_rules) (words_of [] (codes "local_1c = FUN_00401000(x)")))
    × All
        (λ w. Unmatched w decompiled_rules)
        (words_of [] (normalise_decompiled (codes "local_1c = FUN_00401000(x)")))
normalise_decompiled-words_example = normalise_decompiled-words (codes "local_1c = FUN_00401000(x)")

-- The names of pointers that Ghidra makes up are no pattern's.
pointer_kept :
    normalise_decompiled (codes "pcVar3 = PTR_DAT_00402000;") ≡ codes "pcVar3 = PTR_DAT_00402000;"
unfolding normalise_decompiled prefixed is_var
pointer_kept = refl

relocated : normalise_decompiled (codes "FUN_00401000(x)") ≡ codes "FUN_ADDR(x)"
unfolding normalise_decompiled prefixed is_var
relocated = refl

-- Functions are their numbers; the decompiler fails on 2.
abbrev decompiler : Decompiler
decompiler = record {
  P = Unit {0};
  W = ℕ;
  F = ℕ;
  functions = λ program w. 1 ∷ 2 ∷ 3 ∷ [];
  is_external = λ f. f == 1;
  is_thunk = λ f. false;
  name = λ f. "f";
  entry_point = λ f. if f == 2 then "20" else "30";
  signature = λ f. "void f(void)";
  decompile = λ program f timeout w. (
    if f == 2 then err lock_held else ok (record { error_message = none; c_and_signature = none }),
    w + 1,
  );
}

decompile_program-page_example :
    let all_funcs = own_functions decompiler (1 ∷ 2 ∷ 3 ∷ []) in
    let b = (decompile_program decompiler 0 (some 5) 60 tt 0).0 in
    (map (λ (row : FunctionRow). row.address) b.functions
      ≡ map (Decompiler.entry_point decompiler) (take 5 (drop 0 all_funcs)))
    × (b.errors ≡ length (keep (has_error decompiler) b.functions))
    × (b.count ≡ min 5 (b.total - 0))
    × (b.total ≡ length all_funcs)
decompile_program-page_example = decompile_program-page decompiler 0 5 60 tt 0

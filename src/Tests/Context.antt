-- ===== src/Tests/Context.antt =====
-- Runs of the program lookup, of saving, and of loading.
use ghidra_rpc_win.Common.{
  ℕ, zero, suc, ◌+◌, String, ◌≡◌, refl, ◌≢◌, ◌↔◌, true, false, none, some, [], ◌∷◌,
}
use ghidra_rpc_win.Common.Dict
use ghidra_rpc_win.Common.Dict.{Dict}
use ghidra_rpc_win.Common.Text.{in_text, text_eq}
use ghidra_rpc_win.Common.Exec.{Exn, ok, os_error}
use ghidra_rpc_win.Context.{
  ProgramInfo, get_program, run_analysis, SaveAttempt, active_transaction, save_failed, save_raised,
  save_program,
}
use ghidra_rpc_win.Context.Lookup.{get_program-insert}
use ghidra_rpc_win.Context.Saving.{RaisesAt, save_program_iff}
use ghidra_rpc_win.Context.Loading.{Project, Context, load_binary, find_loaded, ◌>>=◌}
use ghidra_rpc_win.Context.Loading.Reload.{get_program-load_binary}

abbrev program : ℕ → String → ProgramInfo ℕ
program n name = record { name = name; program = n; analysis_complete = true; file_path = none }

abbrev two_programs : Dict (ProgramInfo ℕ)
two_programs = ("/ls-1", program 1 "ls-1") ∷ ("/cat-2", program 2 "cat-2") ∷ []

by_part : get_program "ls" two_programs ≡ ok (program 1 "ls-1")
unfolding get_program Dict.lookup in_text text_eq
by_part = refl

other_key : ◌≢◌ {A = String} "/rm-3" "ls"
other_key e = cc

get_program-insert_example : program 1 "ls-1" ≡ program 1 "ls-1"
unfolding get_program Dict.lookup Dict.insert Dict.contains in_text text_eq
get_program-insert_example =
    get_program-insert "ls" "/rm-3" (program 3 "rm-3") two_programs (program 1 "ls-1")
      (program 1 "ls-1") other_key refl refl refl

abbrev broken : Exn
broken = record { kind = os_error; message = "disk" ∷ [] }

abbrev attempts : ℕ → SaveAttempt
attempts zero = active_transaction
attempts (suc n) = save_failed broken

save_program_iff_example : (save_program attempts ≡ save_raised broken) ↔ RaisesAt attempts 6 broken
save_program_iff_example = save_program_iff attempts broken

-- A project whose import always succeeds.
abbrev project : Project
project = record {
  P = ℕ;
  W = ℕ;
  resolve = λ p. p;
  exists = λ p w. true;
  unique_name = λ p w. "ls-1";
  file_name = λ p. "ls";
  get_file = λ name w. false;
  open_program = λ name w. (ok 7, w);
  import_program = λ p w. (ok (some 6), w + 1);
  save_as = λ p name w. (ok tt, w);
  close_program = λ p w. (ok tt, w);
  save = λ p w. (ok tt, w);
  is_analyzed = λ p w. false;
  analysis = λ p w. (record { seconds = 9; outcome = ok tt }, w);
  mark_analyzed = λ p w. w;
  close_project = λ w. (ok tt, w);
}

abbrev fresh : Context project
fresh = record { programs = []; world = 0 }

abbrev loaded : Context project
loaded = record {
  programs =
      (
        "/ls-1",
        record {
          name = "ls-1";
          program = 7;
          analysis_complete = false;
          file_path = some "/bin/ls";
        },
      )
      ∷ [];
  world = 1;
}

timed_out : load_binary project "/bin/ls" true (some 5) fresh ≡ (ok "/ls-1", loaded)
unfolding load_binary find_loaded run_analysis Dict.insert ◌>>=◌
timed_out = refl

get_program-load_binary_example :
    (pi : ProgramInfo ℕ) × (get_program "/ls-1" loaded.programs ≡ ok pi)
get_program-load_binary_example =
    get_program-load_binary project "/bin/ls" true (some 5) fresh loaded "/ls-1" timed_out

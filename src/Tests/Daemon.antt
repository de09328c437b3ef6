-- ===== src/Tests/Daemon.antt =====
-- Runs of the daemon's start and stop.
use ghidra_rpc_win.Common.{◌≡◌, ◌↔◌, refl, ◌≢◌, true, false, none, some, [], ◌∷◌, arith, eq_iff}
use ghidra_rpc_win.Common.Dict
use ghidra_rpc_win.Common.Exec.{ok, raise, runtime_error}
use ghidra_rpc_win.Session.{session_file_path, load, save, registry_entry}
use ghidra_rpc_win.Session.Registry.{Files, registry_path, project_digest, register}
use ghidra_rpc_win.Session.Registry.View.{view, IsHealthy, register-IsHealthy, insert_ne-IsHealthy}
use ghidra_rpc_win.Daemon.{Poll, wait_until_running, start_blocking}
use ghidra_rpc_win.Daemon.Waiting.{Answers, wait_until_running_iff}
use ghidra_rpc_win.Daemon.Cleanup.{announced, start_blocking_lem}
use ghidra_rpc_win.Tests.Samples.{codec, codec-IsLawful, host, session_a, session_b}

abbrev pending : Poll
pending = record { running = false; exit_code = none }

abbrev up : Poll
up = record { running = true; exit_code = none }

abbrev dead : Poll
dead = record { running = false; exit_code = some 1 }

starts : wait_until_running (pending ∷ up ∷ dead ∷ []) ≡ ok tt
unfolding wait_until_running
starts = refl

dies :
    wait_until_running (pending ∷ dead ∷ up ∷ [])
    ≡ raise runtime_error ("Daemon process exited immediately with code " ∷ [])
unfolding wait_until_running
dies = refl

wait_until_running_iff_example :
    (wait_until_running (pending ∷ up ∷ []) ≡ ok tt) ↔ Answers (pending ∷ up ∷ [])
wait_until_running_iff_example = wait_until_running_iff (pending ∷ up ∷ [])

apart : session_file_path host "a" ≢ registry_path host
unfolding session_file_path registry_path
apart =
    ground
      (arith, eq_iff "/work/.ghidra-rpc-a.json" "/home/u/.local/state/ghidra-rpc/sessions.json")

nothing_yet : IsHealthy codec host []
unfolding IsHealthy Dict.lookup
nothing_yet = tt

-- Another daemon announces itself while the server runs.
abbrev another : Files codec host → Files codec host
another files = (register codec host true session_b files).1

another-IsHealthy : IsHealthy codec host (another (announced codec host session_a []))
unfolding save
another-IsHealthy =
    register-IsHealthy codec host codec-IsLawful session_b (announced codec host session_a []) (
      register-IsHealthy codec host codec-IsLawful session_a (save codec host session_a [])
        (insert_ne-IsHealthy codec host _ _ [] apart nothing_yet))

start_blocking_lem_example :
    let out = start_blocking codec host true session_a (ok tt) (ok tt) (ok tt) another [] in
    (view codec host (announced codec host session_a [])
      ≡ Dict.insert (project_digest host "a") (registry_entry host session_a) (view codec host []))
    × (out.0 ≡ ok tt)
    × (load codec host "a" out.1 ≡ ok none)
    × (view codec host out.1
        ≡ Dict.erase
            (project_digest host "a")
            (view codec host (another (announced codec host session_a []))))
start_blocking_lem_example =
    start_blocking_lem codec host codec-IsLawful session_a [] another apart nothing_yet
      another-IsHealthy (ok tt)

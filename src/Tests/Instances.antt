-- ===== src/Tests/Instances.antt =====
-- Runs of the discovery of instances: project `a` answers, and the endpoint of project `b` is gone.
use ghidra_rpc_win.Common.{String, str_eq, ◌≡◌, refl, true, false, none, [], ◌∷◌, if◌then◌else◌}
use ghidra_rpc_win.Common.Dict
use ghidra_rpc_win.Common.Dict.{Dict}
use ghidra_rpc_win.Common.Exec.{ok}
use ghidra_rpc_win.Json.{num, str, obj, bool, truthy, of_dict, to_dict}
use ghidra_rpc_win.Client.{Reply, response, failed, daemon_not_running}
use ghidra_rpc_win.Session.{registry_entry, session_of}
use ghidra_rpc_win.Session.Registry.{
  Files, register, unregister, registry_path, project_digest, parse_registry, load_all, sessions_of,
}
use ghidra_rpc_win.Session.Registry.View.{view, IsHealthy, register-IsHealthy}
use ghidra_rpc_win.Instances.{Entry, candidates, results, discover_instances}
use ghidra_rpc_win.Instances.Candidates.{session_at, is_endpoint, candidate, candidates_lem}
use ghidra_rpc_win.Instances.Probing.{discover_instances-view}
use ghidra_rpc_win.Instances.Stale.{any_entry}
use ghidra_rpc_win.Tests.Samples.{codec, codec-IsLawful, host, session_a, session_b}

abbrev reply : String → Reply
reply path =
    if str_eq path "/tmp/ghidra-rpc-a.sock"
    then response (
        obj (
          of_dict (
            ("ok", bool true)
            ∷ (
              "result",
              obj (of_dict (("project_gpr", str "a") ∷ ("mode", str "gui") ∷ ("pid", num 9) ∷ [])),
            )
            ∷ [])))
    else failed (daemon_not_running [])

abbrev entry_a : Entry
entry_a = record {
  running = true;
  socket = "/tmp/ghidra-rpc-a.sock";
  project = str "a";
  mode = str "gui";
  pid = num 9;
}

listed :
    results reply (λ p. false) false (candidates (session_a ∷ session_b ∷ []) [])
    ≡ ok (entry_a ∷ [])
unfolding results candidates Dict.insert of_dict to_dict Dict.lookup truthy
listed = refl

candidates_lem_example :
    Dict.lookup "/tmp/x" (candidates (session_a ∷ []) ("/tmp/x" ∷ []))
    ≡ candidate (session_at "/tmp/x" (session_a ∷ []) none) (is_endpoint "/tmp/x" ("/tmp/x" ∷ []))
candidates_lem_example = candidates_lem (session_a ∷ []) ("/tmp/x" ∷ []) "/tmp/x"

both : Files codec host
unfolding register registry_path parse_registry registry_entry project_digest Dict.lookup
    Dict.insert
both = (register codec host true session_b (register codec host true session_a []).1).1

after : Files codec host
unfolding register registry_path parse_registry registry_entry project_digest Dict.lookup
    Dict.insert
after = (register codec host true session_a []).1

nothing-IsHealthy : IsHealthy codec host []
unfolding IsHealthy Dict.lookup
nothing-IsHealthy = tt

both-IsHealthy : IsHealthy codec host both
unfolding both
both-IsHealthy =
    register-IsHealthy codec host codec-IsLawful session_b (register codec host true session_a []).1
      (register-IsHealthy codec host codec-IsLawful session_a [] nothing-IsHealthy)

loaded : load_all codec host true both ≡ ok (session_a ∷ session_b ∷ [])
unfolding both load_all sessions_of session_of Dict.values
loaded = refl

pruned :
    discover_instances codec host true reply (λ p. false) false [] both ≡ (ok (entry_a ∷ []), after)
unfolding both after load_all sessions_of session_of Dict.values discover_instances unregister
    Dict.contains Dict.erase of_dict to_dict
pruned = refl

discover_instances-view_example : Dict.lookup "b" (view codec host after) ≡ none
unfolding project_digest any_entry candidates Dict.insert of_dict to_dict Dict.lookup truthy
discover_instances-view_example =
    discover_instances-view codec host codec-IsLawful reply (λ p. false) false []
      (session_a ∷ session_b ∷ []) both after (entry_a ∷ []) both-IsHealthy loaded pruned "b"

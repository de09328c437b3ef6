-- ===== src/Tests/Session.antt =====
-- Runs of the session file and of the registry.
use ghidra_rpc_win.Common.{◌≡◌, refl, true, none, some, [], ◌∷◌, arith, eq_iff}
use ghidra_rpc_win.Common.Dict
use ghidra_rpc_win.Common.Exec.{ok, raise, type_error, attribute_error}
use ghidra_rpc_win.Json.{arr, nil}
use ghidra_rpc_win.Session.{
  load, save, remove, session_file_path, endpoint_path_for_project, session_of, registry_entry,
}
use ghidra_rpc_win.Session.RoundTrip.{IsNormal, load-save, load-remove}
use ghidra_rpc_win.Session.Registry.{
  registry_path, register, unregister, load_all, sessions_of, parse_registry, Files, project_digest,
}
use ghidra_rpc_win.Session.Registry.View.{view, IsHealthy, view-register, view-unregister}
use ghidra_rpc_win.Session.Registry.Listing.{load_all-register}
use ghidra_rpc_win.Tests.Samples.{codec, codec-IsLawful, host, session_a, session_b}

session_a-IsNormal : IsNormal host session_a
session_a-IsNormal = record {
  gpr = refl;
  socket = refl;
  dir = (refl, ground (arith, eq_iff "/opt/ghidra" ""));
}

registry_file : registry_path host ≡ "/home/u/.local/state/ghidra-rpc/sessions.json"
unfolding registry_path
registry_file = refl

session_file : session_file_path host "a" ≡ "/work/.ghidra-rpc-a.json"
unfolding session_file_path
session_file = refl

endpoint : endpoint_path_for_project host "a" ≡ "/tmp/ghidra-rpc-a.sock"
unfolding endpoint_path_for_project
endpoint = refl

registered : Files codec host
unfolding register registry_path parse_registry registry_entry project_digest Dict.lookup
    Dict.insert
registered = (register codec host true session_b (register codec host true session_a []).1).1

load_both : load_all codec host true registered ≡ ok (session_a ∷ session_b ∷ [])
unfolding registered load_all sessions_of session_of Dict.values
load_both = refl

load_rest :
    load_all codec host true (unregister codec host true "a" registered).1 ≡ ok (session_b ∷ [])
unfolding registered load_all sessions_of session_of Dict.values unregister Dict.contains Dict.erase
load_rest = refl

-- A registry that holds a list: `register` and `load_all` raise, and the file stays.
abbrev list_registry : Files codec host
list_registry = (registry_path host, some (arr nil)) ∷ []

register_list :
    register codec host true session_a list_registry ≡ (raise type_error [], list_registry)
unfolding registered
register_list = refl

load_list : load_all codec host true list_registry ≡ raise attribute_error []
unfolding registered load_all
load_list = refl

first : Files codec host
unfolding registered
first = (register codec host true session_a []).1

first-IsHealthy : IsHealthy codec host first
unfolding first IsHealthy
first-IsHealthy = tt

load-save_example : load codec host "a" (save codec host session_a []) ≡ ok (some session_a)
load-save_example = load-save codec host codec-IsLawful session_a [] session_a-IsNormal

load-remove_example :
    load codec host "a" (remove codec host "a" (save codec host session_a [])) ≡ ok none
unfolding session_file_path
load-remove_example = load-remove codec host "a" "a" (save codec host session_a [])

view-register_example :
    view codec host (register codec host true session_b first).1
    ≡ Dict.insert (project_digest host "b") (registry_entry host session_b) (view codec host first)
view-register_example = view-register codec host codec-IsLawful session_b first first-IsHealthy

view-unregister_example :
    view codec host (unregister codec host true "a" first).1
    ≡ Dict.erase (project_digest host "a") (view codec host first)
view-unregister_example = view-unregister codec host codec-IsLawful "a" first first-IsHealthy

load_all-register_example :
    load_all codec host true (register codec host true session_b first).1
    ≡ ok (session_a ∷ session_b ∷ [])
unfolding first load_all view sessions_of session_of Dict.values Dict.contains
load_all-register_example =
    load_all-register codec host codec-IsLawful session_b first (session_a ∷ [])
      (record { gpr = refl; socket = refl; dir = tt }) first-IsHealthy refl refl

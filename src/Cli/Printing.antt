-- ===== src/Cli/Printing.antt =====
-- `_rpc_command` of ghidra_rpc/cli.py: what a command prints and its exit code.
use ghidra_rpc_win.Common.{
  ℕ, String, ◌≡◌, ◌⊎◌, inl, inr, ◌↔◌, refl, Bool, true, false, Option, none, some, [], ◌∷◌,
}
use ghidra_rpc_win.Common.Dict
use ghidra_rpc_win.Common.Dict.{Dict}
use ghidra_rpc_win.Common.Exec.{type_name, message_text}
use ghidra_rpc_win.Json.{Json, bool, str, obj, of_dict, to_dict}
use ghidra_rpc_win.Rpc.{Wire}
use ghidra_rpc_win.Client.{
  Reply, response, failed, daemon_not_running, daemon_error, raised, Daemons, get_or_default,
  send_request_with_auto_restart,
}
use ghidra_rpc_win.Cli.Commands.{Command, request}

-- The JSON on standard output, whether there is a warning on the other output, and the exit code.
pub record Printed : Type 0 where
  pub output : Json
  pub warning : Bool
  pub exit_code : ℕ

-- `_json_error`
abbrev pub json_error : String → String → Printed
json_error error message = record {
  output =
      obj (of_dict (("ok", bool false) ∷ ("error", str error) ∷ ("message", str message) ∷ []));
  warning = false;
  exit_code = 1;
}

abbrev is_false : Option Json → Bool
is_false (some (bool false)) = true
is_false _ = false

-- `isinstance(result, dict) and result.get("verified") is False`
abbrev pub is_unverified : Json → Bool
is_unverified (obj fs) = is_false (Dict.lookup "verified" (to_dict fs))
is_unverified _ = false

-- A response is an object, as `read_response` makes it.
abbrev unverified_result : Json → Bool
unverified_result (obj fs) = is_unverified (get_or_default "result" (obj (of_dict [])) (to_dict fs))
unverified_result _ = false

unfoldable pub rpc_command : Reply → Printed
rpc_command (response whole) = record {
  output = whole;
  warning = unverified_result whole;
  exit_code = 0;
}
rpc_command (failed (daemon_not_running message)) =
    json_error "DaemonNotRunning" (message_text message)
rpc_command (failed (daemon_error error message whole)) = record {
  output = whole;
  warning = false;
  exit_code = 1;
}
rpc_command (failed (raised e)) = json_error (type_name e.kind) (message_text e.message)

exit_code-rpc_command :
    (reply : Reply)
    → ((rpc_command reply).exit_code ≡ 0) ↔ ((whole : Json) × (reply ≡ response whole))
unfolding rpc_command
exit_code-rpc_command (response whole) = (λ h. (whole, refl), λ h. refl)
exit_code-rpc_command (failed (daemon_not_running message)) = (λ h. cc, λ h. cc (h.1))
exit_code-rpc_command (failed (daemon_error error message whole)) = (λ h. cc, λ h. cc (h.1))
exit_code-rpc_command (failed (raised e)) = (λ h. cc, λ h. cc (h.1))

rpc_command_codes :
    (reply : Reply) → ((rpc_command reply).exit_code ≡ 0) ⊎ ((rpc_command reply).exit_code ≡ 1)
unfolding rpc_command
rpc_command_codes (response whole) = inl refl
rpc_command_codes (failed (daemon_not_running message)) = inr refl
rpc_command_codes (failed (daemon_error error message whole)) = inr refl
rpc_command_codes (failed (raised e)) = inr refl

module _ (wire : Wire) (parse_float : String → Option ℕ) (d : Daemons) where
  -- A command from its arguments to what it prints.
  unfoldable pub run_command : String → Command → Daemons.World d → Printed × Daemons.World d
  unfolding rpc_command request send_request_with_auto_restart
  run_command gpr command w =
      let r = request command in
      let (reply, w') = send_request_with_auto_restart wire parse_float d gpr r.cmd r.args none w in
      (rpc_command reply, w')

  -- A command exits with 0 exactly when its request ended, at once or after the restart, in a
  -- response; else it exits with 1.
  pub run_command-exit_code :
      (gpr : String) (command : Command) (w : Daemons.World d)
      → let reply =
          (send_request_with_auto_restart wire parse_float d gpr
            (request command).cmd
            (request command).args
            none
            w).0 in
        (((run_command gpr command w).0.exit_code ≡ 0)
          ↔ ((whole : Json) × (reply ≡ response whole)))
        × (((run_command gpr command w).0.exit_code ≡ 0)
            ⊎ ((run_command gpr command w).0.exit_code ≡ 1))
  unfolding run_command
  run_command-exit_code gpr command w =
      let reply =
        (send_request_with_auto_restart wire parse_float d gpr (request command).cmd
          (request command).args none w).0 in
      (exit_code-rpc_command reply, rpc_command_codes reply)

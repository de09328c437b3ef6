-- ===== src/Server.antt =====
-- ghidra_rpc/server/main.py: one connection, from its bytes to its response, and the accept loop.
pub mod Dispatch
pub mod Threads
use ghidra_rpc_win.Common.{
  ℕ, String, ◌<>◌, str_eq, Bool, true, false, Option, none, some, List, [], ◌∷◌, ◌++◌,
  if◌then◌else◌,
}
use ghidra_rpc_win.Common.Dict
use ghidra_rpc_win.Common.Dict.{Dict}
use ghidra_rpc_win.Common.Exec.{Result, ok, err, Exn, type_name, message_text}
use ghidra_rpc_win.Json.{Json, null, bool, num, str, arr, obj, to_dict, of_dict}
use ghidra_rpc_win.Rpc.{
  Event, Read, got, hung_up, broken, read_line, Parsed, undecodable, blank, malformed, value, Wire,
  line,
}

-- What the process knows: its tool handlers, the names that it prints, its session and pid, and
-- the identifier that `uuid4` makes for a request without one.
pub record Server (S : Type 0) : Type 0 where
  pub wire : Wire
  pub handlers : String → Option (Json → S → Result Json × S)
  pub available : String
  pub fresh_id : String
  pub project_gpr : String
  pub mode : Json
  pub pid : ℕ

-- What a connection does: the bytes that it sends, whether it asks for shutdown, and the context.
pub record Outcome (S : Type 0) : Type 0 where
  pub sent : List (List ℕ)
  pub shutdown : Bool
  pub context : S

abbrev pub get_or_default : String → Json → Dict Json → Json
get_or_default k v d = elim (Dict.lookup k d) [ none ↦ v | some w ↦ w ]

abbrev pub response_ok : Json → Json → Json
response_ok id result = obj (of_dict (("id", id) ∷ ("ok", bool true) ∷ ("result", result) ∷ []))

abbrev pub response_error : Json → String → String → Json
response_error id error message = obj (
    of_dict
      (("id", id) ∷ ("ok", bool false) ∷ ("error", str error) ∷ ("message", str message) ∷ []))

-- The response to a handler's result or exception.
abbrev pub handled : Json → Result Json → Json
handled id (ok result) = response_ok id result
handled id (err e) = response_error id (type_name e.kind) (message_text e.message)

abbrev pub stopping : Json → Json
stopping id = response_ok id (obj (of_dict (("status", str "stopping") ∷ [])))

module _ {S : Type 0} (server : Server S) where
  open server use {wire, handlers, available, project_gpr, mode, pid, fresh_id}

  -- `conn.sendall`, which raises when the peer has gone; the handler then only logs.
  abbrev pub send : Bool → Json → S → Outcome S
  send can_send response s = record {
    sent = if can_send then line wire response ∷ [] else [];
    shutdown = false;
    context = s;
  }

  abbrev pub quiet : S → Outcome S
  quiet s = record { sent = []; shutdown = false; context = s }

  abbrev pub alive : Json
  alive = obj (
      of_dict (
        ("status", str "alive")
        ∷ ("project_gpr", str project_gpr)
        ∷ ("mode", mode)
        ∷ ("pid", num pid)
        ∷ []))

  abbrev pub unknown : Json → Json → Json
  unknown id cmd =
      response_error id "UnknownCommand"
        ("Unknown command: " <> Wire.show wire cmd <> ". Available: " <> available)

  -- `with _HANDLER_LOCK: result = _HANDLERS[cmd](ctx, args)`
  abbrev pub call : Json → Json → Json → Option (Json → S → Result Json × S) → S → Json × S
  call id cmd args none s = (unknown id cmd, s)
  call id cmd args (some handler) s = let (result, s') = handler args s in (handled id result, s')

  -- The three kinds of a command: `ping`, `stop` and what is looked up.
  dispatch_name : Bool → Json → String → Json → S → Outcome S
  dispatch_name can_send id cmd args s =
      if str_eq cmd "ping"
      then send can_send (response_ok id alive) s
      else if str_eq cmd "stop"
      then record (send can_send (stopping id) s) { shutdown = can_send }
      else (let (response, s') = call id (str cmd) args (handlers cmd) s in
          send can_send response s')

  -- `cmd in _HANDLERS` raises for a list or an object; any other value is no handler's name.
  unfoldable pub dispatch : Bool → Json → Json → Json → S → Outcome S
  unfolding dispatch_name
  dispatch can_send id (str cmd) args s = dispatch_name can_send id cmd args s
  dispatch can_send id (arr _) args s = quiet s
  dispatch can_send id (obj _) args s = quiet s
  dispatch can_send id cmd args s = send can_send (unknown id cmd) s

  abbrev pub request_id : Dict Json → Json
  request_id d = get_or_default "id" (str fresh_id) d

  -- A request that is no object has no `get`: the connection ends with a log line.
  unfoldable pub handle_request : Bool → Parsed → S → Outcome S
  unfolding dispatch
  handle_request can_send undecodable s = quiet s
  handle_request can_send blank s = quiet s
  handle_request can_send (malformed e) s =
      send can_send (response_error null "InvalidJSON" ("Malformed JSON: " <> e)) s
  handle_request can_send (value (obj fs)) s =
      let d = to_dict fs in
      dispatch can_send (request_id d) (get_or_default "cmd" (str "") d)
        (get_or_default "args" (obj (of_dict [])) d) s
  handle_request can_send (value _) s = quiet s

  abbrev pub after_read : Bool → Read → S → Outcome S
  after_read can_send (got buf) s = handle_request can_send (Wire.parse wire buf) s
  after_read can_send (hung_up buf) s = quiet s
  after_read can_send broken s = quiet s

  unfoldable pub handle_connection : Bool → List Event → S → Outcome S
  handle_connection can_send events s = after_read can_send (read_line [] events) s

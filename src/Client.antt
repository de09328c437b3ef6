-- ===== src/Client.antt =====
-- ghidra_rpc/client.py: the socket timeout, one request, and the request that restarts the daemon.
pub mod Timeout
pub mod AtMostOnce
pub mod EndToEnd
use ghidra_rpc_win.Common.{
  ℕ, ◌+◌, max, String, ◌<>◌, Bool, true, false, Option, none, some, List, [], ◌∷◌, map,
  if◌then◌else◌,
}
use ghidra_rpc_win.Common.Dict
use ghidra_rpc_win.Common.Dict.{Dict}
use ghidra_rpc_win.Common.Exec.{
  Exn, ExnType, Result, ok, err, raise, value_error, type_error, attribute_error, ◌>>=◌,
}
use ghidra_rpc_win.Json.{Json, null, bool, num, str, arr, obj, to_dict, of_dict, truthy}
use ghidra_rpc_win.Rpc.{
  Event, Read, got, hung_up, broken, read_line, Parsed, undecodable, blank, malformed, value, Wire,
  line,
}
use ghidra_rpc_win.Session.{Session}

-- Times are whole seconds.
abbrev pub default_socket_timeout : ℕ
default_socket_timeout = 120

abbrev pub socket_timeout_buffer : ℕ
socket_timeout_buffer = 30

-- `float(v)`, with the reading of a string left to a parameter.
module _ (parse_float : String → Option ℕ) where
  abbrev to_float : Json → Result ℕ
  to_float (num n) = ok n
  to_float (bool true) = ok 1
  to_float (bool false) = ok 0
  to_float (str s) = elim (parse_float s) [ some n ↦ ok n | none ↦ raise value_error [] ]
  to_float _ = raise type_error []

  -- `float(args[k]) for k in ... if args.get(k) is not None`
  abbrev arg_timeout : Option Json → Result (List ℕ)
  arg_timeout none = ok []
  arg_timeout (some null) = ok []
  arg_timeout (some v) = to_float v >>= λ t. ok (t ∷ [])

  abbrev buffered : List ℕ → ℕ
  buffered [] = default_socket_timeout
  buffered (t ∷ []) = t + socket_timeout_buffer
  buffered (t ∷ u ∷ _) = max t u + socket_timeout_buffer

  abbrev join_timeouts : List ℕ → List ℕ → List ℕ
  join_timeouts [] us = us
  join_timeouts (t ∷ ts) us = t ∷ join_timeouts ts us

  unfoldable pub derive_socket_timeout : Dict Json → Result ℕ
  derive_socket_timeout [] = ok default_socket_timeout
  derive_socket_timeout (entry ∷ args) = do
    ts ← arg_timeout (Dict.lookup "timeout" (entry ∷ args))
    us ← arg_timeout (Dict.lookup "analysis_timeout" (entry ∷ args))
    ok (buffered (join_timeouts ts us))

-- How a request fails: the daemon is not there, it answered `ok: false`, or something else raised.
pub data Failure : Type 0 where
  daemon_not_running : List String → Failure
  daemon_error : Json → Json → Json → Failure
  raised : Exn → Failure

pub data Reply : Type 0 where
  response : Json → Reply
  failed : Failure → Reply

-- What the endpoint does with a request: `connect` is refused (any `OSError`), the sending fails, or
-- the request is sent and these events are received.
pub data Exchange : Type 0 where
  refused send_failed : Exchange
  received : List Event → Exchange

abbrev pub empty_response : Failure
empty_response =
    daemon_error (str "EmptyResponse") (str "Daemon returned empty response") (obj (of_dict []))

abbrev pub get_or_default : String → Json → Dict Json → Json
get_or_default k v d = elim (Dict.lookup k d) [ none ↦ v | some w ↦ w ]

abbrev check_ok : Dict Json → Json → Reply
check_ok d whole =
    if truthy (get_or_default "ok" (bool false) d)
    then response whole
    else failed (
        daemon_error (get_or_default "error" (str "UnknownError") d)
          (get_or_default "message" (str "Unknown error from daemon") d) whole)

-- `if not buf.strip()`, `json.loads(...)` and the test of `ok`.
unfoldable pub read_response : Parsed → Reply
read_response blank = failed empty_response
read_response undecodable = failed (raised (record { kind = value_error; message = [] }))
read_response (malformed e) = failed (raised (record { kind = value_error; message = e ∷ [] }))
read_response (value (obj fs)) = check_ok (to_dict fs) (obj fs)
read_response (value _) = failed (raised (record { kind = attribute_error; message = [] }))

abbrev pub request_json : String → String → Dict Json → Json
request_json id cmd args =
    obj (of_dict (("id", str id) ∷ ("cmd", str cmd) ∷ ("args", obj (of_dict args)) ∷ []))

module _ (wire : Wire) where
  -- The client goes on with what it has read when the peer hangs up.
  abbrev pub after_read : Read → Reply
  after_read (got buf) = read_response (Wire.parse wire buf)
  after_read (hung_up buf) = read_response (Wire.parse wire buf)
  after_read broken = failed (raised (record { kind = ExnType.os_error; message = [] }))

  unfoldable pub after_exchange : String → Exchange → Reply
  unfolding read_response read_line
  after_exchange socket_path refused =
      failed (daemon_not_running ("Cannot connect to daemon at " ∷ socket_path ∷ []))
  after_exchange socket_path send_failed =
      failed (raised (record { kind = ExnType.os_error; message = [] }))
  after_exchange socket_path (received events) = after_read (read_line [] events)

-- The surroundings of the client: the endpoint files and what answers there, the saved sessions, and
-- the start of a daemon in the background.
pub record Daemons : Type 1 where
  pub World : Type 0
  pub fresh_id : World → String
  pub exists : String → World → Bool
  pub exchange : String → ℕ → List ℕ → World → Exchange × World
  pub socket_path_for_project : String → String
  pub load : String → World → Result (Option Session)
  pub start_background : Session → World → Result (Unit {0}) × World

module _ (wire : Wire) (parse_float : String → Option ℕ) (d : Daemons) where
  open d use {World, fresh_id, exists, exchange, socket_path_for_project, load, start_background}

  -- `socket_timeout if socket_timeout is not None else _derive_socket_timeout(args)`
  abbrev effective_timeout : Option ℕ → Dict Json → Result ℕ
  effective_timeout (some t) args = ok t
  effective_timeout none args = derive_socket_timeout parse_float args

  exchange_within : Result ℕ → String → String → Dict Json → World → Reply × World
  exchange_within (err e) path cmd args w = (failed (raised e), w)
  exchange_within (ok t) path cmd args w =
      let (x, w') = exchange path t (line wire (request_json (fresh_id w) cmd args)) w in
      (after_exchange wire path x, w')

  unfoldable pub send_request : String → String → Dict Json → Option ℕ → World → Reply × World
  unfolding exchange_within
  send_request path cmd args timeout w =
      if exists path w
      then exchange_within (effective_timeout timeout args) path cmd args w
      else (failed (daemon_not_running ("Socket not found: " ∷ path ∷ [])), w)

  retry :
      String → String → Dict Json → Option ℕ → Session → Result (Unit {0}) × World → Reply × World
  retry gpr cmd args timeout session (err e, w) = (
    failed (
        daemon_not_running
          ("Failed to restart daemon. Please run: ghidra-rpc start --project " ∷ gpr ∷ [])),
    w,
  )
  retry gpr cmd args timeout session (ok u, w) = send_request session.socket_path cmd args timeout w

  restart : String → String → Dict Json → Option ℕ → Result (Option Session) → World → Reply × World
  unfolding retry
  restart gpr cmd args timeout (err e) w = (failed (raised e), w)
  restart gpr cmd args timeout (ok none) w = (
    failed (
        daemon_not_running
          ("Daemon not running. Start it with: ghidra-rpc start --project " ∷ gpr ∷ [])),
    w,
  )
  restart gpr cmd args timeout (ok (some session)) w =
      retry gpr cmd args timeout session (start_background session w)

  -- `except DaemonNotRunning: pass`
  after_first : String → String → Dict Json → Option ℕ → Reply × World → Reply × World
  unfolding restart
  after_first gpr cmd args timeout (failed (daemon_not_running m), w) =
      restart gpr cmd args timeout (load gpr w) w
  after_first gpr cmd args timeout (r, w) = (r, w)

  unfoldable pub send_request_with_auto_restart :
      String → String → Dict Json → Option ℕ → World → Reply × World
  unfolding after_first
  send_request_with_auto_restart gpr cmd args timeout w =
      after_first gpr cmd args timeout
        (send_request (socket_path_for_project gpr) cmd args timeout w)

-- ===== src/Server/Dispatch.antt =====
-- What a connection answers, when it changes the context, and when it stops the server.
use ghidra_rpc_win.Common.{
  ℕ, String, ◌≡◌, refl, inl, inr, Bool, true, false, ◌&&◌, Option, none, some, List, [], ◌++◌, map,
  str_eq, eq_iff, Bool-cases, arith, ◌∷◌, [], if◌then◌else◌,
}
use ghidra_rpc_win.Common.Exec.{Result}
use ghidra_rpc_win.Json.{Json, null, str, arr, obj, to_dict, of_dict}
use ghidra_rpc_win.Rpc.{Event, bytes, Parsed, undecodable, value, Wire, IsSafe, line}
use ghidra_rpc_win.Rpc.Reading.{concat, AreChunks, read_line-chunks}
use ghidra_rpc_win.Server.{
  handled, Server, call, dispatch, dispatch_name, handle_request, handle_connection, request_id,
  get_or_default,
}

-- The command that a request names.
abbrev pub command_of : Parsed → Json
command_of (value (obj fs)) = get_or_default "cmd" (str "") (to_dict fs)
command_of _ = null

abbrev pub args_of : Parsed → Json
args_of (value (obj fs)) = get_or_default "args" (obj (of_dict [])) (to_dict fs)
args_of _ = null

abbrev pub is_stop : Json → Bool
is_stop (str cmd) = str_eq cmd "stop"
is_stop _ = false

abbrev pub is_builtin : Json → Bool
is_builtin (str cmd) = if str_eq cmd "ping" then true else str_eq cmd "stop"
is_builtin _ = false

module _ {S : Type 0} (server : Server S) where
  dispatch_name-shutdown :
      (can_send : Bool) (id : Json) (cmd : String) (args : Json) (s : S)
      → (dispatch_name server can_send id cmd args s).shutdown ≡ (can_send && str_eq cmd "stop")
  unfolding dispatch_name
  dispatch_name-shutdown can_send id cmd args s =
      ground (arith, eq_iff cmd "ping", eq_iff cmd "stop", eq_iff "ping" "stop")

  dispatch-shutdown :
      (can_send : Bool) (id cmd args : Json) (s : S)
      → (dispatch server can_send id cmd args s).shutdown ≡ (can_send && is_stop cmd)
  unfolding dispatch
  dispatch-shutdown can_send id (str cmd) args s = dispatch_name-shutdown can_send id cmd args s
  dispatch-shutdown can_send id null args s = ground arith
  dispatch-shutdown can_send id _ args s = ground arith

  -- A connection asks for shutdown exactly when its request is `stop` and the reply can be sent.
  pub handle_request-shutdown :
      (can_send : Bool) (p : Parsed) (s : S)
      → (handle_request server can_send p s).shutdown ≡ (can_send && is_stop (command_of p))
  unfolding handle_request
  handle_request-shutdown can_send (value (obj fs)) s =
      dispatch-shutdown can_send (request_id server (to_dict fs)) (command_of (value (obj fs)))
        (args_of (value (obj fs))) s
  handle_request-shutdown can_send undecodable s = ground arith
  handle_request-shutdown can_send (value _) s = ground arith
  handle_request-shutdown can_send _ s = ground arith

  -- The handler that a command names, the built-in commands apart.
  abbrev pub handler_of : Json → Option (Json → S → Result Json × S)
  handler_of (str cmd) = if is_builtin (str cmd) then none else server.handlers cmd
  handler_of _ = none

  abbrev pub context_after : Option (Json → S → Result Json × S) → Json → S → S
  context_after none args s = s
  context_after (some f) args s = (f args s).1

  call-context :
      (id : Json) (cmd : String) (args : Json) (o : Option (Json → S → Result Json × S)) (s : S)
      → (call server id (str cmd) args o s).1 ≡ context_after o args s
  call-context id cmd args none s = refl
  call-context id cmd args (some f) s = refl

  dispatch_name-context :
      (can_send : Bool) (id : Json) (cmd : String) (args : Json) (s : S)
      → (dispatch_name server can_send id cmd args s).context
        ≡ context_after (handler_of (str cmd)) args s
  unfolding dispatch_name
  dispatch_name-context can_send id cmd args s = elim (Bool-cases (str_eq cmd "ping")) [
    | inl ping ↦ rw ping
    | inr no_ping ↦ elim (Bool-cases (str_eq cmd "stop")) [
      | inl stop ↦ rw (no_ping, stop)
      | inr no_stop ↦ rw (no_ping, no_stop) (call-context id cmd args (server.handlers cmd) s)
    ]
  ]

  dispatch-context :
      (can_send : Bool) (id cmd args : Json) (s : S)
      → (dispatch server can_send id cmd args s).context ≡ context_after (handler_of cmd) args s
  unfolding dispatch
  dispatch-context can_send id (str cmd) args s = dispatch_name-context can_send id cmd args s
  dispatch-context can_send id (arr xs) args s = refl
  dispatch-context can_send id _ args s = refl

  -- A request changes the context exactly as the tool handler of its command does, once, whether or
  -- not the reply can be sent; `ping`, `stop`, unknown commands and bad requests leave it alone.
  pub handle_request-context :
      (can_send : Bool) (p : Parsed) (s : S)
      → (handle_request server can_send p s).context
        ≡ context_after (handler_of (command_of p)) (args_of p) s
  unfolding handle_request
  handle_request-context can_send (value (obj fs)) s =
      dispatch-context can_send (request_id server (to_dict fs)) (command_of (value (obj fs)))
        (args_of (value (obj fs))) s
  handle_request-context can_send undecodable s = refl
  handle_request-context can_send (value _) s = refl
  handle_request-context can_send _ s = refl

  -- A request line in any chunks is answered as the request that it holds.
  pub handle_connection-line :
      (can_send : Bool) (request : Json) (cs : List (List ℕ)) (later : List Event) (s : S)
      → IsSafe server.wire request
      → AreChunks cs
      → concat cs ≡ line server.wire request
      → handle_connection server can_send (map bytes cs ++ later) s
        ≡ handle_request server can_send (value request) s
  unfolding handle_connection
  handle_connection-line can_send request cs later s safe chunks whole = rw (
    read_line-chunks cs (Wire.dumps server.wire request) later chunks (safe.no_newline) whole,
    safe.parse-dumps,
  )

  dispatch_name-handled :
      (id : Json) (cmd : String) (args : Json) (f : Json → S → Result Json × S) (s : S)
      → is_builtin (str cmd) ≡ false
      → server.handlers cmd ≡ some f
      → dispatch_name server true id cmd args s ≡ record {
        sent = line server.wire (handled id (f args s).0) ∷ [];
        shutdown = false;
        context = (f args s).1;
      }
  unfolding dispatch_name
  dispatch_name-handled id cmd args f s plain found = elim (Bool-cases (str_eq cmd "ping")) [
    | inl ping ↦ absurd (ground (arith, ping))
    | inr no_ping ↦ elim (Bool-cases (str_eq cmd "stop")) [
      | inl stop ↦ absurd (ground (arith, no_ping, stop))
      | inr no_stop ↦ rw (no_ping, no_stop, found)
    ]
  ]

  -- A request for a tool's command is answered with its handler's result.
  pub dispatch-handled :
      (id : Json) (cmd : String) (args : Json) (f : Json → S → Result Json × S) (s : S)
      → is_builtin (str cmd) ≡ false
      → server.handlers cmd ≡ some f
      → dispatch server true id (str cmd) args s ≡ record {
        sent = line server.wire (handled id (f args s).0) ∷ [];
        shutdown = false;
        context = (f args s).1;
      }
  unfolding dispatch
  dispatch-handled = dispatch_name-handled

-- ===== src/Client/EndToEnd.antt =====
-- The client and the server together: a call over the wire has the result of the handler's call.
use mathlib.Core.List.{append-nil}
use ghidra_rpc_win.Common.{
  ap, ℕ, String, ◌≡◌, refl, ◌∙◌, true, false, some, List, [], ◌∷◌, ◌++◌, map,
}
use ghidra_rpc_win.Common.Dict
use ghidra_rpc_win.Common.Dict.{Dict}
use ghidra_rpc_win.Common.Exec.{Result, ok, err, type_name, message_text}
use ghidra_rpc_win.Json.{Json, str, obj, of_dict, to_dict, truthy}
use ghidra_rpc_win.Rpc.{Event, bytes, value, Wire, IsSafe, line}
use ghidra_rpc_win.Rpc.Reading.{concat, AreChunks, read_line-chunks}
use ghidra_rpc_win.Server.{
  Server, Outcome, handled, handle_request, handle_connection, response_ok, response_error,
}
use ghidra_rpc_win.Server.Dispatch.{is_builtin, dispatch-handled, handle_connection-line}
use ghidra_rpc_win.Client.{
  Reply, response, failed, daemon_error, request_json, read_response, after_exchange, received,
}

-- What the caller should see of a handler's result: the response with it, or a `DaemonError` with
-- the exception's class and message.
abbrev pub seen : Json → Result Json → Reply
seen id (ok v) = response (response_ok id v)
seen id (err e) = failed (
    daemon_error (str (type_name e.kind)) (str (message_text e.message))
      (response_error id (type_name e.kind) (message_text e.message)))

read_response-handled :
    (id : Json) (r : Result Json) → read_response (value (handled id r)) ≡ seen id r
unfolding read_response Dict.lookup truthy of_dict to_dict
read_response-handled id (ok v) = refl
read_response-handled id (err e) = refl

module _ {S : Type 0} (server : Server S) where
  -- A connection that gets the request sends the handler's result, and keeps its context.
  handle_request-handled :
      (id cmd : String) (args : Dict Json) (f : Json → S → Result Json × S) (s : S)
      → is_builtin (str cmd) ≡ false
      → server.handlers cmd ≡ some f
      → handle_request server true (value (request_json id cmd args)) s ≡ record {
        sent = line server.wire (handled (str id) (f (obj (of_dict args)) s).0) ∷ [];
        shutdown = false;
        context = (f (obj (of_dict args)) s).1;
      }
  unfolding handle_request Dict.lookup to_dict of_dict
  handle_request-handled id cmd args f s plain found =
      dispatch-handled server (str id) cmd (obj (of_dict args)) f s plain found

  -- The client reads a response line, in any chunks, as the value that it holds.
  seen_by_client :
      (path : String) (v : Json) (rs : List (List ℕ)) (later : List Event)
      → IsSafe server.wire v
      → AreChunks rs
      → concat rs ≡ line server.wire v
      → after_exchange server.wire path (received (map bytes rs ++ later)) ≡ read_response (value v)
  unfolding after_exchange
  seen_by_client path v rs later safe chunks whole = rw (
    read_line-chunks rs (Wire.dumps server.wire v) later chunks (safe.no_newline) whole,
    safe.parse-dumps,
  )

  -- A tool's command, sent over the wire and answered over it, in whatever chunks each side receives:
  -- the client sees the handler's result or its exception, and the server keeps the handler's context.
  pub request-response :
      (path id cmd : String) (args : Dict Json) (f : Json → S → Result Json × S) (s : S)
      (cs rs : List (List ℕ)) (later later' : List Event)
      → IsSafe server.wire (request_json id cmd args)
      → IsSafe server.wire (handled (str id) (f (obj (of_dict args)) s).0)
      → is_builtin (str cmd) ≡ false
      → server.handlers cmd ≡ some f
      → AreChunks cs
      → concat cs ≡ line server.wire (request_json id cmd args)
      → AreChunks rs
      → concat rs ≡ concat (handle_connection server true (map bytes cs ++ later) s).sent
      → (after_exchange server.wire path (received (map bytes rs ++ later'))
          ≡ seen (str id) (f (obj (of_dict args)) s).0)
        × ((handle_connection server true (map bytes cs ++ later) s).context
            ≡ (f (obj (of_dict args)) s).1)
  request-response path id cmd args f s cs rs later later' safe safe' plain found chunks asked
        chunks' answered =
      let served : handle_connection server true (map bytes cs ++ later) s ≡ record {
        sent = line server.wire (handled (str id) (f (obj (of_dict args)) s).0) ∷ [];
        shutdown = false;
        context = (f (obj (of_dict args)) s).1;
      } =
        handle_connection-line server true (request_json id cmd args) cs later s safe chunks asked
        ∙ handle_request-handled id cmd args f s plain found in
      (
        seen_by_client path (handled (str id) (f (obj (of_dict args)) s).0) rs later' safe' chunks'
              (answered ∙ (ap (λ (o : Outcome S). concat o.sent) served ∙ append-nil _))
            ∙ read_response-handled (str id) (f (obj (of_dict args)) s).0,
        ap (λ (o : Outcome S). o.context) served,
      )

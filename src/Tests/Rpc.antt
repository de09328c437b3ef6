-- ===== src/Tests/Rpc.antt =====
-- Runs of the wire, the server, the client and the daemon's start.
use ghidra_rpc_win.Common.{
  ◌↔◌, ◌⊎◌, ℕ, ◌+◌, ◌≤◌, String, ◌≡◌, refl, Bool, true, false, Option, none, some, List, [], ◌∷◌,
  arith, str_eq, ◌==◌, if◌then◌else◌,
}
use ghidra_rpc_win.Common.Dict
use ghidra_rpc_win.Common.Dict.{Dict}
use ghidra_rpc_win.Common.Exec.{ok}
use ghidra_rpc_win.Json.{truthy, Json, num, str, obj, of_dict, to_dict}
use ghidra_rpc_win.Rpc.{bytes, failure, value, Wire, IsSafe, read_line, has_newline, got, hung_up}
use ghidra_rpc_win.Rpc.Reading.{read_line-chunks}
use ghidra_rpc_win.Server.{Server, handled, handle_request, handle_connection, dispatch}
use ghidra_rpc_win.Server.Dispatch.{handle_request-context}
use ghidra_rpc_win.Cli.Commands.{request as request_of, list_tags_command}
use ghidra_rpc_win.Cli.Printing.{run_command, run_command-exit_code}
use ghidra_rpc_win.Client.{
  response, Daemons, refused, received, send_request, request_json, after_exchange,
  derive_socket_timeout, send_request_with_auto_restart,
}
use ghidra_rpc_win.Client.Timeout.{derive_socket_timeout-Waits}
use ghidra_rpc_win.Client.AtMostOnce.{Counts, Within, send_request_with_auto_restart-Within}
use ghidra_rpc_win.Client.EndToEnd.{seen, request-response}
use ghidra_rpc_win.Tests.Samples.{session_a}

-- A call of `count`, and its answer; the two texts stand for their JSON.
abbrev request : Json
request = request_json "7" "count" []

abbrev answer : Json
answer = handled (str "7") (ok (num 5))

abbrev is_request : Json → Bool
is_request (obj fs) = elim (Dict.lookup "cmd" (to_dict fs)) [ none ↦ false | some c ↦ true ]
is_request _ = false

abbrev head_is : ℕ → List ℕ → Bool
head_is n [] = false
head_is n (b ∷ bs) = b == n

wire : Wire
wire = record {
  dumps = λ v. if is_request v then 1 ∷ 2 ∷ [] else 0 ∷ 3 ∷ [];
  parse = λ bs. if head_is 1 bs then value request else value answer;
  show = λ v. "";
}

server : Server ℕ
unfolding wire
server = record {
  wire = wire;
  handlers = λ cmd. if str_eq cmd "count" then some (λ args n. (ok (num n), n + 1)) else none;
  available = "['count', 'ping', 'stop']";
  fresh_id = "u";
  project_gpr = "/work/a.gpr";
  mode = str "headless";
  pid = 1;
}

request-IsSafe : IsSafe wire request
unfolding wire of_dict to_dict Dict.lookup has_newline
request-IsSafe = record { no_newline = refl; parse-dumps = refl }

answer-IsSafe : IsSafe wire answer
unfolding wire of_dict to_dict Dict.lookup has_newline
answer-IsSafe = record { no_newline = refl; parse-dumps = refl }

two_chunks :
    read_line [] (bytes (1 ∷ []) ∷ bytes (2 ∷ 10 ∷ []) ∷ failure ∷ []) ≡ got (1 ∷ 2 ∷ 10 ∷ [])
unfolding read_line
two_chunks = refl

cut_off : read_line [] (bytes (1 ∷ []) ∷ []) ≡ hung_up (1 ∷ [])
unfolding read_line
cut_off = refl

read_line-chunks_example :
    read_line [] (bytes (1 ∷ []) ∷ bytes (2 ∷ 10 ∷ []) ∷ failure ∷ []) ≡ got (1 ∷ 2 ∷ 10 ∷ [])
unfolding has_newline
read_line-chunks_example =
    read_line-chunks ((1 ∷ []) ∷ (2 ∷ 10 ∷ []) ∷ []) (1 ∷ 2 ∷ []) (failure ∷ []) (refl, (refl, tt))
      refl refl

handle_request-context_example : (handle_request server true (value request) 5).context ≡ 6
unfolding server of_dict to_dict Dict.lookup
handle_request-context_example = handle_request-context server true (value request) 5

request-response_example :
    (after_exchange wire "/tmp/x.sock" (received (bytes (0 ∷ 3 ∷ 10 ∷ []) ∷ []))
      ≡ seen (str "7") (ok (num 5)))
    × ((handle_connection server true (bytes (1 ∷ 2 ∷ 10 ∷ []) ∷ []) 5).context ≡ 6)
unfolding server of_dict to_dict Dict.lookup handle_connection handle_request dispatch read_line
request-response_example =
    request-response server "/tmp/x.sock" "7" "count" [] (λ args n. (ok (num n), n + 1)) 5
      ((1 ∷ 2 ∷ 10 ∷ []) ∷ []) ((0 ∷ 3 ∷ 10 ∷ []) ∷ []) [] [] request-IsSafe answer-IsSafe refl refl
      (refl, tt) refl (refl, tt) refl

record World : Type 0 where
  up : Bool
  delivered : ℕ

-- A daemon that is down until it is started, and then answers each request.
abbrev daemons : Daemons
daemons = record {
  World = World;
  fresh_id = λ w. "7";
  exists = λ path w. true;
  exchange = λ path t b w.
      if w.up
      then (received (bytes (0 ∷ 3 ∷ 10 ∷ []) ∷ []), record w { delivered = w.delivered + 1 })
      else (refused, w);
  socket_path_for_project = λ gpr. "/tmp/x.sock";
  load = λ gpr w. ok (some session_a);
  start_background = λ s w. (ok tt, record w { up = true });
}

abbrev delivered : World → ℕ
delivered w = w.delivered

daemons-Counts : Counts daemons delivered
daemons-Counts = record {
  exchange_le = λ path t b w. ground arith;
  refused_eq = λ path t b w e. ground arith;
  start_eq = λ s w. refl;
}

abbrev down : World
down = record { up = false; delivered = 0 }

abbrev parse_float : String → Option ℕ
parse_float s = none

restarted :
    send_request_with_auto_restart wire parse_float daemons "a" "count" [] none down
    ≡ (seen (str "7") (ok (num 5)), record { up = true; delivered = 1 })
unfolding send_request_with_auto_restart send_request wire of_dict to_dict Dict.lookup
    derive_socket_timeout after_exchange truthy
restarted = refl

send_request_with_auto_restart-Within_example :
    Within wire parse_float daemons delivered daemons-Counts down
      (send_request_with_auto_restart wire parse_float daemons "a" "count" [] none down)
send_request_with_auto_restart-Within_example =
    send_request_with_auto_restart-Within wire parse_float daemons delivered daemons-Counts "a"
      "count" [] none down

derive_socket_timeout-Waits_example : (90 + 30 ≤ 330) × (300 + 30 ≤ 330)
unfolding derive_socket_timeout Dict.lookup
derive_socket_timeout-Waits_example =
    derive_socket_timeout-Waits parse_float
      (("timeout", num 90) ∷ ("analysis_timeout", num 300) ∷ []) 330 refl

run_command-exit_code_example :
    let printed = (run_command wire parse_float daemons "a" (list_tags_command "ls") down).0 in
    let reply =
      (send_request_with_auto_restart wire parse_float daemons "a"
        (request_of (list_tags_command "ls")).cmd
        (request_of (list_tags_command "ls")).args
        none
        down).0 in
    ((printed.exit_code ≡ 0) ↔ ((whole : Json) × (reply ≡ response whole)))
    × ((printed.exit_code ≡ 0) ⊎ (printed.exit_code ≡ 1))
run_command-exit_code_example =
    run_command-exit_code wire parse_float daemons "a" (list_tags_command "ls") down

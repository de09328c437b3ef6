-- ===== src/Server/Threads.antt =====
-- `run_server` of ghidra_rpc/server/main.py with the threads that it starts: each connection's
-- `_handle_connection`, and the lock that serialises the handlers.
pub mod Exclusion
pub mod Serial
pub mod Shutdown
use ghidra_rpc_win.Common.{
  ℕ, String, ◌<>◌, str_eq, Bool, true, false, Option, none, some, List, [], ◌∷◌, ◌++◌, ◌≡◌,
  get_elem?, set, if◌then◌else◌,
}
use ghidra_rpc_win.Common.Exec.{Result}
use ghidra_rpc_win.Json.{Json, null, str, arr, obj, to_dict, of_dict}
use ghidra_rpc_win.Rpc.{Parsed, undecodable, blank, malformed, value}
use ghidra_rpc_win.Server.{
  Server, call, alive, unknown, stopping, response_ok, response_error, request_id, get_or_default,
}

-- A request whose handler was found.
pub record Request (S : Type 0) : Type 0 where
  pub id : Json
  pub cmd : String
  pub args : Json
  pub handler : Json → S → Result Json × S

-- Where a connection's thread is. A handler works on the context that it found on entering.
pub data Stage (S : Type 0) : Type 0 where
  reading closed : Stage S
  waiting : Request S → Stage S
  handling : Request S → S → Stage S
  replying : Json → Stage S
  stop_reply : Json → Stage S

-- The accept loop: before its test, in `accept`, and left.
pub data Loop : Type 0 where
  testing accepting finished : Loop

-- `lock` is the thread that holds the lock, and `served` are the calls, the last one first, with
-- their replies.
pub record System (S : Type 0) : Type 0 where
  pub loop : Loop
  pub shutdown : Bool
  pub lock : Option ℕ
  pub threads : List (Stage S)
  pub context : S
  pub served : List (Request S × Json)

module _ {S : Type 0} where
  unfoldable pub set_stage : ℕ → Stage S → System S → System S
  set_stage i st t = record t { threads = set t.threads i st }

  unfoldable pub start : S → System S
  start s = record {
    loop = testing;
    shutdown = false;
    lock = none;
    threads = [];
    context = s;
    served = [];
  }

module _ {S : Type 0} (server : Server S) where
  open server use {handlers}

  abbrev chosen : Json → String → Json → Option (Json → S → Result Json × S) → Stage S
  chosen id cmd args none = replying (unknown server id (str cmd))
  chosen id cmd args (some handler) =
      waiting (record { id = id; cmd = cmd; args = args; handler = handler })

  abbrev stage_of_name : Json → String → Json → Stage S
  stage_of_name id cmd args =
      if str_eq cmd "ping"
      then replying (response_ok id (alive server))
      else if str_eq cmd "stop"
      then stop_reply (stopping id)
      else chosen id cmd args (handlers cmd)

  abbrev stage_of_cmd : Json → Json → Json → Stage S
  stage_of_cmd id (str cmd) args = stage_of_name id cmd args
  stage_of_cmd id (arr _) args = closed
  stage_of_cmd id (obj _) args = closed
  stage_of_cmd id cmd args = replying (unknown server id cmd)

  -- What a thread goes on with when it has parsed its line.
  unfoldable pub stage_of : Parsed → Stage S
  stage_of undecodable = closed
  stage_of blank = closed
  stage_of (malformed e) = replying (response_error null "InvalidJSON" ("Malformed JSON: " <> e))
  stage_of (value (obj fs)) =
      let d = to_dict fs in
      stage_of_cmd (request_id server d) (get_or_default "cmd" (str "") d)
        (get_or_default "args" (obj (of_dict [])) d)
  stage_of (value _) = closed

  -- The end of the reading loop: the peer hung up or `recv` raised, or a line.
  abbrev pub received : Option Parsed → Stage S
  received none = closed
  received (some p) = stage_of p

  -- A handler's reply and what it makes of a context; its exception is a reply.
  abbrev pub handle_locked : Request S → S → Json × S
  handle_locked r s = call server r.id (str r.cmd) r.args (some r.handler) s

  pub data Step : System S → System S → Type 0 where
    -- `while not shutdown_event.is_set()`
    go_on :
        (t : System S)
        → t.loop ≡ testing
        → t.shutdown ≡ false
        → Step t (record t { loop = accepting })
    leave_loop :
        (t : System S)
        → t.loop ≡ testing
        → t.shutdown ≡ true
        → Step t (record t { loop = finished })
    -- `accept`: a timeout, a connection with a new thread, or an `OSError`
    time_out : (t : System S) → t.loop ≡ accepting → Step t (record t { loop = testing })
    accept :
        (t : System S)
        → t.loop ≡ accepting
        → Step t (record t { loop = testing; threads = t.threads ++ reading ∷ [] })
    accept_failed : (t : System S) → t.loop ≡ accepting → Step t (record t { loop = finished })
    receive :
        (t : System S) (i : ℕ) (p : Option Parsed)
        → get_elem? t.threads i ≡ some reading
        → Step t (set_stage i (received p) t)
    -- `with _HANDLER_LOCK`
    acquire :
        (t : System S) (i : ℕ) (r : Request S)
        → get_elem? t.threads i ≡ some (waiting r)
        → t.lock ≡ none
        → Step t (record (set_stage i (handling r t.context) t) { lock = some i })
    release :
        (t : System S) (i : ℕ) (r : Request S) (s : S)
        → get_elem? t.threads i ≡ some (handling r s)
        → Step t (record (set_stage i (replying (handle_locked r s).0) t) {
          lock = none;
          context = (handle_locked r s).1;
          served = (r, (handle_locked r s).0) ∷ t.served;
        })
    -- `conn.sendall`, whether it raises or not
    reply :
        (t : System S) (i : ℕ) (response : Json)
        → get_elem? t.threads i ≡ some (replying response)
        → Step t (set_stage i closed t)
    -- `conn.sendall` and `shutdown_event.set()`
    stop :
        (t : System S) (i : ℕ) (response : Json)
        → get_elem? t.threads i ≡ some (stop_reply response)
        → Step t (record (set_stage i closed t) { shutdown = true })
    stop_failed :
        (t : System S) (i : ℕ) (response : Json)
        → get_elem? t.threads i ≡ some (stop_reply response)
        → Step t (set_stage i closed t)

  pub data Reach (t : System S) : System S → Type 0 where
    here : Reach t t
    next : {u v : System S} → Reach t u → Step u v → Reach t v

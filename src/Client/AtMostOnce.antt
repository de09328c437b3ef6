-- ===== src/Client/AtMostOnce.antt =====
-- A request that has reached a daemon is never sent again.
use ghidra_rpc_win.Common.{
  ℕ, ◌+◌, ◌≤◌, String, ◌≡◌, refl, ◌∙◌, Bool, true, false, Option, none, some, List, [], arith,
  Bool-cases, inl, inr,
}
use ghidra_rpc_win.Common.Dict.{Dict}
use ghidra_rpc_win.Common.Exec.{Result, ok, err}
use ghidra_rpc_win.Json.{Json, obj}
use ghidra_rpc_win.Rpc.{
  Wire, Parsed, undecodable, blank, malformed, value, Read, got, hung_up, broken, read_line,
}
use ghidra_rpc_win.Session.{Session}
use ghidra_rpc_win.Client.{
  Daemons, Exchange, refused, send_failed, received, Reply, response, failed, daemon_not_running,
  daemon_error, raised, after_exchange, read_response, after_read, effective_timeout,
  exchange_within, send_request, retry, restart, after_first, send_request_with_auto_restart,
}

-- A count of the requests that daemons have received: one more by an exchange at most, none by a
-- refused one, and none by the start of a daemon.
pub record Counts (d : Daemons) (delivered : Daemons.World d → ℕ) : Type 0 where
  pub exchange_le :
      (path : String) (t : ℕ) (b : List ℕ) (w : Daemons.World d)
      → delivered (Daemons.exchange d path t b w).1 ≤ delivered w + 1
  pub refused_eq :
      (path : String) (t : ℕ) (b : List ℕ) (w : Daemons.World d)
      → (Daemons.exchange d path t b w).0 ≡ refused
      → delivered (Daemons.exchange d path t b w).1 ≡ delivered w
  pub start_eq :
      (s : Session) (w : Daemons.World d)
      → delivered (Daemons.start_background d s w).1 ≡ delivered w

-- The failures that the client takes for a daemon that is not there.
abbrev pub is_not_running : Reply → Bool
is_not_running (failed (daemon_not_running m)) = true
is_not_running _ = false

-- What was read is never taken for a daemon that is not there.
read_response-is_running : (p : Parsed) → is_not_running (read_response p) ≡ false
unfolding read_response
read_response-is_running undecodable = refl
read_response-is_running blank = refl
read_response-is_running (malformed e) = refl
read_response-is_running (value (obj fs)) = ground arith
read_response-is_running (value _) = refl

after_read-is_running : (wire : Wire) (r : Read) → is_not_running (after_read wire r) ≡ false
after_read-is_running wire (got buf) = read_response-is_running (Wire.parse wire buf)
after_read-is_running wire (hung_up buf) = read_response-is_running (Wire.parse wire buf)
after_read-is_running wire broken = refl

module _ (wire : Wire) (parse_float : String → Option ℕ) (d : Daemons)
    (delivered : Daemons.World d → ℕ) (counts : Counts d delivered) where
  -- From `w`, at most one more request is delivered, and none if the daemon was not there.
  pub record Within (w : Daemons.World d) (r : Reply × Daemons.World d) : Type 0 where
    pub once : delivered r.1 ≤ delivered w + 1
    pub never : is_not_running r.0 ≡ true → delivered r.1 ≡ delivered w

  after_exchange-refused :
      (path : String) (x : Exchange)
      → is_not_running (after_exchange wire path x) ≡ true
      → x ≡ refused
  unfolding after_exchange
  after_exchange-refused path refused h = refl
  after_exchange-refused path send_failed h = cc
  after_exchange-refused path (received events) h =
      cc (after_read-is_running wire (read_line [] events))

  exchange_within-Within :
      (r : Result ℕ) (path cmd : String) (args : Dict Json) (w : Daemons.World d)
      → Within w (exchange_within wire parse_float d r path cmd args w)
  unfolding exchange_within
  exchange_within-Within (err e) path cmd args w = record { once = omega arith; never = λ h. refl }
  exchange_within-Within (ok t) path cmd args w = record {
    once = counts.exchange_le path t _ w;
    never = λ h. counts.refused_eq path t _ w (after_exchange-refused path _ h);
  }

  send_request-Within :
      (path cmd : String) (args : Dict Json) (timeout : Option ℕ) (w : Daemons.World d)
      → Within w (send_request wire parse_float d path cmd args timeout w)
  unfolding send_request
  send_request-Within path cmd args timeout w = elim (Bool-cases (Daemons.exists d path w)) [
    | inl there ↦
        rw there (
          exchange_within-Within (effective_timeout wire parse_float d timeout args) path cmd args
            w)
    | inr gone ↦ rw gone (record { once = omega arith; never = λ h. refl })
  ]

  Within-from :
      (v w : Daemons.World d) (r : Reply × Daemons.World d)
      → delivered v ≡ delivered w
      → Within v r
      → Within w r
  Within-from v w r e h = record { once = omega (arith, h.once); never = λ n. h.never n ∙ e }

  retry-Within :
      (gpr cmd : String) (args : Dict Json) (timeout : Option ℕ) (session : Session)
      (w : Daemons.World d) (started : Result (Unit {0}) × Daemons.World d)
      → delivered started.1 ≡ delivered w
      → Within w (retry wire parse_float d gpr cmd args timeout session started)
  unfolding retry
  retry-Within gpr cmd args timeout session w (err e, v) same = record {
    once = omega arith;
    never = λ h. same;
  }
  retry-Within gpr cmd args timeout session w (ok u, v) same =
      Within-from v w _ same (send_request-Within session.socket_path cmd args timeout v)

  restart-Within :
      (gpr cmd : String) (args : Dict Json) (timeout : Option ℕ) (loaded : Result (Option Session))
      (w : Daemons.World d)
      → Within w (restart wire parse_float d gpr cmd args timeout loaded w)
  unfolding restart
  restart-Within gpr cmd args timeout (err e) w = record { once = omega arith; never = λ h. refl }
  restart-Within gpr cmd args timeout (ok none) w = record { once = omega arith; never = λ h. refl }
  restart-Within gpr cmd args timeout (ok (some session)) w =
      retry-Within gpr cmd args timeout session w (Daemons.start_background d session w)
        (counts.start_eq session w)

  after_first-Within :
      (gpr cmd : String) (args : Dict Json) (timeout : Option ℕ) (w : Daemons.World d)
      (first : Reply × Daemons.World d)
      → Within w first
      → Within w (after_first wire parse_float d gpr cmd args timeout first)
  unfolding after_first
  after_first-Within gpr cmd args timeout w (failed (daemon_not_running m), v) h =
      Within-from v w _ (h.never refl)
        (restart-Within gpr cmd args timeout (Daemons.load d gpr v) v)
  after_first-Within gpr cmd args timeout w (failed (daemon_error a b c), v) h = h
  after_first-Within gpr cmd args timeout w (failed (raised e), v) h = h
  after_first-Within gpr cmd args timeout w (response r, v) h = h

  -- With its restart and its second attempt, a command delivers at most one request to a daemon,
  -- and it delivers none when it ends in `DaemonNotRunning`.
  pub send_request_with_auto_restart-Within :
      (gpr cmd : String) (args : Dict Json) (timeout : Option ℕ) (w : Daemons.World d)
      → Within w (send_request_with_auto_restart wire parse_float d gpr cmd args timeout w)
  unfolding send_request_with_auto_restart
  send_request_with_auto_restart-Within gpr cmd args timeout w =
      after_first-Within gpr cmd args timeout w _
        (send_request-Within (Daemons.socket_path_for_project d gpr) cmd args timeout w)

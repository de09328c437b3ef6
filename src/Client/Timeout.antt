-- ===== src/Client/Timeout.antt =====
-- The socket timeout that `send_request` derives from the arguments.
use ghidra_rpc_win.Common.{ℕ, ◌+◌, ◌≤◌, String, ◌≡◌, Option, some, [], ◌∷◌, arith}
use ghidra_rpc_win.Common.Dict
use ghidra_rpc_win.Common.Dict.{Dict}
use ghidra_rpc_win.Common.Exec.{ok}
use ghidra_rpc_win.Json.{Json, num}
use ghidra_rpc_win.Client.{derive_socket_timeout, socket_timeout_buffer}

-- The number under a key, where there is one.
abbrev pub Waits : Option Json → ℕ → Type 0
Waits (some (num n)) t = n + socket_timeout_buffer ≤ t
Waits _ t = Unit

-- A derived timeout leaves each numeric `timeout` and `analysis_timeout` its full time and thirty
-- seconds more.
pub derive_socket_timeout-Waits :
    (parse_float : String → Option ℕ) (args : Dict Json) (t : ℕ)
    → derive_socket_timeout parse_float args ≡ ok t
    → Waits (Dict.lookup "timeout" args) t × Waits (Dict.lookup "analysis_timeout" args) t
unfolding derive_socket_timeout
derive_socket_timeout-Waits parse_float [] t h = unfold Dict.lookup in (tt, tt)
derive_socket_timeout-Waits parse_float (entry ∷ args) t h = ground arith

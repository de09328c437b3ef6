-- ===== src/Rpc.antt =====
-- The newline-delimited protocol between ghidra_rpc/client.py and ghidra_rpc/server/main.py: what
-- `recv` gives to either side, the two reading loops, and the JSON text on the wire.
pub mod Reading
use ghidra_rpc_win.Common.{
  ℕ, String, ◌≡◌, Bool, true, false, List, [], ◌∷◌, ◌++◌, ◌==◌, ◌||◌, if◌then◌else◌, is_empty,
  Option, none, some,
}
use ghidra_rpc_win.Common.Dict.{Dict}
use ghidra_rpc_win.Json.{Json}

-- One `recv`: some bytes (none when the peer has closed), or an exception such as a timeout. When
-- the events are over the peer has closed.
pub data Event : Type 0 where
  bytes : List ℕ → Event
  failure : Event

-- `b"\n" in buf`
unfoldable pub has_newline : List ℕ → Bool
has_newline [] = false
has_newline (b ∷ buf) = b == 10 || has_newline buf

-- How a reading loop ends: with what it has read, with the peer gone, or by an exception.
pub data Read : Type 0 where
  got : List ℕ → Read
  hung_up : List ℕ → Read
  broken : Read

-- `while b"\n" not in buf`: receive; stop at an empty chunk. The server returns there, and the
-- client goes on with what it has.
unfoldable pub read_line : List ℕ → List Event → Read
unfolding has_newline
read_line buf [] = if has_newline buf then got buf else hung_up buf
read_line buf (failure ∷ events) = if has_newline buf then got buf else broken
read_line buf (bytes chunk ∷ events) =
    let rest = read_line (buf ++ chunk) events in
    if has_newline buf then got buf else if is_empty chunk then hung_up buf else rest

-- What `json.loads(buf.decode("utf-8").strip())` meets: bytes that are no UTF-8, a blank line,
-- a text that is no JSON (with the message of the `JSONDecodeError`), or a value.
pub data Parsed : Type 0 where
  undecodable blank : Parsed
  malformed : String → Parsed
  value : Json → Parsed

-- `json.dumps(v).encode()`, the reading of a buffer, and `str(v)` of a JSON value.
pub record Wire : Type 0 where
  pub dumps : Json → List ℕ
  pub parse : List ℕ → Parsed
  pub show : Json → String

-- What both sides rely on for a value that they send: dumped, it has no newline, and it is read
-- back from its line.
pub record IsSafe (w : Wire) (v : Json) : Type 0 where
  pub no_newline : has_newline (Wire.dumps w v) ≡ false
  pub parse-dumps : Wire.parse w (Wire.dumps w v ++ 10 ∷ []) ≡ value v

-- `(json.dumps(v) + "\n").encode("utf-8")`
abbrev pub line : Wire → Json → List ℕ
line w v = Wire.dumps w v ++ 10 ∷ []

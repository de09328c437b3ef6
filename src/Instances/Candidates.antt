-- ===== src/Instances/Candidates.antt =====
-- Which endpoints are candidates, and with which session.
use ghidra_rpc_win.Common.{
  String, str_eq, eq_iff, ◌≡◌, refl, ◌∙◌, sym, ap, subst, Bool, true, false, ◌||◌, Option, none,
  some, List, [], ◌∷◌, if◌then◌else◌, Bool-cases, inl, inr,
}
use ghidra_rpc_win.Common.Dict
use ghidra_rpc_win.Common.Dict.{Dict, lookup-insert, contains-lookup}
use ghidra_rpc_win.Session.{Session}
use ghidra_rpc_win.Instances.{Candidates, add_sessions, add_endpoints, candidates}

-- The last session with an endpoint, if there is one.
unfoldable pub session_at : String → List Session → Option Session → Option Session
session_at path [] found = found
session_at path (s ∷ sessions) found =
    let here = session_at path sessions (some s) in
    let other = session_at path sessions found in if str_eq s.socket_path path then here else other

unfoldable pub is_endpoint : String → List String → Bool
is_endpoint path [] = false
is_endpoint path (p ∷ paths) = str_eq p path || is_endpoint path paths

abbrev pub candidate : Option Session → Bool → Option (Option Session)
candidate (some s) b = some (some s)
candidate none true = some none
candidate none false = none

abbrev registered : Option Session → Option (Option Session)
registered none = none
registered (some s) = some (some s)

lookup-add_sessions :
    (path : String) (sessions : List Session) (found : Candidates) (o : Option Session)
    → Dict.lookup path found ≡ registered o
    → Dict.lookup path (add_sessions sessions found) ≡ registered (session_at path sessions o)
unfolding add_sessions session_at
lookup-add_sessions path [] found o h = h
lookup-add_sessions path (s ∷ sessions) found o h = elim (Bool-cases (str_eq s.socket_path path)) [
  | inl here ↦ rw here (
      lookup-add_sessions path sessions (Dict.insert s.socket_path (some s) found) (some s)
        (rw (lookup-insert, here)))
  | inr other ↦ rw other (
      lookup-add_sessions path sessions (Dict.insert s.socket_path (some s) found) o
        (rw (lookup-insert, other) h))
]

abbrev or_endpoint : Option (Option Session) → Bool → Option (Option Session)
or_endpoint (some o) b = some o
or_endpoint none true = some none
or_endpoint none false = none

abbrev is_some : Option (Option Session) → Bool
is_some o = elim o [ none ↦ false | some v ↦ true ]

unchanged : (o : Option (Option Session)) → o ≡ or_endpoint o false
unchanged none = refl
unchanged (some o) = refl

settled :
    (o : Option (Option Session)) (b : Bool)
    → is_some o ≡ true
    → or_endpoint o b ≡ or_endpoint o true
settled none b h = cc
settled (some o) b h = refl

new_here : (o : Option (Option Session)) → is_some o ≡ false → some none ≡ or_endpoint o true
new_here none h = refl
new_here (some o) h = cc

is_some-lookup :
    (p path : String) (found : Candidates) (b : Bool)
    → str_eq p path ≡ true
    → Dict.contains p found ≡ b
    → is_some (Dict.lookup path found) ≡ b
is_some-lookup p path found b same h =
    sym (contains-lookup path found)
    ∙ subst (λ q. Dict.contains q found ≡ b) ((eq_iff p path).0 same) h

known_step :
    (p path : String) (paths : List String) (found : Candidates) (e : Bool)
    → str_eq p path ≡ e
    → Dict.contains p found ≡ true
    → or_endpoint (Dict.lookup path found) (is_endpoint path paths)
      ≡ or_endpoint (Dict.lookup path found) (e || is_endpoint path paths)
known_step p path paths found true same h =
    settled (Dict.lookup path found) (is_endpoint path paths)
      (is_some-lookup p path found true same h)
known_step p path paths found false other h = refl

new_step :
    (p path : String) (paths : List String) (found : Candidates) (e : Bool)
    → str_eq p path ≡ e
    → Dict.contains p found ≡ false
    → or_endpoint (if e then some none else Dict.lookup path found) (is_endpoint path paths)
      ≡ or_endpoint (Dict.lookup path found) (e || is_endpoint path paths)
new_step p path paths found true same h =
    new_here (Dict.lookup path found) (is_some-lookup p path found false same h)
new_step p path paths found false other h = refl

lookup-add_endpoints :
    (path : String) (paths : List String) (found : Candidates)
    → Dict.lookup path (add_endpoints paths found)
      ≡ or_endpoint (Dict.lookup path found) (is_endpoint path paths)
unfolding add_endpoints is_endpoint
lookup-add_endpoints path [] found = unchanged (Dict.lookup path found)
lookup-add_endpoints path (p ∷ paths) found = elim (Bool-cases (Dict.contains p found)) [
  | inl known ↦ rw known (
      lookup-add_endpoints path paths found
      ∙ known_step p path paths found (str_eq p path) refl known)
  | inr new ↦ rw new (
      lookup-add_endpoints path paths (Dict.insert p none found)
      ∙ ap (λ o. or_endpoint o (is_endpoint path paths)) (lookup-insert p path none found)
      ∙ new_step p path paths found (str_eq p path) refl new)
]

merged : (o : Option Session) (b : Bool) → or_endpoint (registered o) b ≡ candidate o b
merged none true = refl
merged none false = refl
merged (some s) b = refl

-- An endpoint is a candidate exactly when the registry or an endpoint file names it; it comes with
-- the last session that the registry has for it, if there is one.
pub candidates_lem :
    (sessions : List Session) (paths : List String) (path : String)
    → Dict.lookup path (candidates sessions paths)
      ≡ candidate (session_at path sessions none) (is_endpoint path paths)
unfolding candidates Dict.lookup
candidates_lem sessions paths path =
    lookup-add_endpoints path paths (add_sessions sessions [])
    ∙ ap (λ o. or_endpoint o (is_endpoint path paths))
        (lookup-add_sessions path sessions [] none refl)
    ∙ merged (session_at path sessions none) (is_endpoint path paths)

-- ===== src/VersionTracking.antt =====
-- ghidra_rpc/server/tools/version_tracking.py: from the matches of a session to the report of
-- `version_track`, and the candidates of `match_function`.
-- Scores are natural numbers of a unit so fine that no digit is lost; `one` is the score 1.0, and
-- `round4` is Python's `round(score, 4)`. An address is its text.
pub mod Best
pub mod Ranked
pub mod Handles
pub mod Tracking
pub mod Bulk
pub mod Paged
pub mod Normalise
pub mod Normalised
use ghidra_rpc_win.Common.{
  ℕ, ◌+◌, ◌-◌, String, str_eq, Bool, true, false, not, ◌||◌, ◌&&◌, Option, none, some, List, [],
  ◌∷◌, ◌++◌, ltb, leb, ◌==◌, if◌then◌else◌, length, take, keep, map,
}
use ghidra_rpc_win.Common.Dict
use ghidra_rpc_win.Common.Dict.{Dict}

pub data AssociationType : Type 0 where
  function_association data_association : AssociationType

-- What Ghidra says of a match.
pub record Match : Type 0 where
  pub association : AssociationType
  pub status : String
  pub similarity : ℕ
  pub confidence : ℕ
  pub source_address : String
  pub destination_address : String

pub record MatchSet : Type 0 where
  pub correlator : Option String
  pub matches : List Match

pub record ProgramFunction : Type 0 where
  pub name : String
  pub entry_point : String
  pub is_external : Bool
  pub is_thunk : Bool

-- The functions of a program, and the names of those at an address and around it.
pub record Program : Type 0 where
  pub functions : List ProgramFunction
  pub function_at : String → Option String
  pub function_containing : String → Option String

pub record Scale : Type 0 where
  pub one : ℕ
  pub round4 : ℕ → ℕ

pub record Entry : Type 0 where
  pub source_name : String
  pub source_address : String
  pub destination_name : String
  pub destination_address : String
  pub similarity : ℕ
  pub confidence : ℕ
  pub association : AssociationType
  pub status : String
  pub correlator : String

pub record Options : Type 0 where
  pub limit : ℕ
  pub include_data : Bool
  pub min_similarity : ℕ
  pub changed_only : Bool

abbrev name_or : String → Option String → String
name_or other none = other
name_or other (some name) = name

abbrev at_or_around : Option String → Option String → String
at_or_around (some name) around = name
at_or_around none around = name_or "(none)" around

unfoldable pub get_function_name_at : Program → String → String
get_function_name_at program addr =
    at_or_around (program.function_at addr) (program.function_containing addr)

-- `assoc_type == DATA and not include_data`, `similarity < min_similarity`
abbrev is_data : AssociationType → Bool
is_data data_association = true
is_data function_association = false

unfoldable pub is_skipped : Options → Match → Bool
is_skipped options match =
    (is_data match.association && not options.include_data)
    || ltb match.similarity options.min_similarity

unfoldable pub match_entry : Scale → Program → Program → String → Match → Entry
unfolding get_function_name_at
match_entry scale source destination correlator match = record {
  source_name = get_function_name_at source match.source_address;
  source_address = match.source_address;
  destination_name = get_function_name_at destination match.destination_address;
  destination_address = match.destination_address;
  similarity = scale.round4 match.similarity;
  confidence = scale.round4 match.confidence;
  association = match.association;
  status = match.status;
  correlator = correlator;
}

unfoldable pub set_entries : Scale → Options → Program → Program → String → List Match → List Entry
unfolding is_skipped match_entry
set_entries scale options source destination correlator [] = []
set_entries scale options source destination correlator (match ∷ matches) =
    let rest = set_entries scale options source destination correlator matches in
    if is_skipped options match
    then rest
    else match_entry scale source destination correlator match ∷ rest

unfoldable pub collect_matches : Scale → Options → Program → Program → List MatchSet → List Entry
unfolding set_entries
collect_matches scale options source destination [] = []
collect_matches scale options source destination (match_set ∷ match_sets) =
    set_entries scale options source destination (name_or "unknown" match_set.correlator)
      match_set.matches
    ++ collect_matches scale options source destination match_sets

-- Better in similarity, or in confidence at the same similarity.
abbrev pub is_better : Entry → Entry → Bool
is_better entry prev =
    ltb prev.similarity entry.similarity
    || (entry.similarity == prev.similarity && ltb prev.confidence entry.confidence)

abbrev pub beats : Entry → Option Entry → Bool
beats entry none = true
beats entry (some prev) = is_better entry prev

-- The dict `seen` after the entries that are left.
unfoldable pub see : List Entry → Dict Entry → Dict Entry
see [] seen = seen
see (entry ∷ entries) seen = see entries (
    if beats entry (Dict.lookup entry.source_address seen)
    then Dict.insert entry.source_address entry seen
    else seen)

-- `sorted(..., key=lambda x: -x["similarity"])`, which keeps the order of equals
unfoldable pub rank : Entry → List Entry → List Entry
rank entry [] = entry ∷ []
rank entry (e ∷ es) =
    let rest = rank entry es in
    if leb e.similarity entry.similarity then entry ∷ e ∷ es else e ∷ rest

unfoldable pub ranked : List Entry → List Entry
unfolding rank
ranked [] = []
ranked (e ∷ es) = rank e (ranked es)

unfoldable pub best_matches : List Entry → List Entry
unfolding see ranked
best_matches entries = ranked (Dict.values (see entries []))

abbrev pub is_changed : Scale → Entry → Bool
is_changed scale entry = ltb entry.similarity scale.one

-- `if limit and len(matched) > limit`
unfoldable pub limited : ℕ → List Entry → List Entry
limited limit entries =
    if not (limit == 0) && ltb limit (length entries) then take limit entries else entries

abbrev pub has_address : String → List String → Bool
has_address addr [] = false
has_address addr (a ∷ matched) = str_eq a addr || has_address addr matched

unfoldable pub get_unmatched_functions : List ProgramFunction → List String → List ProgramFunction
get_unmatched_functions [] matched = []
get_unmatched_functions (func ∷ funcs) matched =
    let rest = get_unmatched_functions funcs matched in
    if func.is_external || func.is_thunk
    then rest
    else if has_address func.entry_point matched
    then rest
    else func ∷ rest

pub record Report : Type 0 where
  pub matched : List Entry
  pub unmatched_source : List ProgramFunction
  pub unmatched_destination : List ProgramFunction
  pub source_functions_total : ℕ
  pub source_functions_matched : ℕ
  pub source_functions_unmatched : ℕ
  pub changed_functions : ℕ
  pub identical_functions : ℕ
  pub destination_functions_unmatched : ℕ

-- The report of the best matches; the counts are taken before the filter and the limit.
unfoldable pub report : Scale → Options → Program → Program → List Entry → Report
unfolding limited get_unmatched_functions
report scale options source destination matched =
    let unmatched_source =
      get_unmatched_functions source.functions (map (λ (e : Entry). e.source_address) matched) in
    let unmatched_destination =
      get_unmatched_functions destination.functions
        (map (λ (e : Entry). e.destination_address) matched) in
    let changed = keep (is_changed scale) matched in
    record {
      matched = limited options.limit (if options.changed_only then changed else matched);
      unmatched_source = unmatched_source;
      unmatched_destination = unmatched_destination;
      source_functions_total = length matched + length unmatched_source;
      source_functions_matched = length matched;
      source_functions_unmatched = length unmatched_source;
      changed_functions = length changed;
      identical_functions = length matched - length changed;
      destination_functions_unmatched = length unmatched_destination;
    }

-- What `version_track` reports of the session's match sets.
unfoldable pub track_report : Scale → Options → Program → Program → List MatchSet → Report
unfolding collect_matches best_matches report
track_report scale options source destination match_sets =
    report scale options source destination
      (best_matches (collect_matches scale options source destination match_sets))

-- ===== src/Context/Lookup.antt =====
-- Names resolve to one program, and another program does not change to which.
use ghidra_rpc_win.Common.{
  String, ◌≡◌, refl, ◌∙◌, ◌≢◌, true, false, Option, none, some, List, [], ◌∷◌, ◌++◌, arith, str_ne,
  eq_iff, Bool-cases, Option-cases, inl, inr, ◌⊎◌, if◌then◌else◌,
}
use ghidra_rpc_win.Common.Dict
use ghidra_rpc_win.Common.Dict.{Dict, lookup-insert}
use ghidra_rpc_win.Common.Exec.{ok}
use ghidra_rpc_win.Context.{ProgramInfo, matches, candidates, pick, exact_or_pick, get_program}

module _ {P : Type 0} where
  candidates-insert :
      (b k : String) (q : ProgramInfo P) (programs : Dict (ProgramInfo P))
      → Dict.contains k programs ≡ false
      → candidates b (Dict.insert k q programs)
        ≡ candidates b programs ++ (if matches b k q then q ∷ [] else [])
  unfolding candidates Dict.insert Dict.contains
  candidates-insert b k q [] fresh = refl
  candidates-insert b k q ((j, p) ∷ programs) fresh =
      ground (arith, candidates-insert b k q programs)

  pick-append :
      (b : String) (ps extra : List (ProgramInfo P)) (pi qi : ProgramInfo P)
      → pick b ps ≡ ok pi
      → pick b (ps ++ extra) ≡ ok qi
      → qi ≡ pi
  pick-append b [] extra pi qi h k = cc
  pick-append b (p ∷ []) [] pi qi h k = cc
  pick-append b (p ∷ []) (e ∷ extra) pi qi h k = cc
  pick-append b (p ∷ r ∷ ps) extra pi qi h k = cc

  same_program :
      (b : String) (o : Option (ProgramInfo P)) (ps extra : List (ProgramInfo P))
      (pi qi : ProgramInfo P)
      → exact_or_pick o (pick b ps) ≡ ok pi
      → exact_or_pick o (pick b (ps ++ extra)) ≡ ok qi
      → qi ≡ pi
  same_program b (some p) ps extra pi qi h r = cc
  same_program b none ps extra pi qi h r = pick-append b ps extra pi qi h r

  -- Loading a program under a new key never redirects a name other than that key: where the name
  -- still resolves, it resolves to the program that it did.
  pub get_program-insert :
      (b k : String) (q : ProgramInfo P) (programs : Dict (ProgramInfo P)) (pi qi : ProgramInfo P)
      → k ≢ b
      → Dict.contains k programs ≡ false
      → get_program b programs ≡ ok pi
      → get_program b (Dict.insert k q programs) ≡ ok qi
      → qi ≡ pi
  unfolding get_program
  get_program-insert b k q programs pi qi ne fresh h r =
      same_program b (Dict.lookup b programs) (candidates b programs)
        (if matches b k q then q ∷ [] else []) pi qi h
        (rw (lookup-insert, str_ne k b ne, candidates-insert b k q programs fresh) at r)

  -- What a name resolves to is a loaded program: under the name as its key, or with a key or a name
  -- that matches.
  abbrev pub Loaded : String → ProgramInfo P → Dict (ProgramInfo P) → Type 0
  Loaded b pi [] = ⊥
  Loaded b pi ((k, q) ∷ programs) =
      ((q ≡ pi) × ((k ≡ b) ⊎ (matches b k q ≡ true))) ⊎ Loaded b pi programs

  lookup-Loaded :
      (b : String) (pi : ProgramInfo P) (programs : Dict (ProgramInfo P))
      → Dict.lookup b programs ≡ some pi
      → Loaded b pi programs
  unfolding Dict.lookup
  lookup-Loaded b pi [] h = cc
  lookup-Loaded b pi ((k, q) ∷ programs) h = ground (arith, eq_iff k b, lookup-Loaded b pi programs)

  -- A program among the candidates is loaded under a matching key or name.
  candidates-Loaded :
      (b : String) (pi : ProgramInfo P) (rest : List (ProgramInfo P))
      (programs : Dict (ProgramInfo P))
      → candidates b programs ≡ pi ∷ rest
      → Loaded b pi programs
  unfolding candidates
  candidates-Loaded b pi rest [] h = cc
  candidates-Loaded b pi rest ((k, q) ∷ programs) h = elim (Bool-cases (matches b k q)) [
    | inl fits ↦ inl (cc (rw fits at h), inr fits)
    | inr other ↦ inr (candidates-Loaded b pi rest programs (rw other at h))
  ]

  picked :
      (b : String) (ps : List (ProgramInfo P)) (pi : ProgramInfo P)
      → pick b ps ≡ ok pi
      → ps ≡ pi ∷ []
  picked b [] pi h = cc
  picked b (p ∷ []) pi h = cc
  picked b (p ∷ r ∷ ps) pi h = cc

  -- A name resolves only to a program that is loaded under it, or whose key or name it matches.
  pub get_program-Loaded :
      (b : String) (programs : Dict (ProgramInfo P)) (pi : ProgramInfo P)
      → get_program b programs ≡ ok pi
      → Loaded b pi programs
  unfolding get_program
  get_program-Loaded b programs pi h = elim (Option-cases (Dict.lookup b programs)) [
    | inl missing ↦
        candidates-Loaded b pi [] programs (picked b (candidates b programs) pi (rw missing at h))
    | inr (p, found) ↦ lookup-Loaded b pi programs (found ∙ cc (rw found at h))
  ]

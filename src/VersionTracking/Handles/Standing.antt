-- ===== src/VersionTracking/Handles/Standing.antt =====
-- Under which keys the two programs are loaded.
use ghidra_rpc_win.Common.{
  String, str_eq, str_ne, eq_iff, ◌≡◌, ◌≢◌, refl, ap, subst, Bool, true, false, ◌&&◌, not, Option,
  none, some, [], ◌∷◌, if◌then◌else◌, Bool-cases, Option-cases, inl, inr,
}
use ghidra_rpc_win.Common.Dict
use ghidra_rpc_win.Common.Dict.{Dict, NodupKeys, lookup-insert, lookup-erase}
use ghidra_rpc_win.Common.Exec.{ok}
use ghidra_rpc_win.Context.{ProgramInfo, get_program}
use ghidra_rpc_win.Context.Lookup.{Loaded, get_program-Loaded}
use ghidra_rpc_win.Context.Loading.{Project, Context}
use ghidra_rpc_win.VersionTracking.Handles.{Tracker, key_of, is_key}
use ghidra_rpc_win.VersionTracking.Handles.Actions.{}

module _ (g : Project) (t : Tracker g) where
  abbrev pub loaded_at : String → Context g → Option (ProgramInfo (Project.P g))
  loaded_at k ctx = Dict.lookup k ctx.programs

  -- `same` is the identity of records.
  pub record IsIdentity : Type 0 where
    pub refl_law : (x : ProgramInfo (Project.P g)) → Tracker.same t x x ≡ true
    pub eq_law : (x y : ProgramInfo (Project.P g)) → Tracker.same t x y ≡ true → x ≡ y

  -- The keys of a dict of programs are different, and none is empty.
  pub record IsKeyed (programs : Dict (ProgramInfo (Project.P g))) : Type 0 where
    pub nodup : NodupKeys programs
    pub no_empty : Dict.lookup "" programs ≡ none

  present :
      (k : String) (pi : ProgramInfo (Project.P g)) (j : String) (q : ProgramInfo (Project.P g))
      (programs : Dict (ProgramInfo (Project.P g)))
      → Dict.lookup j programs ≡ none
      → Dict.lookup k programs ≡ some pi
      → Dict.lookup k ((j, q) ∷ programs) ≡ some pi
  unfolding Dict.lookup
  present k pi j q programs absent h = elim (Bool-cases (str_eq j k)) [
    | inl equal ↦ cc (subst (λ x. Dict.lookup x programs ≡ none) ((eq_iff j k).0 equal) absent, h)
    | inr other ↦ rw other h
  ]

  pub key_of-lookup :
      IsIdentity
      → (info : ProgramInfo (Project.P g)) (programs : Dict (ProgramInfo (Project.P g)))
        (k : String)
      → NodupKeys programs
      → key_of g t info programs ≡ some k
      → Dict.lookup k programs ≡ some info
  unfolding key_of Dict.lookup
  key_of-lookup law info [] k nodup h = cc
  key_of-lookup law info ((j, pi) ∷ programs) k nodup h =
      elim (Option-cases (key_of g t info programs)) [
        | inl last ↦ elim (Bool-cases (Tracker.same t pi info)) [
          | inl same ↦ rw (law.eq_law pi info same) (here j k (cc (rw (last, same) at h)))
          | inr other ↦ cc (rw (last, other) at h)
        ]
        | inr (i, later) ↦
            present k info j pi programs nodup.0
              (key_of-lookup law info programs k nodup.1 (rw later (rw later at h)))
      ]
    where
      here :
          {v : ProgramInfo (Project.P g)} (j k : String)
          → j ≡ k
          → (if str_eq j k then some v else Dict.lookup k programs) ≡ some v
      here j k e = rw ((eq_iff j k).1 e) refl

  key_of-some :
      IsIdentity
      → (info : ProgramInfo (Project.P g)) (programs : Dict (ProgramInfo (Project.P g)))
        (k : String)
      → Dict.lookup k programs ≡ some info
      → (j : String) × (key_of g t info programs ≡ some j)
  unfolding key_of Dict.lookup
  key_of-some law info [] k h = cc
  key_of-some law info ((j, pi) ∷ programs) k h = elim (Option-cases (key_of g t info programs)) [
    | inl last ↦ elim (Bool-cases (str_eq j k)) [
      | inl equal ↦ (j, rw last (rw (same_of pi info (cc (rw equal at h))) refl))
      | inr other ↦
          let (i, found) = key_of-some law info programs k (rw other at h) in cc (last, found)
    ]
    | inr (i, later) ↦ (i, rw later refl)
  ]
    where
      same_of : (x y : ProgramInfo (Project.P g)) → x ≡ y → Tracker.same t x y ≡ true
      same_of x y e = subst (λ z. Tracker.same t x z ≡ true) e (law.refl_law x)

  Loaded-lookup :
      (b : String) (pi : ProgramInfo (Project.P g)) (programs : Dict (ProgramInfo (Project.P g)))
      → NodupKeys programs
      → Loaded b pi programs
      → (k : String) × (Dict.lookup k programs ≡ some pi)
  unfolding Dict.lookup
  Loaded-lookup b pi [] nodup h = absurd h
  Loaded-lookup b pi ((j, q) ∷ programs) nodup (inl (e, fits)) =
      (j, rw ((eq_iff j j).1 refl) (ap some e))
  Loaded-lookup b pi ((j, q) ∷ programs) nodup (inr later) =
      let (k, found) = Loaded-lookup b pi programs nodup.1 later in
      (k, present k pi j q programs nodup.0 found)

  -- A program that stands under its key, and under no other that counts as this one.
  pub record StandsAt (info : ProgramInfo (Project.P g)) (key : Option String)
      (programs : Dict (ProgramInfo (Project.P g))) : Type 0 where
    pub found : (k : String) → is_key g t key k ≡ true → Dict.lookup k programs ≡ some info
    pub key_name : String
    pub named : is_key g t key key_name ≡ true

  pub key_of-StandsAt :
      IsIdentity
      → (b : String) (info : ProgramInfo (Project.P g))
        (programs : Dict (ProgramInfo (Project.P g)))
      → IsKeyed programs
      → get_program b programs ≡ ok info
      → StandsAt info (key_of g t info programs) programs
  key_of-StandsAt law b info programs keyed resolved =
      let (k, e) =
        Loaded-lookup b info programs keyed.nodup (get_program-Loaded b programs info resolved) in
      let (j, ej) = key_of-some law info programs k e in
      let there = key_of-lookup law info programs j keyed.nodup ej in
      rw ej (stands j there (str_ne j "" (not_empty j there)))
    where
      not_empty : (j : String) → Dict.lookup j programs ≡ some info → j ≢ ""
      not_empty j there e =
          cc (subst (λ x. Dict.lookup x programs ≡ some info) e there, keyed.no_empty)

      stands :
          (j : String)
          → Dict.lookup j programs ≡ some info
          → str_eq j "" ≡ false
          → StandsAt info (some j) programs
      stands j there given = record {
        found = λ k h.
            subst (λ x. Dict.lookup x programs ≡ some info)
              ((eq_iff j k).0 (both (str_eq j k) (not (str_eq j "")) h)) there;
        key_name = j;
        named = rw (given, (eq_iff j j).1 refl) refl;
      }
        where
          both : (a b : Bool) → a && b ≡ true → a ≡ true
          both true b h = refl
          both false b h = cc

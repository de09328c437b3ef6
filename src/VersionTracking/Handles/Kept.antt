-- ===== src/VersionTracking/Handles/Kept.antt =====
-- Which programs are loaded after a session.
use ghidra_rpc_win.Common.{String, ◌≡◌, refl, sym, ◌∙◌, ap, subst, some, Bool-cases, inl, inr}
use ghidra_rpc_win.Common.Dict
use ghidra_rpc_win.Common.Exec.{Result, ok, err, Exn}
use ghidra_rpc_win.Context.{ProgramInfo}
use ghidra_rpc_win.Context.Loading.{Project, Context, Action, continue, on_world}
use ghidra_rpc_win.VersionTracking.Handles.{
  Tracker, ◌>>=◌, Pair, Opened, is_key, open_vt_programs, release_all, finished, in_session,
  with_session, restore_daemon_programs,
}
use ghidra_rpc_win.VersionTracking.Handles.Actions.{
  Keeps, Keeps-on_world, Keeps-returns, release_all-Keeps,
}
use ghidra_rpc_win.VersionTracking.Handles.Standing.{loaded_at, IsIdentity, IsKeyed}
use ghidra_rpc_win.VersionTracking.Handles.Restoring.{
  IsGivenBack, OpensAs, reopened, Restored, restore_daemon_programs-Restored,
}
use ghidra_rpc_win.VersionTracking.Handles.Taken.{Taken, open_vt_programs-Taken}
use ghidra_rpc_win.VersionTracking.Handles.Gone.{BothGone, Taken-BothGone}

module _ (g : Project) (t : Tracker g) where
  -- What stands under a key is as before, or it is a program that the project gives under the name
  -- of the one before.
  pub data SameProgram (k : String) (before after : Context g) : Type 0 where
    untouched : loaded_at g t k after ≡ loaded_at g t k before → SameProgram k before after
    opened_again :
        (info : ProgramInfo (Project.P g)) (p : Project.P g)
        → loaded_at g t k before ≡ some info
        → loaded_at g t k after ≡ some (reopened g t info.name p)
        → OpensAs g t info.name p
        → SameProgram k before after

  given_back :
      (b1 b2 : String) (pair : Pair g t) (before during after : Context g)
      → Taken g t b1 b2 pair before during
      → Restored g t pair during after
      → (k : String) → SameProgram k before after
  given_back b1 b2 pair before during after taken restored k =
      elim (Bool-cases (is_key g t pair.dst_key k)) [
        | inl dst ↦
            named pair.dst_name taken.dst restored.dst taken.dst_named (taken.dst_at.found k dst)
              (restored.loaded k ∙ rw dst refl) restored.dst_opens
        | inr not_dst ↦ elim (Bool-cases (is_key g t pair.src_key k)) [
          | inl src ↦
              named pair.src_name taken.src restored.src taken.src_named (taken.src_at.found k src)
                (restored.loaded k ∙ rw (not_dst, src) refl) restored.src_opens
          | inr not_src ↦ untouched (
              restored.loaded k
              ∙ (rw (not_dst, not_src) refl ∙ (taken.gone k ∙ rw (not_dst, not_src) refl)))
        ]
      ]
    where
      named :
          (name : String) (info : ProgramInfo (Project.P g)) (p : Project.P g)
          → name ≡ info.name
          → loaded_at g t k before ≡ some info
          → loaded_at g t k after ≡ some (reopened g t name p)
          → OpensAs g t name p
          → SameProgram k before after
      named name info p e there h opens =
          opened_again info p there (h ∙ ap (λ n. some (reopened g t n p)) e)
            (subst (λ n. OpensAs g t n p) e opens)

  moved :
      (b1 b2 : String) (pair : Pair g t) (before ctx c : Context g)
      → c.programs ≡ ctx.programs
      → Taken g t b1 b2 pair before ctx
      → Taken g t b1 b2 pair before c
  moved b1 b2 pair before ctx c same taken = record {
    src = taken.src;
    dst = taken.dst;
    src_found = taken.src_found;
    dst_found = taken.dst_found;
    src_at = taken.src_at;
    dst_at = taken.dst_at;
    src_named = taken.src_named;
    dst_named = taken.dst_named;
    gone = λ k. ap (Dict.lookup k) same ∙ taken.gone k;
  }

  record Succeeds (m : Action g (Unit {0})) : Type 0 where
    at : (ctx : Context g) → (m ctx).0 ≡ ok tt

  Succeeds-then :
      {m n : Action g (Unit {0})} → Succeeds m → Succeeds n → Succeeds (◌>>=◌ g t m (λ _. n))
  unfolding ◌>>=◌
  Succeeds-then {m} {n} h k = record { at = λ ctx. go n (m ctx) (h.at ctx) k }
    where
      go :
          (n : Action g (Unit {0})) (r : Result (Unit {0}) × Context g)
          → r.0 ≡ ok tt
          → Succeeds n
          → (continue g (λ _. n) r).0 ≡ ok tt
      go n (err e, c) e' k = cc
      go n (ok u, c) e' k = k.at c

  release_all-Succeeds :
      (session : Tracker.V t) (opened : Opened g t)
      → IsGivenBack g t
      → Succeeds (release_all g t session opened)
  unfolding release_all
  release_all-Succeeds session opened back =
      Succeeds-then (record { at = λ ctx. back.release_session session ctx.world })
        (Succeeds-then (record { at = λ ctx. back.release opened.src_prog ctx.world })
          (record { at = λ ctx. back.release opened.dst_prog ctx.world }))

  -- When the session was created and nothing fails at the end, whatever the body does, its result
  -- is the result of the whole, and the same programs are loaded as before.
  in_session-Kept :
      {R : Type 0} (b1 b2 : String) (pair : Pair g t) (opened : Opened g t) (session : Tracker.V t)
      (body : Action g R) (ctx before : Context g)
      → IsGivenBack g t
      → Keeps g t body
      → Taken g t b1 b2 pair before ctx
      → ((in_session g t pair opened session body ctx).0 ≡ (body ctx).0)
        × ((k : String) → SameProgram k before (in_session g t pair opened session body ctx).1)
  unfolding in_session
  in_session-Kept b1 b2 pair opened session body ctx before back keeps taken =
      go (body ctx).0 (release_all g t session opened (body ctx).1)
        ((release_all-Succeeds session opened back).at (body ctx).1)
        ((release_all-Keeps g t session opened).at (body ctx).1 ∙ keeps.at ctx)
    where
      go :
          {R : Type 0} (r : Result R) (ended : Result (Unit {0}) × Context g)
          → ended.0 ≡ ok tt
          → ended.1.programs ≡ ctx.programs
          → ((finished g t pair r ended).0 ≡ r)
            × ((k : String) → SameProgram k before (finished g t pair r ended).1)
      go r (err e, c) h same = cc
      go r (ok u, c) h same = (
        refl,
        given_back b1 b2 pair before c (restore_daemon_programs g t pair c)
            (moved b1 b2 pair before ctx c same taken)
            (restore_daemon_programs-Restored g t pair c back),
      )

  in_session-with_session :
      {R : Type 0} (session_name : Pair g t → String) (b1 b2 : String)
      (body : Opened g t → Tracker.V t → Action g R) (pair : Pair g t) (opened : Opened g t)
      (ctx c : Context g) (created : Result (Tracker.V t) × Context g)
      → open_vt_programs g t b1 b2 ctx ≡ (ok (pair, opened), c)
      → on_world g (Tracker.create_session t (session_name pair) opened.src_prog opened.dst_prog) c
        ≡ created
      → with_session g t session_name b1 b2 body ctx
        ≡ continue g (λ session. in_session g t pair opened session (body opened session)) created
  unfolding with_session ◌>>=◌
  in_session-with_session session_name b1 b2 body pair opened ctx c created h k = rw (h, k) refl

  -- When both programs were opened, the session was created and nothing fails at the end, then
  -- whatever the body does, its result is the result of the whole, and afterwards the same programs
  -- are loaded as before.
  pub with_session-Kept :
      {R : Type 0} (session_name : Pair g t → String) (b1 b2 : String)
      (body : Opened g t → Tracker.V t → Action g R) (pair : Pair g t) (opened : Opened g t)
      (session : Tracker.V t) (ctx c c' : Context g)
      → IsIdentity g t
      → IsKeyed g t ctx.programs
      → open_vt_programs g t b1 b2 ctx ≡ (ok (pair, opened), c)
      → on_world g (Tracker.create_session t (session_name pair) opened.src_prog opened.dst_prog) c
        ≡ (ok session, c')
      → IsGivenBack g t
      → Keeps g t (body opened session)
      → ((with_session g t session_name b1 b2 body ctx).0 ≡ (body opened session c').0)
        × ((k : String) → SameProgram k ctx (with_session g t session_name b1 b2 body ctx).1)
  with_session-Kept {R} session_name b1 b2 body pair opened session ctx c c' law keyed h k back
        keeps =
      let whole =
        in_session-with_session session_name b1 b2 body pair opened ctx c (ok session, c') h k in
      let same =
        Keeps-returns g t
          (Keeps-on_world g t
            (Tracker.create_session t (session_name pair) opened.src_prog opened.dst_prog))
          k in
      let kept = in_session-Kept b1 b2 pair opened session (body opened session) c' ctx back keeps (
        moved b1 b2 pair ctx c c' same
          (open_vt_programs-Taken g t law b1 b2 pair opened ctx c keyed h)) in
      (
        ap (λ (r : Result R × Context g). r.0) whole ∙ kept.0,
        λ key.
            subst (λ (r : Result R × Context g). SameProgram key ctx r.1) (sym whole) (kept.1 key),
      )

  -- Where each key of the loaded programs is used once and is not empty: when both programs were
  -- opened but their session cannot be created, the exception goes out, and the programs that both
  -- names resolved to are no longer loaded under the keys that they had; the other programs stay.
  pub with_session-Taken :
      {R : Type 0} (session_name : Pair g t → String) (b1 b2 : String)
      (body : Opened g t → Tracker.V t → Action g R) (pair : Pair g t) (opened : Opened g t)
      (e : Exn) (ctx c c' : Context g)
      → IsIdentity g t
      → IsKeyed g t ctx.programs
      → open_vt_programs g t b1 b2 ctx ≡ (ok (pair, opened), c)
      → on_world g (Tracker.create_session t (session_name pair) opened.src_prog opened.dst_prog) c
        ≡ (err e, c')
      → ((with_session g t session_name b1 b2 body ctx).0 ≡ err e)
        × BothGone g t b1 b2 ctx (with_session g t session_name b1 b2 body ctx).1
  with_session-Taken {R} session_name b1 b2 body pair opened e ctx c c' law keyed h k =
      let whole =
        in_session-with_session session_name b1 b2 body pair opened ctx c (err e, c') h k in
      let same =
        (Keeps-on_world g t
            (Tracker.create_session t (session_name pair) opened.src_prog opened.dst_prog)).at
          c in
      (
        ap (λ (r : Result R × Context g). r.0) whole,
        subst (λ (r : Result R × Context g). BothGone g t b1 b2 ctx r.1) (sym whole)
            (Taken-BothGone g t b1 b2 pair ctx c' (
              moved b1 b2 pair ctx c c'
                (ap (λ (r : Result (Tracker.V t) × Context g). r.1.programs) (sym k) ∙ same)
                (open_vt_programs-Taken g t law b1 b2 pair opened ctx c keyed h))),
      )

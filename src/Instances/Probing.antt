-- ===== src/Instances/Probing.antt =====
-- Which instances are listed, and which registry entries are pruned.
use ghidra_rpc_win.Common.{
  String, ◌≡◌, refl, ◌∙◌, sym, ap, subst, Bool, true, false, Option, none, some, List, [], ◌∷◌,
  if◌then◌else◌, All, map, Bool-cases, inl, inr,
}
use ghidra_rpc_win.Common.Dict
use ghidra_rpc_win.Common.Dict.{Dict, lookup-erase}
use ghidra_rpc_win.Common.Exec.{Result, ok, err, >>=-ok}
use ghidra_rpc_win.Json.{Json, null, bool, num, str, arr, obj, truthy, Codec, IsLawful}
use ghidra_rpc_win.Client.{Reply}
use ghidra_rpc_win.Session.{Host, Session}
use ghidra_rpc_win.Session.Registry.{load_all, Files, project_digest, unregister}
use ghidra_rpc_win.Session.Registry.View.{
  view, IsHealthy, unregister-ok, unregister-IsHealthy, view-unregister,
}
use ghidra_rpc_win.Instances.Stale.{erase_all, any_entry, is_gone, lookup-erase_all}
use ghidra_rpc_win.Instances.{
  Entry, Candidates, probe, is_null, entry_of, results, from_session, prune, then_next, returning,
  prune_after, candidates, discover_instances,
}

abbrev pub IsRunning : Entry → Type 0
IsRunning e = e.running ≡ true

abbrev Running : Result Entry → Type 0
Running (err e) = Unit
Running (ok e) = IsRunning e

from_session-IsRunning :
    (path : String) (sess : Option Session) → IsRunning (from_session true path sess)
from_session-IsRunning path none = refl
from_session-IsRunning path (some s) = refl

either : (b : Bool) (x y : Result Entry) → Running x → Running y → Running (if b then x else y)
either true x y h k = h
either false x y h k = k

entry_of-Running :
    (path : String) (sess : Option Session) (v : Json)
    → is_null v ≡ false
    → Running (entry_of path sess v)
unfolding entry_of
entry_of-Running path sess null h = cc
entry_of-Running path sess (bool b) h =
    either (truthy (bool b)) _ _ tt (from_session-IsRunning path sess)
entry_of-Running path sess (num n) h =
    either (truthy (num n)) _ _ tt (from_session-IsRunning path sess)
entry_of-Running path sess (str s) h =
    either (truthy (str s)) _ _ tt (from_session-IsRunning path sess)
entry_of-Running path sess (arr vs) h =
    either (truthy (arr vs)) _ _ tt (from_session-IsRunning path sess)
entry_of-Running path sess (obj fs) h =
    either (truthy (obj fs)) _ _ refl (from_session-IsRunning path sess)

ok_inj : (a b : List Entry) → ok a ≡ ok b → a ≡ b
ok_inj a b e = cc

-- Without the dead ones, every instance that is listed answered the ping.
pub results-IsRunning :
    (reply : String → Reply) (exists : String → Bool) (found : Candidates) (entries : List Entry)
    → results reply exists false found ≡ ok entries
    → All IsRunning entries
unfolding results
results-IsRunning reply exists [] entries h = subst (All IsRunning) (ok_inj [] entries h) tt
results-IsRunning reply exists ((path, sess) ∷ found) entries h =
    elim (Bool-cases (is_null (probe (reply path)))) [
      | inl dead ↦ results-IsRunning reply exists found entries (rw (dead, results) at h)
      | inr alive ↦
          let h' = rw (alive, results) at h in
          let (e, he, h1) = >>=-ok (entry_of path sess (probe (reply path))) _ h' in
          let (rest, hr, h2) = >>=-ok (results reply exists false found) _ h1 in
          subst (All IsRunning) (ok_inj (e ∷ rest) entries h2) (
            subst Running he (entry_of-Running path sess (probe (reply path)) alive),
            results-IsRunning reply exists found rest hr,
          )
    ]

module _ (c : Codec) (h : Host) (law : IsLawful c) where
  -- A step that returns and leaves this registry.
  abbrev Leaves : Dict Json → Result (Unit {0}) × Files c h → Type 0
  Leaves d (err e, files) = ⊥
  Leaves d (ok u, files) = view c h files ≡ d

  then_next-Leaves :
      (d : Dict Json) (step : Result (Unit {0}) × Files c h)
      (next : Files c h → Result (Unit {0}) × Files c h)
      → step.0 ≡ ok tt
      → Leaves d (next step.1)
      → Leaves d (then_next c h true step next)
  then_next-Leaves d (err e, files) next r n = cc
  then_next-Leaves d (ok u, files) next r n = n

  prune-Leaves :
      (gprs : List String) (files : Files c h)
      → IsHealthy c h files
      → Leaves
          (erase_all (map (project_digest h) gprs) (view c h files))
          (prune c h true gprs files)
  unfolding prune erase_all
  prune-Leaves [] files healthy = refl
  prune-Leaves (gpr ∷ gprs) files healthy =
      then_next-Leaves _ (unregister c h true gpr files) (prune c h true gprs)
        (unregister-ok c h gpr files healthy)
        (subst
          (λ d.
            Leaves (erase_all (map (project_digest h) gprs) d)
              (prune c h true gprs (unregister c h true gpr files).1))
          (view-unregister c h law gpr files healthy)
          (prune-Leaves gprs (unregister c h true gpr files).1
            (unregister-IsHealthy c h law gpr files healthy)))

  pruned :
      (entries shown : List Entry) (d : Dict Json) (step : Result (Unit {0}) × Files c h)
      (files' : Files c h)
      → Leaves d step
      → returning c h true entries step ≡ (ok shown, files')
      → view c h files' ≡ d
  pruned entries shown d (err e, files) files' l r = absurd l
  pruned entries shown d (ok u, files) files' l r = ap (view c h) (sym (same files files' r)) ∙ l
    where
      same :
          (files files' : Files c h)
          → ◌≡◌ {A = Result (List Entry) × Files c h} (ok entries, files) (ok shown, files')
          → files ≡ files'
      same files files' r = cc

  after_results :
      (shown : List Entry) (listed : Result (List Entry)) (gprs : List String)
      (files files' : Files c h)
      → IsHealthy c h files
      → prune_after c h true listed gprs files ≡ (ok shown, files')
      → view c h files' ≡ erase_all (map (project_digest h) gprs) (view c h files)
  after_results shown (err e) gprs files files' healthy r = cc
  after_results shown (ok entries) gprs files files' healthy r =
      pruned entries shown _ (prune c h true gprs files) files' (prune-Leaves gprs files healthy) r

  -- A discovery that returns has deleted from a healthy registry the entry under a digest exactly when
  -- a candidate of the registry has the digest, its endpoint does not exist and its ping has no reply
  -- that is a success; and the other entries stand as they did.
  pub discover_instances-view :
      (reply : String → Reply) (exists : String → Bool) (include_dead : Bool) (paths : List String)
      (sessions : List Session) (files files' : Files c h) (shown : List Entry)
      → IsHealthy c h files
      → load_all c h true files ≡ ok sessions
      → discover_instances c h true reply exists include_dead paths files ≡ (ok shown, files')
      → (k : String)
      → Dict.lookup k (view c h files') ≡ (
          if any_entry (is_gone reply exists (project_digest h) k) (candidates sessions paths)
          then none
          else Dict.lookup k (view c h files))
  unfolding discover_instances
  discover_instances-view reply exists include_dead paths sessions files files' shown healthy loaded
        r k =
      ap (Dict.lookup k) (
        after_results shown (results reply exists include_dead (candidates sessions paths)) _ files
          files' healthy (rw loaded at r))
      ∙ lookup-erase_all reply exists include_dead (project_digest h) k (candidates sessions paths)
          (view c h files)

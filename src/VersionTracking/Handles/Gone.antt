-- ===== src/VersionTracking/Handles/Gone.antt =====
-- What is loaded when the session of two programs cannot be created.
use ghidra_rpc_win.Common.{
  String, str_eq, str_ne, eq_iff, ◌≡◌, ◌≢◌, refl, sym, ◌∙◌, Bool, true, false, ◌&&◌, Option, none,
  some, if◌then◌else◌,
}
use ghidra_rpc_win.Common.Exec.{ok}
use ghidra_rpc_win.Context.{ProgramInfo, get_program}
use ghidra_rpc_win.Context.Loading.{Project, Context}
use ghidra_rpc_win.VersionTracking.Handles.{Tracker, Pair, is_key}
use ghidra_rpc_win.VersionTracking.Handles.Actions.{}
use ghidra_rpc_win.VersionTracking.Handles.Standing.{loaded_at}
use ghidra_rpc_win.VersionTracking.Handles.Taken.{Taken}

module _ (g : Project) (t : Tracker g) where
  -- Both programs that the names resolve to were loaded, and nothing is loaded under their keys; the
  -- other keys have what they had.
  pub record BothGone (b1 b2 : String) (before after : Context g) : Type 0 where
    pub src : ProgramInfo (Project.P g)
    pub dst : ProgramInfo (Project.P g)
    pub src_key : String
    pub dst_key : String
    pub src_found : get_program b1 before.programs ≡ ok src
    pub dst_found : get_program b2 before.programs ≡ ok dst
    pub src_before : loaded_at g t src_key before ≡ some src
    pub dst_before : loaded_at g t dst_key before ≡ some dst
    pub src_after : loaded_at g t src_key after ≡ none
    pub dst_after : loaded_at g t dst_key after ≡ none
    pub others :
        (k : String) → src_key ≢ k → dst_key ≢ k → loaded_at g t k after ≡ loaded_at g t k before

  pub Taken-BothGone :
      (b1 b2 : String) (pair : Pair g t) (before after : Context g)
      → Taken g t b1 b2 pair before after
      → BothGone b1 b2 before after
  Taken-BothGone b1 b2 pair before after taken = record {
    src = taken.src;
    dst = taken.dst;
    src_key = taken.src_at.key_name;
    dst_key = taken.dst_at.key_name;
    src_found = taken.src_found;
    dst_found = taken.dst_found;
    src_before = taken.src_at.found taken.src_at.key_name taken.src_at.named;
    dst_before = taken.dst_at.found taken.dst_at.key_name taken.dst_at.named;
    src_after =
        taken.gone taken.src_at.key_name
        ∙ rw taken.src_at.named (nothing (is_key g t pair.dst_key taken.src_at.key_name));
    dst_after = taken.gone taken.dst_at.key_name ∙ rw taken.dst_at.named refl;
    others = λ k ne_src ne_dst.
        taken.gone k
        ∙ rw
            (
              other pair.dst_key taken.dst_at.key_name k taken.dst_at.named ne_dst,
              other pair.src_key taken.src_at.key_name k taken.src_at.named ne_src,
            )
            refl;
  }
    where
      nothing : {A : Type 0} (b : Bool) → ◌≡◌ {A = Option A} (if b then none else none) none
      nothing true = refl
      nothing false = refl

      both : (a b : Bool) → a && b ≡ true → a ≡ true
      both true b h = refl
      both false b h = cc

      other :
          (key : Option String) (j k : String)
          → is_key g t key j ≡ true
          → j ≢ k
          → is_key g t key k ≡ false
      other none j k h ne = cc
      other (some i) j k h ne =
          rw (str_ne i k (λ e. ne (sym ((eq_iff i j).0 (both (str_eq i j) _ h)) ∙ e))) refl

-- ===== src/Rpc/Reading.antt =====
-- However the network cuts a line into chunks, the reading loops see the line.
use mathlib.Core.List.{append_assoc, append-nil}
use ghidra_rpc_win.Common.{
  ℕ, ◌≡◌, refl, sym, ap, ◌∙◌, true, false, List, [], ◌∷◌, ◌++◌, map, arith, Bool-cases, inl, inr,
  All, is_empty,
}
use ghidra_rpc_win.Rpc.{Event, bytes, has_newline, got, read_line}

-- The chunks one after the other.
abbrev pub concat : List (List ℕ) → List ℕ
concat [] = []
concat (c ∷ cs) = c ++ concat cs

-- Chunks that `recv` can return from an open connection: none is empty.
abbrev pub AreChunks : List (List ℕ) → Type 0
AreChunks = All (λ c. is_empty c ≡ false)

nil_of_append : (p q : List ℕ) → p ++ q ≡ [] → q ≡ []
nil_of_append [] q e = e
nil_of_append (b ∷ p) q e = cc

-- A line has its newline at its end only: what follows a part with a newline is empty.
rest_empty :
    (p q text : List ℕ)
    → has_newline text ≡ false
    → p ++ q ≡ text ++ 10 ∷ []
    → has_newline p ≡ true
    → q ≡ []
unfolding has_newline
rest_empty [] q text clean e h = cc
rest_empty (b ∷ p) q [] clean e h = nil_of_append p q (cc)
rest_empty (b ∷ p) q (t ∷ text) clean e h = ground (arith, rest_empty p q text)

has_newline-snoc : (text : List ℕ) → has_newline (text ++ 10 ∷ []) ≡ true
unfolding has_newline
has_newline-snoc [] = refl
has_newline-snoc (t ∷ text) = ground (arith, has_newline-snoc text)

read_line-full :
    (text : List ℕ) (events : List Event)
    → has_newline text ≡ true
    → read_line text events ≡ got text
unfolding read_line
read_line-full text [] h = rw h
read_line-full text (bytes c ∷ events) h = rw h
read_line-full text (_ ∷ events) h = rw h

-- From a buffer with no newline, chunks that complete it to a line make the loop end with that line.
read_line-chunks_onto :
    (cs : List (List ℕ)) (buf text : List ℕ) (later : List Event)
    → AreChunks cs
    → has_newline text ≡ false
    → has_newline buf ≡ false
    → buf ++ concat cs ≡ text ++ 10 ∷ []
    → read_line buf (map bytes cs ++ later) ≡ got (text ++ 10 ∷ [])
unfolding read_line
read_line-chunks_onto [] buf text later a clean open_ e =
    cc (has_newline-snoc text, ap has_newline (sym (append-nil buf) ∙ e))
read_line-chunks_onto (c ∷ cs) buf text later a clean open_ e =
    elim (Bool-cases (has_newline (buf ++ c))) [
      | inl full ↦
          let none_left : concat cs ≡ [] =
            rest_empty (buf ++ c) (concat cs) text clean (append_assoc buf c (concat cs) ∙ e)
              full in
          rw (open_, a.0, read_line-full (buf ++ c) (map bytes cs ++ later) full)
            (ap got (
              sym (append-nil (buf ++ c))
              ∙ (ap (λ r. (buf ++ c) ++ r) (sym none_left) ∙ (append_assoc buf c (concat cs) ∙ e))))
      | inr open_still ↦
          rw (open_, a.0)
            (read_line-chunks_onto cs (buf ++ c) text later a.1 clean open_still
              (append_assoc buf c (concat cs) ∙ e))
    ]

-- A line that arrives in any chunks, whatever comes behind it, is read as that line.
pub read_line-chunks :
    (cs : List (List ℕ)) (text : List ℕ) (later : List Event)
    → AreChunks cs
    → has_newline text ≡ false
    → concat cs ≡ text ++ 10 ∷ []
    → read_line [] (map bytes cs ++ later) ≡ got (text ++ 10 ∷ [])
unfolding has_newline
read_line-chunks cs text later a clean e = read_line-chunks_onto cs [] text later a clean refl e

-- ===== src/DataTypes/Expressions.antt =====
-- The texts of types are read as they are meant.
use ghidra_rpc_win.Common.{
  ℕ, zero, suc, ◌+◌, ◌-◌, ◌*◌, ◌<◌, ◌≡◌, refl, sym, ◌∙◌, ap, Bool, true, false, not, ◌&&◌, Option,
  none, some, List, [], ◌∷◌, ◌++◌, leb, ◌==◌, if◌then◌else◌, is_empty, length, length-append,
  append_assoc, All, arith,
}
use ghidra_rpc_win.Common.Text.{is_space, lstrip, rstrip, strip}
use ghidra_rpc_win.Common.Text.Words.{rstrip-append}
use ghidra_rpc_win.Common.Exec.{Result, ok, and_then}
use ghidra_rpc_win.DataTypes.{
  TypeManager, without_star, count_digits, array_parts, resolve_name, resolve_text, resolve_steps,
  resolve_data_type,
}

-- A type as it is meant: a name, a pointer, an array with the digits of its length.
pub data TypeExpr : Type 0 where
  named : List ℕ → TypeExpr
  pointer_to : TypeExpr → TypeExpr
  array_of : TypeExpr → List ℕ → TypeExpr

abbrev pub print : TypeExpr → List ℕ
print (named name) = name
print (pointer_to e) = print e ++ 42 ∷ []
print (array_of e digits) = print e ++ (91 ∷ (digits ++ 93 ∷ []))

abbrev pub starts_solid : List ℕ → Bool
starts_solid [] = false
starts_solid (c ∷ t) = not (is_space c)

abbrev pub is_digit : ℕ → Bool
is_digit c = leb 48 c && leb c 57

abbrev pub digits_value : ℕ → List ℕ → ℕ
digits_value n [] = n
digits_value n (c ∷ t) = digits_value (10 * n + (c - 48)) t

-- A name has no space around it, and neither a star nor an array's brackets at its end.
pub record IsName (name : List ℕ) : Type 0 where
  pub starts : starts_solid name ≡ true
  pub ends : rstrip name ≡ name
  pub no_star : without_star name ≡ none
  pub no_array : array_parts name ≡ none

abbrev pub IsExpr : TypeExpr → Type 0
IsExpr (named name) = IsName name
IsExpr (pointer_to e) = IsExpr e
IsExpr (array_of e digits) =
    IsExpr e × (is_empty digits ≡ false) × All (λ c. is_digit c ≡ true) digits

starts_solid-append : (t u : List ℕ) → starts_solid t ≡ true → starts_solid (t ++ u) ≡ true
starts_solid-append [] u h = cc
starts_solid-append (c ∷ t) u h = h

lstrip-starts_solid : (t : List ℕ) → starts_solid t ≡ true → lstrip t ≡ t
unfolding lstrip
lstrip-starts_solid [] h = cc
lstrip-starts_solid (c ∷ t) h = ground arith

print-starts_solid : (e : TypeExpr) → IsExpr e → starts_solid (print e) ≡ true
print-starts_solid (named name) h = h.starts
print-starts_solid (pointer_to e) h = starts_solid-append (print e) _ (print-starts_solid e h)
print-starts_solid (array_of e digits) h =
    starts_solid-append (print e) _ (print-starts_solid e h.0)

rstrip-last : (t : List ℕ) (c : ℕ) → is_space c ≡ false → rstrip (t ++ c ∷ []) ≡ t ++ c ∷ []
unfolding rstrip
rstrip-last t c h = rstrip-append t (c ∷ []) refl (rw h refl)

rstrip-print : (e : TypeExpr) → IsExpr e → rstrip (print e) ≡ print e
unfolding rstrip is_space
rstrip-print (named name) h = h.ends
rstrip-print (pointer_to e) h = rstrip-last (print e) 42 refl
rstrip-print (array_of e digits) h =
    rstrip-append (print e) (91 ∷ (digits ++ 93 ∷ [])) refl (rstrip-last (91 ∷ digits) 93 refl)

strip-print : (e : TypeExpr) → IsExpr e → strip (print e) ≡ print e
strip-print e h = rw (lstrip-starts_solid (print e) (print-starts_solid e h)) (rstrip-print e h)

without_star-last :
    (t : List ℕ) (c : ℕ) → without_star (t ++ c ∷ []) ≡ (if c == 42 then some t else none)
unfolding without_star
without_star-last [] c = refl
without_star-last (d ∷ []) c = ground arith
without_star-last (d ∷ b ∷ t) c = ground (arith, without_star-last (b ∷ t) c)

is_empty-snoc : (t : List ℕ) (c : ℕ) (u : List ℕ) → is_empty (t ++ (c ∷ u)) ≡ false
is_empty-snoc [] c u = refl
is_empty-snoc (d ∷ t) c u = refl

-- A bracket inside leaves no number to the end.
count_digits-bracket :
    (n : ℕ) (seen : Bool) (t u : List ℕ) → count_digits n seen (t ++ (91 ∷ u)) ≡ none
unfolding count_digits
count_digits-bracket n seen [] u = refl
count_digits-bracket n seen (c ∷ t) u =
    rw (is_empty-snoc t 91 u, count_digits-bracket (10 * n + (c - 48)) true t u) (ground arith)

count_digits-value :
    (n : ℕ) (seen : Bool) (c : ℕ) (digits : List ℕ)
    → All (λ c. is_digit c ≡ true) (c ∷ digits)
    → count_digits n seen (c ∷ (digits ++ 93 ∷ [])) ≡ some (digits_value n (c ∷ digits))
unfolding count_digits
count_digits-value n seen c [] h = ground arith
count_digits-value n seen c (d ∷ digits) h =
    go (count_digits-value (10 * n + (c - 48)) true d digits h.1)
  where
    go :
        {r : Option ℕ}
        → count_digits (10 * n + (c - 48)) true (d ∷ (digits ++ 93 ∷ [])) ≡ r
        → count_digits n seen (c ∷ (d ∷ (digits ++ 93 ∷ []))) ≡ r
    go {r} e = rw e (ground arith)

array_parts-print :
    (t digits : List ℕ)
    → is_empty digits ≡ false
    → All (λ c. is_digit c ≡ true) digits
    → array_parts (t ++ (91 ∷ (digits ++ 93 ∷ []))) ≡ some (t, digits_value 0 digits)
unfolding array_parts
array_parts-print [] [] h k = cc
array_parts-print [] (c ∷ digits) h k = rw (count_digits-value 0 false c digits k) refl
array_parts-print (c ∷ t) digits h k =
    rw (count_digits-bracket 0 false t (digits ++ 93 ∷ []), array_parts-print t digits h k)
      (ground arith)

no_star_after : (t digits : List ℕ) → without_star (t ++ (91 ∷ (digits ++ 93 ∷ []))) ≡ none
no_star_after t digits =
    ap without_star (sym (append_assoc t (91 ∷ digits) (93 ∷ [])))
    ∙ without_star-last (t ++ (91 ∷ digits)) 93

starts_solid-full : (t : List ℕ) → starts_solid t ≡ true → is_empty t ≡ false
starts_solid-full [] h = cc
starts_solid-full (c ∷ t) h = refl

module _ (g : TypeManager) where
  -- The data type that is meant; a name that resolves to nothing is an error.
  abbrev pub build : TypeManager.P g → TypeExpr → TypeManager.W g → Result (TypeManager.D g)
  build program (named name) w = resolve_name g program name w
  build program (pointer_to e) w =
      and_then (λ d. ok (TypeManager.pointer_data_type g program d)) (build program e w)
  build program (array_of e digits) w =
      and_then (λ d. ok (TypeManager.array_data_type g d (digits_value 0 digits)))
        (build program e w)

  resolve_text-name :
      (program : TypeManager.P g) (recurse : List ℕ → Result (TypeManager.D g)) (name : List ℕ)
      (w : TypeManager.W g)
      → IsName name
      → resolve_text g program recurse name w ≡ resolve_name g program name w
  unfolding resolve_text
  resolve_text-name program recurse name w h = rw (h.no_star, h.no_array) refl

  resolve_text-pointer :
      (program : TypeManager.P g) (recurse : List ℕ → Result (TypeManager.D g)) (t : List ℕ)
      (w : TypeManager.W g)
      → resolve_text g program recurse (t ++ 42 ∷ []) w
        ≡ and_then (λ d. ok (TypeManager.pointer_data_type g program d)) (recurse t)
  unfolding resolve_text
  resolve_text-pointer program recurse t w = rw (without_star-last t 42) refl

  resolve_text-array :
      (program : TypeManager.P g) (recurse : List ℕ → Result (TypeManager.D g)) (t digits : List ℕ)
      (w : TypeManager.W g)
      → is_empty t ≡ false
      → is_empty digits ≡ false
      → All (λ c. is_digit c ≡ true) digits
      → resolve_text g program recurse (t ++ (91 ∷ (digits ++ 93 ∷ []))) w
        ≡ and_then (λ d. ok (TypeManager.array_data_type g d (digits_value 0 digits))) (recurse t)
  unfolding resolve_text
  resolve_text-array program recurse t digits w some_base some_digit h =
      rw (no_star_after t digits, array_parts-print t digits some_digit h, some_base) refl

  resolve_steps-print :
      (n : ℕ) (program : TypeManager.P g) (e : TypeExpr) (w : TypeManager.W g)
      → IsExpr e
      → length (print e) < n
      → resolve_steps g n program (print e) w ≡ build program e w
  unfolding resolve_steps
  resolve_steps-print zero program e w h k = absurd (omega arith)
  resolve_steps-print (suc n) program (named name) w h k =
      ap (λ t. resolve_text g program (λ base. resolve_steps g n program (strip base) w) t w)
        (strip-print (named name) h)
      ∙ resolve_text-name program _ name w h
  resolve_steps-print (suc n) program (pointer_to e) w h k =
      ap (λ t. resolve_text g program (λ base. resolve_steps g n program (strip base) w) t w)
        (strip-print (pointer_to e) h)
      ∙ (resolve_text-pointer program _ (print e) w
          ∙ ap (and_then (λ d. ok (TypeManager.pointer_data_type g program d))) (
              ap (λ t. resolve_steps g n program t w) (strip-print e h)
              ∙ resolve_steps-print n program e w h
                  (let longer = length-append (print e) (42 ∷ []) in omega arith)))
  resolve_steps-print (suc n) program (array_of e digits) w h k =
      ap (λ t. resolve_text g program (λ base. resolve_steps g n program (strip base) w) t w)
        (strip-print (array_of e digits) h)
      ∙ (resolve_text-array program _ (print e) digits w
            (starts_solid-full (print e) (print-starts_solid e h.0)) h.1 h.2
          ∙ ap (and_then (λ d. ok (TypeManager.array_data_type g d (digits_value 0 digits)))) (
              ap (λ t. resolve_steps g n program t w) (strip-print e h.0)
              ∙ resolve_steps-print n program e w h.0
                  (let longer = length-append (print e) (91 ∷ (digits ++ 93 ∷ [])) in omega arith)))

  -- The printed text of a type expression resolves to the data type that is meant, whatever its
  -- depth: the fuel is enough.
  pub resolve_data_type-print :
      (program : TypeManager.P g) (e : TypeExpr) (w : TypeManager.W g)
      → IsExpr e
      → resolve_data_type g program (print e) w ≡ build program e w
  unfolding resolve_data_type
  resolve_data_type-print program e w h =
      resolve_steps-print (length (print e) + 1) program e w h (omega arith)

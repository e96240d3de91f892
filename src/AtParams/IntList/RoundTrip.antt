-- ===== src/AtParams/IntList/RoundTrip.antt =====
-- Printed integer lists are read back.
use ucxclient.Prelude.{
  ℕ, zero, suc, ◌+◌, ◌-◌, ◌^◌, ◌/◌, ◌%◌, ◌≤◌, ◌≡◌, refl, ap, sym, ◌∙◌, true, false, some, List, [],
  ◌∷◌, ◌++◌, append_assoc, arith, Bytes, Option-cases, inl, inr, All, length, length-append, take,
  take-append, ◌==◌,
}
use ucxclient.Prelude.Int.{ℤ, pos, negsuc, ◌≤ℤ◌}
use ucxclient.Prelude.Decimal.{
  first, isdigit, decimal, show_ℕ, show_ℤ, first-show_ℕ, read_long-append,
}
use ucxclient.AtParams.IntList.{
  outside_int16, count_commas, int_list_loop, string_to_int_list, int_list_text, int_list_to_string,
}

-- The integers behind the first, each with the comma before it, and the bracket.
abbrev pub ints_tail : List ℤ → Bytes
ints_tail [] = b']' ∷ []
ints_tail (v ∷ values) = b',' ∷ show_ℤ v ++ ints_tail values

-- The text of an integer list.
abbrev pub ints_text : List ℤ → Bytes
ints_text [] = b'[' ∷ b']' ∷ []
ints_text (v ∷ values) = b'[' ∷ show_ℤ v ++ ints_tail values

-- The values that an `int16_t` has.
abbrev pub IsInt16 : ℤ → Type 0
IsInt16 v = (negsuc (2 ^ 15 - 1) ≤ℤ v) × (v ≤ℤ pos (2 ^ 15 - 1))

inside_int16 : (v : ℤ) → IsInt16 v → outside_int16 v ≡ false
inside_int16 v h = ground (arith, h)

tail_first : (values : List ℤ) → isdigit (first (ints_tail values)) ≡ false
tail_first [] = refl
tail_first (v ∷ values) = refl

loop-ints_tail :
    (v : ℤ) (values : List ℤ)
    → All IsInt16 (v ∷ values)
    → int_list_loop (suc (length values)) (show_ℤ v ++ ints_tail values)
      ≡ some (v ∷ values, b']' ∷ [])
unfolding int_list_loop
loop-ints_tail v [] (hv, h) = ground (arith, read_long-append v (b']' ∷ []) refl, inside_int16 v hv)
loop-ints_tail v (w ∷ values) (hv, h) = ground (
  arith,
  read_long-append v (ints_tail (w ∷ values)) refl,
  inside_int16 v hv,
  loop-ints_tail w values h,
)

count_commas-append : (s t : Bytes) → count_commas (s ++ t) ≡ count_commas s + count_commas t
unfolding count_commas
count_commas-append [] t = omega arith
count_commas-append (c ∷ s) t = ground (arith, count_commas-append s t)

count_commas-decimal :
    (fuel n : ℕ) (acc : Bytes) → n ≤ fuel → count_commas (decimal fuel n acc) ≡ count_commas acc
unfolding count_commas decimal
count_commas-decimal zero n acc h = ground arith
count_commas-decimal (suc fuel) n acc h =
    ground (arith, count_commas-decimal fuel (n / 10) ((b'0' + n % 10) ∷ acc))

count_commas-show_ℤ : (v : ℤ) → count_commas (show_ℤ v) ≡ 0
unfolding show_ℤ show_ℕ count_commas
count_commas-show_ℤ (pos n) = count_commas-decimal n n [] (omega arith)
count_commas-show_ℤ (negsuc n) = count_commas-decimal (suc n) (suc n) [] (omega arith)

-- All but the bracket at the end.
abbrev pub ints_body : List ℤ → Bytes
ints_body [] = []
ints_body (v ∷ values) = b',' ∷ show_ℤ v ++ ints_body values

count_commas-ints_body : (values : List ℤ) → count_commas (ints_body values) ≡ length values
unfolding count_commas
count_commas-ints_body [] = refl
count_commas-ints_body (v ∷ values) = omega (
  arith,
  count_commas-append (show_ℤ v) (ints_body values),
  count_commas-show_ℤ v,
  count_commas-ints_body values,
)

pub tail-body : (values : List ℤ) → ints_tail values ≡ ints_body values ++ b']' ∷ []
tail-body [] = refl
tail-body (v ∷ values) =
    rw (tail-body values)
      (ap (λ t. b',' ∷ t) (sym (append_assoc (show_ℤ v) (ints_body values) (b']' ∷ []))))

first_digit : (s : Bytes) → isdigit (first s) ≡ true → ((first s == b']') ≡ false) × (1 ≤ length s)
first_digit [] h = (ground (arith, h), ground (arith, h))
first_digit (c ∷ s) h = (ground (arith, h), omega arith)

show_ℤ-first :
    (v : ℤ) (rest : Bytes)
    → ((first (show_ℤ v ++ rest) == b']') ≡ false) × (1 ≤ length (show_ℤ v ++ rest))
unfolding show_ℤ
show_ℤ-first (pos n) rest = first_digit (show_ℕ n ++ rest) (first-show_ℕ n rest)
show_ℤ-first (negsuc n) rest = (refl, omega arith)

-- A text of a list of 16-bit integers, with brackets around them and commas between them, is read back
-- by `uCxStringToIntList`.
pub string_to_int_list-ints_text :
    (values : List ℤ) → All IsInt16 values → string_to_int_list (ints_text values) ≡ some values
unfolding string_to_int_list
string_to_int_list-ints_text [] h = refl
string_to_int_list-ints_text (v ∷ values) h =
    let text = show_ℤ v ++ ints_tail values in
    let body = show_ℤ v ++ ints_body values in
    let split : text ≡ body ++ b']' ∷ [] =
      ap (λ t. show_ℤ v ++ t) (tail-body values)
      ∙ sym (append_assoc (show_ℤ v) (ints_body values) (b']' ∷ [])) in
    let size : length text ≡ length body + 1 = ap length split ∙ length-append body (b']' ∷ []) in
    let front : take (length (b'[' ∷ text) - 2) text ≡ body = rw split (
      ap (λ n. take n (body ++ b']' ∷ [])) (omega (arith, length-append body (b']' ∷ [])))
      ∙ take-append body (b']' ∷ [])) in
    let (no_bracket, some_text) = show_ℤ-first v (ints_body values) in
    let (no_bracket', more) = show_ℤ-first v (ints_tail values) in
    let commas : count_commas body ≡ length values = omega (
      arith,
      count_commas-append (show_ℤ v) (ints_body values),
      count_commas-show_ℤ v,
      count_commas-ints_body values,
    ) in
    let reads = loop-ints_tail v values h in
    ground (arith, front, no_bracket', size, some_text, commas, reads)

tail_prints :
    (values : List ℤ) (place size : ℕ) {text : Bytes}
    → int_list_text values place size ≡ some text
    → text ≡ ints_tail values
unfolding int_list_text
tail_prints [] place size e = ground (arith, e)
tail_prints (v ∷ values) place size {text} e =
    elim (Option-cases (int_list_text values (place + 1 + length (show_ℤ v)) size)) [
      | inl none_left ↦ ground (arith, e, none_left)
      | inr (tail, more) ↦ ground (arith, e, more, tail_prints values _ size more)
    ]

-- What `uCxIntListToString` prints is that text.
pub int_list_to_string-prints :
    (values : List ℤ) (size : ℕ) {text : Bytes}
    → int_list_to_string values size ≡ some text
    → text ≡ ints_text values
unfolding int_list_to_string
int_list_to_string-prints [] size e = ground (arith, e)
int_list_to_string-prints (v ∷ values) size {text} e =
    elim (Option-cases (int_list_text values (1 + length (show_ℤ v)) size)) [
      | inl none_left ↦ ground (arith, e, none_left)
      | inr (tail, more) ↦ ground (arith, e, more, tail_prints values _ size more)
    ]

-- Every list of 16-bit integers that `uCxIntListToString` prints is read back by `uCxStringToIntList`.
pub string_to_int_list-int_list_to_string :
    (values : List ℤ) (size : ℕ) {text : Bytes}
    → All IsInt16 values
    → int_list_to_string values size ≡ some text
    → string_to_int_list text ≡ some values
string_to_int_list-int_list_to_string values size h e =
    rw (int_list_to_string-prints values size e) (string_to_int_list-ints_text values h)

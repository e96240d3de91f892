-- ===== src/ParamParser/Types.antt =====
-- The arguments that the parameter parser stores have the types of the format, and are in range.
use ucxclient.Prelude.{
  ℕ, zero, suc, ◌+◌, ◌-◌, ◌^◌, ◌≤◌, ◌<◌, ◌≡◌, ◌⊎◌, inl, inr, refl, sym, subst, append-nil,
  Option_split, ◌∙◌, Bool, true, false, ◌||◌, Option, none, some, List, [], ◌∷◌, ◌++◌, arith, Bytes,
  All, IsByte, length, take, drop, leb, ltb, not, ◌&&◌, ◌==◌, if_both, if_split, OnSome, on_none,
  on_some, OnSome-elim, OnSome_at, ==_iff,
}
use ucxclient.Prelude.Int.{ℤ, pos, negsuc, ◌≤ℤ◌}
use ucxclient.AtUtil.ParamEnd.{find_param_end}
use ucxclient.AtUtil.Hex.{hex_to_byte, hex_to_binary}
use ucxclient.AtUtil.Hex.Digits.{hex_to_byte-lt}
use ucxclient.AtUtil.Hex.Decode.{hex_to_binary-Decodes}
use ucxclient.Prelude.Decimal.{first, read_long}
use ucxclient.AtParams.Addresses.{
  BtLeAddress, find_bd_address_type, string_to_bd_address, string_to_mac_address,
}
use ucxclient.AtParams.Ip.{IpAddress, string_to_ip_address}
use ucxclient.AtParams.IntList.{count_commas, int_list_loop, string_to_int_list, outside_int16}
use ucxclient.AtParams.IntList.RoundTrip.{IsInt16}
use ucxclient.ParamParser.{
  Arg, store_first, digit_arg, string_arg, binary_string_arg, ip_arg, mac_arg, bd_arg, int_list_arg,
  byte_array_arg, parse_string, parse_binary_string, clamp_long, parse_digit, hex_pairs,
  parse_byte_array, stored, parse_param, Parsed, parsed, failed, parse_loop, parse_params,
}

-- The format character that an argument is stored for.
abbrev pub arg_char : Arg → ℕ
arg_char (digit_arg v) = b'd'
arg_char (string_arg s) = b's'
arg_char (binary_string_arg s) = b'$'
arg_char (ip_arg a) = b'i'
arg_char (mac_arg a) = b'm'
arg_char (bd_arg a) = b'b'
arg_char (int_list_arg l) = b'l'
arg_char (byte_array_arg s) = b'h'

abbrev pub takes_arg : ℕ → Bool
takes_arg ch =
    ch == b'd'
    || (ch == b's'
        || (ch == b'$'
            || (ch == b'i' || (ch == b'm' || (ch == b'b' || (ch == b'l' || ch == b'h'))))))

-- The values that the C type of an argument has.
abbrev pub InRange : Arg → Type 0
InRange (digit_arg v) = (negsuc (2 ^ 31 - 1) ≤ℤ v) × (v ≤ℤ pos (2 ^ 31 - 1))
InRange (string_arg s) = Unit
InRange (binary_string_arg s) = Unit
InRange (ip_arg a) = Unit
InRange (mac_arg mac) = (length mac ≡ 6) × All IsByte mac
InRange (bd_arg a) = (length a.address ≡ 6) × All IsByte a.address
InRange (int_list_arg l) = All IsInt16 l
InRange (byte_array_arg s) = All IsByte s

-- One argument for each character of the format that takes one, in order and of its type.
pub data HasFormat : Bytes → List Arg → Type 0 where
  nothing : HasFormat [] []
  skips :
      {ch : ℕ} {fmt : Bytes} {args : List Arg}
      → takes_arg ch ≡ false
      → HasFormat fmt args
      → HasFormat (ch ∷ fmt) args
  takes :
      {ch : ℕ} {fmt : Bytes} (a : Arg) {args : List Arg}
      → arg_char a ≡ ch
      → HasFormat fmt args
      → HasFormat (ch ∷ fmt) (a ∷ args)

-- What one round stores.
abbrev Stores : ℕ → List Arg → Type 0
Stores ch args =
    ((takes_arg ch ≡ false) × (args ≡ []))
    ⊎ ((a : Arg) × (arg_char a ≡ ch) × InRange a × (args ≡ a ∷ []))

abbrev StoresOf : ℕ → Option (List Arg) → Type 0
StoresOf ch o = (args : List Arg) → o ≡ some args → Stores ch args

clamp_long-InRange : (v : ℤ) → InRange (digit_arg (clamp_long v))
unfolding clamp_long
clamp_long-InRange v = ground arith

parse_digit-InRange : (s : Bytes) → OnSome (λ v. InRange (digit_arg v)) (parse_digit s)
unfolding parse_digit
parse_digit-InRange s =
    OnSome-elim (λ v. InRange (digit_arg v)) (read_long s)
      (λ r e.
        if_both (OnSome (λ v. InRange (digit_arg v))) _ on_none
          (on_some (clamp_long r.0) (clamp_long-InRange r.0)))

hex_pairs_in_range : (s : Bytes) → OnSome (All IsByte) (hex_pairs s)
unfolding hex_pairs
hex_pairs_in_range [] = on_some [] tt
hex_pairs_in_range (c ∷ []) = on_some [] tt
hex_pairs_in_range (c ∷ d ∷ s) = OnSome-elim (All IsByte) (hex_to_byte c d) (λ b e.
    OnSome-elim (All IsByte) (hex_pairs s) (λ bytes e'.
      on_some (b ∷ bytes)
        (hex_to_byte-lt c d e, OnSome_at (All IsByte) bytes e' (hex_pairs_in_range s))))

parse_byte_array-InRange :
    (s : Bytes) → OnSome (λ bytes. InRange (byte_array_arg bytes)) (parse_byte_array s)
unfolding parse_byte_array
parse_byte_array-InRange s = if_both (OnSome (All IsByte)) _ on_none (hex_pairs_in_range s)

abbrev SixBytes : Bytes → Type 0
SixBytes s = (length s ≡ 6) × All IsByte s

six_bytes : (s : Bytes) → (length (hex_to_binary s 6) == 6) ≡ true → SixBytes (hex_to_binary s 6)
six_bytes s e = let (rest, d, bytes, n, r) = hex_to_binary-Decodes s 6 in ((==_iff _ _).0 e, bytes)

mac_in_range : (s : Bytes) → OnSome SixBytes (string_to_mac_address s)
unfolding string_to_mac_address
mac_in_range s =
    if_both (OnSome SixBytes) _
      (if_split (OnSome SixBytes) _ (λ e. on_some _ (six_bytes s e)) (λ e. on_none)) on_none

abbrev SixBytesAddress : BtLeAddress → Type 0
SixBytesAddress a = SixBytes a.address

bd_in_range : (before : ℕ) (s : Bytes) → OnSome SixBytesAddress (string_to_bd_address before s)
unfolding string_to_bd_address
bd_in_range before s =
    OnSome-elim SixBytesAddress (find_bd_address_type before s) (λ t e.
      if_split (OnSome SixBytesAddress) _ (λ e'. on_some _ (six_bytes s e')) (λ e'. on_none))

abbrev Ints16 : List ℤ × Bytes → Type 0
Ints16 r = All IsInt16 r.0

outside_int16_in_range : (v : ℤ) → outside_int16 v ≡ false → IsInt16 v
outside_int16_in_range v h = ground (arith, h)

int_list_loop_in_range : (rounds : ℕ) (s : Bytes) → OnSome Ints16 (int_list_loop rounds s)
unfolding int_list_loop
int_list_loop_in_range zero s = on_some ([], s) tt
int_list_loop_in_range (suc rounds) s = OnSome-elim Ints16 (read_long s) (λ r e.
    if_split (OnSome Ints16) _ (λ o. on_none)
      (λ o. if_both (OnSome Ints16) _ on_none (
        OnSome-elim Ints16 _ (λ r' e'.
          on_some (r.0 ∷ r'.0, r'.1)
            (
              outside_int16_in_range r.0 o,
              OnSome_at Ints16 r' e' (int_list_loop_in_range rounds _),
            )))))

int_list_in_range : (s : Bytes) → OnSome (All IsInt16) (string_to_int_list s)
unfolding string_to_int_list
int_list_in_range s =
    let start = take (length s - 2) (drop 1 s) in
    if_both (OnSome (All IsInt16))
      (leb 2 (length s) && (first s == b'[' && first (drop 1 s) == b']')) (on_some [] tt)
      (if_both (OnSome (All IsInt16)) (ltb (length s) 3 || not (first s == b'[')) on_none (
        OnSome-elim (All IsInt16) (int_list_loop (suc (count_commas start)) (drop 1 s)) (λ r e.
          if_both (OnSome (All IsInt16)) (first r.1 == b']')
            (on_some r.0 (OnSome_at Ints16 r e (int_list_loop_in_range _ (drop 1 s)))) on_none)))

one_argument :
    {A : Type 0} (f : A → Arg) (o : Option A) (ch c : ℕ)
    → (ch == c) ≡ true
    → ((a : A) → arg_char (f a) ≡ c)
    → OnSome (λ a. InRange (f a)) o
    → OnSome (Stores ch) (stored f o)
one_argument f none ch c e at h = on_none
one_argument f (some a) ch c e at h =
    on_some _
      (inr (f a, at a ∙ sym ((==_iff ch c).0 e), OnSome_at (λ a. InRange (f a)) a refl h, refl))

ip-InRange : (o : Option IpAddress) → OnSome (λ a. InRange (ip_arg a)) o
ip-InRange none = on_none
ip-InRange (some a) = on_some a tt

-- One round stores nothing, or one argument of the type of its format character.
pub parse_param-Stores : (ch before : ℕ) (s : Bytes) → OnSome (Stores ch) (parse_param ch before s)
unfolding parse_param
parse_param-Stores ch before s =
    if_split (OnSome (Stores ch)) (ch == b'-') (λ e. on_some [] (inl (ground (arith, e), refl)))
      (λ e0.
        if_split (OnSome (Stores ch)) (ch == b'd')
          (λ e.
            one_argument digit_arg (parse_digit s) ch b'd' e (λ a. refl) (parse_digit-InRange s))
          (λ e1.
            if_split (OnSome (Stores ch)) (ch == b's')
              (λ e.
                one_argument string_arg (some (parse_string s)) ch b's' e (λ a. refl)
                  (on_some _ tt))
              (λ e2.
                if_split (OnSome (Stores ch)) (ch == b'$')
                  (λ e.
                    one_argument binary_string_arg (some (parse_binary_string s)) ch b'$' e
                      (λ a. refl) (on_some _ tt))
                  (λ e3.
                    if_split (OnSome (Stores ch)) (ch == b'i')
                      (λ e.
                        one_argument ip_arg (string_to_ip_address s) ch b'i' e (λ a. refl)
                          (ip-InRange _))
                      (λ e4.
                        if_split (OnSome (Stores ch)) (ch == b'm')
                          (λ e.
                            one_argument mac_arg (string_to_mac_address s) ch b'm' e (λ a. refl)
                              (mac_in_range s))
                          (λ e5.
                            if_split (OnSome (Stores ch)) (ch == b'b')
                              (λ e.
                                one_argument bd_arg (string_to_bd_address before s) ch b'b' e
                                  (λ a. refl) (bd_in_range before s))
                              (λ e6.
                                if_split (OnSome (Stores ch)) (ch == b'l')
                                  (λ e.
                                    one_argument int_list_arg (string_to_int_list s) ch b'l' e
                                      (λ a. refl) (int_list_in_range s))
                                  (λ e7.
                                    if_split (OnSome (Stores ch)) (ch == b'h')
                                      (λ e.
                                        one_argument byte_array_arg (parse_byte_array s) ch b'h' e
                                          (λ a. refl) (parse_byte_array-InRange s))
                                      (λ e8. on_some [] (
                                        inl (
                                          ground (arith, e1, e2, e3, e4, e5, e6, e7, e8),
                                          refl,
                                        )))))))))))

-- What the parser has stored for the first `k` characters of a format.
pub data Typed (fmt : Bytes) (ret : ℕ) : Parsed → Type 0 where
  typed :
      (k : ℕ) (args : List Arg)
      → k ≤ length fmt
      → HasFormat (take k fmt) args
      → All InRange args
      → Typed fmt ret (parsed (ret + k) args)
  refused : (k : ℕ) → k < length fmt → Typed fmt ret (failed (ret + k + 1))

round_args :
    (ch : ℕ) (fmt : Bytes) (args more : List Arg)
    → Stores ch args
    → HasFormat fmt more
    → All InRange more
    → HasFormat (ch ∷ fmt) (args ++ more) × All InRange (args ++ more)
round_args ch fmt args more (inl (t, e)) hf ir = rw e (skips t hf, ir)
round_args ch fmt args more (inr (a, at, ra, e)) hf ir = rw e (takes a at hf, (ra, ir))

add_round :
    (ch : ℕ) (fmt : Bytes) (ret : ℕ) (args : List Arg) {r : Parsed}
    → Stores ch args
    → Typed fmt (ret + 1) r
    → Typed (ch ∷ fmt) ret (store_first args r)
add_round ch fmt ret args st (typed k more le hf ir) =
    let (hf', ir') = round_args ch (take k fmt) args more st hf ir in
    subst (λ n. Typed (ch ∷ fmt) ret (parsed n (args ++ more))) (omega arith)
      (typed (suc k) (args ++ more) (omega arith) hf' ir')
add_round ch fmt ret args st (refused k lt) =
    subst (λ n. Typed (ch ∷ fmt) ret (failed n)) (omega arith) (refused (suc k) (omega arith))

fails_here : (ch : ℕ) (fmt : Bytes) (ret : ℕ) → Typed (ch ∷ fmt) ret (failed (ret + 1))
fails_here ch fmt ret =
    subst (λ n. Typed (ch ∷ fmt) ret (failed n)) (omega arith) (refused 0 (omega arith))

ends_here :
    (ch : ℕ) (fmt : Bytes) (ret : ℕ) (args : List Arg)
    → Stores ch args
    → Typed (ch ∷ fmt) ret (parsed (ret + 1) args)
ends_here ch fmt ret args st =
    let (hf, ir) = round_args ch [] args [] st nothing tt in
    subst (λ l. Typed (ch ∷ fmt) ret (parsed (ret + 1) l)) (append-nil args)
      (typed 1 (args ++ []) (omega arith) hf ir)

parse_loop-Typed :
    (fmt : Bytes) (before : ℕ) (s : Bytes) (ret : ℕ) → Typed fmt ret (parse_loop fmt before s ret)
unfolding parse_loop
parse_loop-Typed [] before s ret =
    subst (λ n. Typed [] ret (parsed n [])) (omega arith) (typed 0 [] (omega arith) nothing tt)
parse_loop-Typed (ch ∷ fmt) before s ret =
    Option_split (Typed (ch ∷ fmt) ret) (find_param_end s) (λ e. fails_here ch fmt ret)
      (λ n e.
        Option_split (Typed (ch ∷ fmt) ret) (parse_param ch before (take n s))
          (λ e'. fails_here ch fmt ret)
          (λ args e'.
            let st = OnSome_at (Stores ch) args e' (parse_param-Stores ch before (take n s)) in
            if_both (Typed (ch ∷ fmt) ret) _ (ends_here ch fmt ret args st)
              (add_round ch fmt ret args st (parse_loop-Typed fmt 0 (drop (n + 1) s) (ret + 1)))))

-- Whatever the parameters, the parser's result is the number `k` of the format characters that it has
-- gone over, at most all of them, and what it has stored is then one argument for each of these that
-- takes one, in order, of the type that the character stands for and in that type's range; or it is
-- minus the position of one of the format's characters.
pub parse_params-Typed :
    (fmt : Bytes) (before : ℕ) (s : Bytes) → Typed fmt 0 (parse_params fmt before s)
unfolding parse_params
parse_params-Typed fmt before s = parse_loop-Typed fmt before s 0

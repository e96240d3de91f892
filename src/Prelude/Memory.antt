-- ===== src/Prelude/Memory.antt =====
-- Memory as a byte string: stores, loads and their effect on the parts of a buffer.
use Prim.Native.Nat.{ℕ, zero, suc, ◌+◌, ◌*◌, ◌/◌, ◌%◌, ◌<◌}
use mathlib.Core.Path.{◌≡◌, refl, ap, sym, ◌∙◌}
use mathlib.Core.List.{[], ◌∷◌, ◌++◌}
use native.Mathlib.Omega.{arith}
use native.Mathlib.Nat.{zero-add, suc-add}
use ucxclient.Prelude.Lists.{length, take, drop, get_or}
use ucxclient.Prelude.ByteStrings.{Bytes}

-- `memcpy` to the place `pos` of a buffer. Bytes past its end are not stored.
abbrev pub write_at : Bytes → ℕ → Bytes → Bytes
write_at [] pos bytes = []
write_at (x ∷ xs) (suc pos) bytes = x ∷ write_at xs pos bytes
write_at (x ∷ xs) zero [] = x ∷ xs
write_at (x ∷ xs) zero (b ∷ bytes) = b ∷ write_at xs zero bytes

-- `n` bytes from the place `pos` on.
abbrev pub read_at : Bytes → ℕ → ℕ → Bytes
read_at buf pos n = take n (drop pos buf)

-- A `uint16_t` in memory, low byte first.
abbrev pub store16 : ℕ → Bytes
store16 v = v % 256 ∷ v / 256 % 256 ∷ []

abbrev pub load16 : Bytes → ℕ → ℕ
load16 buf pos = get_or (drop pos buf) 0 0 + 256 * get_or (drop pos buf) 1 0

pub length-write_at :
    (xs : Bytes) (pos : ℕ) (bytes : Bytes) → length (write_at xs pos bytes) ≡ length xs
length-write_at [] pos bytes = refl
length-write_at (x ∷ xs) (suc pos) bytes = ap suc (length-write_at xs pos bytes)
length-write_at (x ∷ xs) zero [] = refl
length-write_at (x ∷ xs) zero (b ∷ bytes) = ap suc (length-write_at xs zero bytes)

write_at-start :
    (old ys new : Bytes) → length old ≡ length new → write_at (old ++ ys) 0 new ≡ new ++ ys
write_at-start [] [] [] e = refl
write_at-start [] (y ∷ ys) [] e = refl
write_at-start [] ys (b ∷ new) e = absurd (omega arith)
write_at-start (x ∷ old) ys [] e = absurd (omega arith)
write_at-start (x ∷ old) ys (b ∷ new) e = ap (λ t. b ∷ t) (write_at-start old ys new (omega arith))

-- A store of the size of what it replaces changes that and nothing else.
write_at-middle :
    (xs old ys new : Bytes)
    → length old ≡ length new
    → write_at (xs ++ (old ++ ys)) (length xs) new ≡ xs ++ (new ++ ys)
write_at-middle [] old ys new e = write_at-start old ys new e
write_at-middle (x ∷ xs) old ys new e = ap (λ t. x ∷ t) (write_at-middle xs old ys new e)

pub write_at_lem :
    (buf : Bytes) (i : ℕ) (xs old ys new : Bytes)
    → buf ≡ xs ++ (old ++ ys)
    → i ≡ length xs
    → length old ≡ length new
    → write_at buf i new ≡ xs ++ (new ++ ys)
write_at_lem buf i xs old ys new p q e = rw (p, q) (write_at-middle xs old ys new e)

pub drop-append : (xs ys : Bytes) → drop (length xs) (xs ++ ys) ≡ ys
drop-append [] ys = refl
drop-append (x ∷ xs) ys = drop-append xs ys

pub take-append : (xs ys : Bytes) → take (length xs) (xs ++ ys) ≡ xs
take-append [] ys = refl
take-append (x ∷ xs) ys = ap (λ t. x ∷ t) (take-append xs ys)

pub read_at_lem :
    (buf : Bytes) (i n : ℕ) (xs mid ys : Bytes)
    → buf ≡ xs ++ (mid ++ ys)
    → i ≡ length xs
    → n ≡ length mid
    → read_at buf i n ≡ mid
read_at_lem buf i n xs mid ys p q e = rw (p, q, e, drop-append) (take-append mid ys)

-- A stored `uint16_t` is loaded back.
pub load16_lem :
    (buf : Bytes) (i v : ℕ) (xs ys : Bytes)
    → buf ≡ xs ++ (store16 v ++ ys)
    → i ≡ length xs
    → v < 65536
    → load16 buf i ≡ v
load16_lem buf i v xs ys p q h = rw (p, q, drop-append) (omega arith)

drop-nil : (n : ℕ) → drop {A = ℕ} n [] ≡ []
drop-nil zero = refl
drop-nil (suc n) = refl

pub drop-drop : (m n : ℕ) (xs : Bytes) → drop n (drop m xs) ≡ drop (m + n) xs
drop-drop zero n xs = ap (λ k. drop k xs) (sym (zero-add n))
drop-drop (suc m) n [] = drop-nil n ∙ sym (drop-nil (suc m + n))
drop-drop (suc m) n (x ∷ xs) = drop-drop m n xs ∙ ap (λ k. drop k (x ∷ xs)) (sym (suc-add m n))

pub write_at-nil : (xs : Bytes) → write_at xs 0 [] ≡ xs
write_at-nil [] = refl
write_at-nil (x ∷ xs) = refl

pub eq_nil : (xs : Bytes) → length xs ≡ 0 → xs ≡ []
eq_nil [] e = refl
eq_nil (x ∷ xs) e = absurd (omega arith)

-- A store behind a front part leaves that part alone.
pub write_at-append :
    (xs ys : Bytes) (k : ℕ) (bytes : Bytes)
    → write_at (xs ++ ys) (length xs + k) bytes ≡ xs ++ write_at ys k bytes
write_at-append [] ys k bytes = ap (λ i. write_at ys i bytes) (zero-add k)
write_at-append (x ∷ xs) ys k bytes =
    ap (λ i. write_at (x ∷ (xs ++ ys)) i bytes) (suc-add (length xs) k)
    ∙ ap (λ t. x ∷ t) (write_at-append xs ys k bytes)

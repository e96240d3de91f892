-- ===== src/Xmodem/Packet.antt =====
-- What a receiver makes of a packet.
use ucxclient.Prelude.{
  ℕ, zero, suc, ◌+◌, ◌-◌, ◌/◌, ◌%◌, ◌<◌, ◌≤◌, ◌≡◌, refl, ap, sym, ◌∙◌, true, ◌&&◌, Option, none,
  some, [], ◌∷◌, ◌++◌, arith, Bytes, length, length-append, take, replicate, get_or, ◌==◌,
  if◌then◌else◌, write_at_lem, take-append, length-replicate, length-write_at, if_true, ==_iff,
}
use ucxclient.Xmodem.{packet, fill, xmodem_crc16}

-- The XMODEM receiver for blocks of one size: it takes a packet whose type is that of the size, whose
-- number and complement agree, which is as long as it should be and whose CRC is that of its data.
unfoldable pub receive : ℕ → Bytes → Option (ℕ × Bytes)
receive block_size (kind ∷ block_num ∷ complement ∷ body) =
    let bytes = take block_size body in
    let crc = xmodem_crc16 bytes in
    if kind == (if block_size == 1024 then 2 else 1)
      && (block_num + complement == 255
          && (length body == block_size + 2
              && (get_or body block_size 0 == crc / 256 % 256
                  && get_or body (suc block_size) 0 == crc % 256)))
    then some (block_num, bytes)
    else none
receive block_size bytes = none

get_or-first : (s rest : Bytes) (x : ℕ) → get_or (s ++ x ∷ rest) (length s) 0 ≡ x
get_or-first [] rest x = refl
get_or-first (c ∷ s) rest x = get_or-first s rest x

get_or-second : (s rest : Bytes) (x y : ℕ) → get_or (s ++ x ∷ y ∷ rest) (suc (length s)) 0 ≡ y
get_or-second [] rest x y = refl
get_or-second (c ∷ s) rest x y = get_or-second s rest x y

replicate-add : (n m x : ℕ) → replicate (n + m) x ≡ replicate n x ++ replicate m x
replicate-add zero m x = let e : zero + m ≡ m = omega arith in ap (λ k. replicate k x) e
replicate-add (suc n) m x =
    let e : suc n + m ≡ suc (n + m) = omega arith in
    ap (λ k. replicate k x) e ∙ ap (λ t. x ∷ t) (replicate-add n m x)

-- The data of a block, filled up.
fill_lem :
    (bytes : Bytes) (size : ℕ)
    → length bytes ≤ size
    → fill bytes size ≡ bytes ++ replicate (size - length bytes) 0x1A
fill_lem bytes size fits =
    write_at_lem (replicate size 0x1A) 0 [] (replicate (length bytes) 0x1A)
      (replicate (size - length bytes) 0x1A) bytes
      (ap (λ k. replicate k 0x1A) (omega (arith, fits))
        ∙ replicate-add (length bytes) (size - length bytes) 0x1A)
      refl (length-replicate (length bytes) 0x1A)

length-fill : (bytes : Bytes) (size : ℕ) → length (fill bytes size) ≡ size
length-fill bytes size = length-write_at (replicate size 0x1A) 0 bytes ∙ length-replicate size 0x1A

passes :
    (kind num comp size l : ℕ) (x y x' y' : ℕ)
    → kind ≡ (if size == 1024 then 2 else 1)
    → num + comp ≡ 255
    → l ≡ size + 2
    → x ≡ x'
    → y ≡ y'
    → (kind == (if size == 1024 then 2 else 1)
        && (num + comp == 255 && (l == size + 2 && (x == x' && y == y'))))
      ≡ true
passes kind num comp size l x y x' y' hk hn hl hx hy =
    rw
      (
        (==_iff _ _).1 hk,
        (==_iff _ _).1 hn,
        (==_iff _ _).1 hl,
        (==_iff _ _).1 hx,
        (==_iff _ _).1 hy,
      )
      refl

pub receive-packet :
    (block_num : ℕ) (bytes : Bytes) (block_size : ℕ)
    → block_num < 256
    → length bytes ≤ block_size
    → receive block_size (packet block_num bytes block_size)
      ≡ some (block_num, bytes ++ replicate (block_size - length bytes) 0x1A)
unfolding receive packet
receive-packet block_num bytes size small fits =
    let data_part = fill bytes size in
    let crc = xmodem_crc16 data_part in
    let ends = crc / 256 % 256 ∷ crc % 256 ∷ [] in
    let l : length data_part ≡ size = length-fill bytes size in
    let taken : take size (data_part ++ ends) ≡ data_part =
      ap (λ k. take k (data_part ++ ends)) (sym l) ∙ take-append data_part ends in
    let first : get_or (data_part ++ ends) size 0 ≡ crc / 256 % 256 =
      ap (λ k. get_or (data_part ++ ends) k 0) (sym l)
      ∙ get_or-first data_part (crc % 256 ∷ []) (crc / 256 % 256) in
    let second : get_or (data_part ++ ends) (suc size) 0 ≡ crc % 256 =
      ap (λ k. get_or (data_part ++ ends) (suc k) 0) (sym l)
      ∙ get_or-second data_part [] (crc / 256 % 256) (crc % 256) in
    let test =
      passes (if size == 1024 then 2 else 1) block_num (255 - block_num) size
        (length (data_part ++ ends)) (get_or (data_part ++ ends) size 0)
        (get_or (data_part ++ ends) (suc size) 0) (crc / 256 % 256) (crc % 256) refl
        (omega (arith, small)) (omega (arith, length-append data_part ends, l)) first second in
    rw taken (
      if_true (λ r. r ≡ some (block_num, bytes ++ replicate (size - length bytes) 0x1A)) none test
        (ap (λ s. some (block_num, s)) (fill_lem bytes size fits)))

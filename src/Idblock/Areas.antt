-- ===== src/Idblock/Areas.antt =====
-- Areas of whole sectors under the cipher.
use rkusb.Prelude.{
  ℕ, zero, suc, ◌+◌, ◌-◌, ◌*◌, ◌%◌, ◌≤◌, ◌<◌, ◌≡◌, ◌∙◌, refl, sym, ap, List, [], ◌∷◌, ◌++◌, Bool,
  true, false, append_assoc, length, take, drop, replicate, length-append, length-replicate,
  length-take, length-drop, take-append-drop, le→not_ltb, lt→ltb, arith,
}
use rkusb.Idblock.{map_sectors_fuel, map_sectors, next_multiple_of, area, encrypt, rc4_key}

pub next_multiple_of-bounds :
    (n : ℕ)
    → (n ≤ next_multiple_of n 2048)
      × (next_multiple_of n 2048 < n + 2048)
      × (next_multiple_of n 2048 % 2048 ≡ 0)
next_multiple_of-bounds n = omega arith

pub length-area : (n : ℕ) (bytes : List ℕ) → length bytes ≤ n → length (area n bytes) ≡ n
length-area n bytes h = omega (
  arith,
  length-append bytes (replicate (n - length bytes) 0),
  length-replicate {A = ℕ} (n - length bytes) 0,
)

take-append : (xs ys : List ℕ) → take (length xs) (xs ++ ys) ≡ xs
take-append [] ys = refl
take-append (x ∷ xs) ys = ap (λ l. x ∷ l) (take-append xs ys)

drop-append : (xs ys : List ℕ) → drop (length xs) (xs ++ ys) ≡ ys
drop-append [] ys = refl
drop-append (x ∷ xs) ys = drop-append xs ys

pub take-append_eq : (n : ℕ) (xs ys : List ℕ) → length xs ≡ n → take n (xs ++ ys) ≡ xs
take-append_eq n xs ys h = rw (← h) (take-append xs ys)

pub drop-append_eq : (n : ℕ) (xs ys : List ℕ) → length xs ≡ n → drop n (xs ++ ys) ≡ ys
drop-append_eq n xs ys h = rw (← h) (drop-append xs ys)

drop-append_more : (m : ℕ) (xs ys : List ℕ) → drop (length xs + m) (xs ++ ys) ≡ drop m ys
drop-append_more m [] ys = let e : 0 + m ≡ m = omega arith in rw e
drop-append_more m (x ∷ xs) ys =
    let e : suc (length xs) + m ≡ suc (length xs + m) = omega arith in
    rw e (drop-append_more m xs ys)

-- Behind `n` bytes, what follows is counted from there.
pub drop-append_behind :
    (n m k : ℕ) (xs ys : List ℕ) → length xs ≡ n → k ≡ n + m → drop k (xs ++ ys) ≡ drop m ys
drop-append_behind n m k xs ys hn hk = rw (hk, ← hn) (drop-append_more m xs ys)

module _ (f : List ℕ → List ℕ) (keeps : (xs : List ℕ) → length (f xs) ≡ length xs) where
  -- Sectors in front are mapped first: fuel beyond the length does not matter.
  map_sectors_fuel-any :
      (m n : ℕ) (xs : List ℕ)
      → length xs ≤ m
      → length xs ≤ n
      → map_sectors_fuel m f xs ≡ map_sectors_fuel n f xs
  unfolding map_sectors_fuel
  map_sectors_fuel-any zero zero xs hm hn = refl
  map_sectors_fuel-any zero (suc n) xs hm hn = rw (lt→ltb (length xs) 512 (omega arith))
  map_sectors_fuel-any (suc m) zero xs hm hn = rw (lt→ltb (length xs) 512 (omega arith))
  map_sectors_fuel-any (suc m) (suc n) xs hm hn =
      ground (arith, length-drop 512 xs, map_sectors_fuel-any m n (drop 512 xs))

  map_sectors_fuel_step :
      (fuel : ℕ) (xs ys : List ℕ)
      → length xs ≡ 512
      → map_sectors_fuel (suc fuel) f (xs ++ ys) ≡ f xs ++ map_sectors_fuel fuel f ys
  unfolding map_sectors_fuel
  map_sectors_fuel_step fuel xs ys h = rw (
    le→not_ltb (length (xs ++ ys)) 512 (omega (arith, length-append xs ys)),
    take-append_eq 512 xs ys h,
    drop-append_eq 512 xs ys h,
  )

  -- A sector in front is mapped by itself.
  pub map_sectors_step :
      (xs ys : List ℕ) → length xs ≡ 512 → map_sectors f (xs ++ ys) ≡ f xs ++ map_sectors f ys
  unfolding map_sectors
  map_sectors_step xs ys h =
      map_sectors_fuel-any (length (xs ++ ys)) (suc (length ys + 511)) (xs ++ ys) (omega arith)
        (omega (arith, length-append xs ys))
      ∙ map_sectors_fuel_step (length ys + 511) xs ys h
      ∙ ap (λ l. f xs ++ l)
          (map_sectors_fuel-any (length ys + 511) (length ys) ys (omega arith) (omega arith))

  pub map_sectors-nil : map_sectors f [] ≡ []
  unfolding map_sectors map_sectors_fuel
  map_sectors-nil = refl

  -- Areas of whole sectors are mapped one by one.
  pub map_sectors-append :
      (q : ℕ) (xs ys : List ℕ)
      → length xs ≡ q * 512
      → map_sectors f (xs ++ ys) ≡ map_sectors f xs ++ map_sectors f ys
  map_sectors-append zero [] ys h = rw map_sectors-nil
  map_sectors-append zero (x ∷ xs) ys h = absurd (omega arith)
  map_sectors-append (suc q) xs ys h =
      let first = take 512 xs in
      let rest = drop 512 xs in
      let size : length first ≡ 512 = length-take 512 xs ∙ omega arith in
      ap (λ l. map_sectors f (l ++ ys)) (sym (take-append-drop 512 xs))
      ∙ ap (map_sectors f) (append_assoc first rest ys)
      ∙ map_sectors_step first (rest ++ ys) size
      ∙ ap (λ l. f first ++ l) (map_sectors-append q rest ys (omega (arith, length-drop 512 xs)))
      ∙ sym (append_assoc (f first) (map_sectors f rest) (map_sectors f ys))
      ∙ ap (λ l. l ++ map_sectors f ys) (sym (map_sectors_step first rest size))
      ∙ ap (λ l. map_sectors f l ++ map_sectors f ys) (take-append-drop 512 xs)

  pub length-map_sectors :
      (q : ℕ) (xs : List ℕ) → length xs ≡ q * 512 → length (map_sectors f xs) ≡ length xs
  length-map_sectors zero [] h = rw map_sectors-nil
  length-map_sectors zero (x ∷ xs) h = absurd (omega arith)
  length-map_sectors (suc q) xs h =
      let first = take 512 xs in
      let rest = drop 512 xs in
      let size : length first ≡ 512 = length-take 512 xs ∙ omega arith in
      ap (λ l. length (map_sectors f l)) (sym (take-append-drop 512 xs))
      ∙ ap length (map_sectors_step first rest size)
      ∙ omega (
        arith,
        length-append (f first) (map_sectors f rest),
        keeps first,
        length-drop 512 xs,
        length-map_sectors q rest (omega (arith, length-drop 512 xs)),
      )

  -- A cipher that undoes itself on sectors undoes itself on areas.
  pub map_sectors-map_sectors :
      ((xs : List ℕ) → f (f xs) ≡ xs)
      → (q : ℕ) (xs : List ℕ) → length xs ≡ q * 512
      → map_sectors f (map_sectors f xs) ≡ xs
  map_sectors-map_sectors undo zero [] h = rw (map_sectors-nil, map_sectors-nil)
  map_sectors-map_sectors undo zero (x ∷ xs) h = absurd (omega arith)
  map_sectors-map_sectors undo (suc q) xs h =
      let first = take 512 xs in
      let rest = drop 512 xs in
      let size : length first ≡ 512 = length-take 512 xs ∙ omega arith in
      ap (λ l. map_sectors f (map_sectors f l)) (sym (take-append-drop 512 xs))
      ∙ ap (map_sectors f) (map_sectors_step first rest size)
      ∙ map_sectors_step (f first) (map_sectors f rest) (keeps first ∙ size)
      ∙ ap (λ l. l ++ map_sectors f (map_sectors f rest)) (undo first)
      ∙ ap (λ l. first ++ l)
          (map_sectors-map_sectors undo q rest (omega (arith, length-drop 512 xs)))
      ∙ take-append-drop 512 xs

-- What the program relies on of the cipher: it keeps the length, and started with the same key
-- again it gives the bytes back.
pub record IsCipher (rc4 : List ℕ → List ℕ → List ℕ) : Type 0 where
  pub keeps : (key xs : List ℕ) → length (rc4 key xs) ≡ length xs
  pub undoes : (key xs : List ℕ) → rc4 key (rc4 key xs) ≡ xs

module _ (rc4 : List ℕ → List ℕ → List ℕ) (cipher : IsCipher rc4) where
  pub length-encrypt :
      (enabled : Bool) (q : ℕ) (xs : List ℕ)
      → length xs ≡ q * 512
      → length (encrypt rc4 enabled xs) ≡ q * 512
  length-encrypt true q xs h = length-map_sectors (rc4 rc4_key) (cipher.keeps rc4_key) q xs h ∙ h
  length-encrypt false q xs h = h

  pub encrypt-append :
      (enabled : Bool) (q : ℕ) (xs ys : List ℕ)
      → length xs ≡ q * 512
      → encrypt rc4 enabled (xs ++ ys) ≡ encrypt rc4 enabled xs ++ encrypt rc4 enabled ys
  encrypt-append true q xs ys h = map_sectors-append (rc4 rc4_key) (cipher.keeps rc4_key) q xs ys h
  encrypt-append false q xs ys h = refl

  pub encrypt-encrypt :
      (enabled : Bool) (q : ℕ) (xs : List ℕ)
      → length xs ≡ q * 512
      → encrypt rc4 enabled (encrypt rc4 enabled xs) ≡ xs
  encrypt-encrypt true q xs h =
      map_sectors-map_sectors (rc4 rc4_key) (cipher.keeps rc4_key) (cipher.undoes rc4_key) q xs h
  encrypt-encrypt false q xs h = refl

  -- An area of whole sectors at the front of a block is decrypted by itself.
  pub decrypt_front :
      (enabled : Bool) (q : ℕ) (xs rest : List ℕ)
      → length xs ≡ q * 512
      → encrypt rc4 enabled (encrypt rc4 enabled xs ++ rest) ≡ xs ++ encrypt rc4 enabled rest
  decrypt_front enabled q xs rest h =
      encrypt-append enabled q (encrypt rc4 enabled xs) rest (length-encrypt enabled q xs h)
      ∙ ap (λ l. l ++ encrypt rc4 enabled rest) (encrypt-encrypt enabled q xs h)

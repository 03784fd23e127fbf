-- ===== src/Disk/Laws.antt =====
-- The laws of `slice` and `overlay`.
use mathlib.Core.Path.{ap₂}
use rkusb.Prelude.{
  ◌⊎◌, ℕ, zero, suc, ◌+◌, ◌-◌, ◌≤◌, ◌<◌, ◌≡◌, refl, sym, ap, ◌∙◌, fun_ext, List, [], ◌∷◌, ◌++◌,
  length, get_or, take, drop, length-append, take-append-drop, length-take, length-drop, arith,
}
use rkusb.Disk.{Disk, slice, overlay}

pub length-slice : (d : Disk) (a n : ℕ) → length (slice d a n) ≡ n
unfolding slice
length-slice d a zero = refl
length-slice d a (suc n) = ap suc (length-slice d (a + 1) n)

pub slice-append :
    (d : Disk) (m n a b : ℕ) → b ≡ a + m → slice d a m ++ slice d b n ≡ slice d a (m + n)
unfolding slice
slice-append d zero n a b h = let e : b ≡ a = omega arith in rw e (ground arith)
slice-append d (suc m) n a b h =
    let e : suc m + n ≡ suc (m + n) = omega arith in
    rw e (ap (λ l. d a ∷ l) (slice-append d m n (a + 1) b (omega arith)))

pub take-slice : (d : Disk) (k n a : ℕ) → k ≤ n → take k (slice d a n) ≡ slice d a k
unfolding slice
take-slice d zero n a h = refl
take-slice d (suc k) zero a h = absurd (omega arith)
take-slice d (suc k) (suc n) a h = ap (λ l. d a ∷ l) (take-slice d k n (a + 1) (omega arith))

pub drop-slice : (d : Disk) (k m a b : ℕ) → b ≡ a + k → drop k (slice d a (k + m)) ≡ slice d b m
unfolding slice
drop-slice d zero m a b h =
    let e : b ≡ a = omega arith in let f : zero + m ≡ m = omega arith in rw (e, f)
drop-slice d (suc k) m a b h =
    let e : suc k + m ≡ suc (k + m) = omega arith in rw e (drop-slice d k m (a + 1) b (omega arith))

get_or-append :
    (xs ys : List ℕ) (i : ℕ) → length xs ≤ i → get_or (xs ++ ys) i 0 ≡ get_or ys (i - length xs) 0
get_or-append [] ys i h = ground arith
get_or-append (x ∷ xs) ys zero h = absurd (omega arith)
get_or-append (x ∷ xs) ys (suc i) h =
    let e : suc i - suc (length xs) ≡ i - length xs = omega arith in
    rw e (get_or-append xs ys i (omega arith))

get_or-append_lt : (xs ys : List ℕ) (i : ℕ) → i < length xs → get_or (xs ++ ys) i 0 ≡ get_or xs i 0
get_or-append_lt [] ys i h = absurd (omega arith)
get_or-append_lt (x ∷ xs) ys zero h = refl
get_or-append_lt (x ∷ xs) ys (suc i) h = get_or-append_lt xs ys i (omega arith)

-- Two adjacent writes are one write.
pub overlay-append :
    (d : Disk) (a b : ℕ) (xs ys : List ℕ)
    → b ≡ a + length xs
    → overlay (overlay d a xs) b ys ≡ overlay d a (xs ++ ys)
unfolding overlay
overlay-append d a b xs ys h = fun_ext λ i.
    let shift : i - a - length xs ≡ i - b = omega arith in
    ground (
      arith,
      length-append xs ys,
      get_or-append xs ys (i - a),
      get_or-append_lt xs ys (i - a),
      ap (λ (k : ℕ). get_or ys k 0) shift,
    )

pub overlay-nil : (d : Disk) (a : ℕ) → overlay d a [] ≡ d
unfolding overlay
overlay-nil d a = fun_ext λ i. ground arith

get_or-slice : (d : Disk) (n a i : ℕ) → i < n → get_or (slice d a n) i 0 ≡ d (a + i)
unfolding slice
get_or-slice d zero a i h = absurd (omega arith)
get_or-slice d (suc n) a zero h = ground arith
get_or-slice d (suc n) a (suc i) h =
    let e : a + suc i ≡ a + 1 + i = omega arith in rw e (get_or-slice d n (a + 1) i (omega arith))

-- Writing back what was read changes nothing.
pub overlay-slice : (d : Disk) (a n : ℕ) → overlay d a (slice d a n) ≡ d
unfolding overlay
overlay-slice d a n = fun_ext λ i.
    let same : a + (i - a) ≡ a - i + i = omega arith in
    ground (arith, length-slice d a n, get_or-slice d n a (i - a), ap d same)

slice_of_get_or :
    (d : Disk) (a : ℕ) (xs : List ℕ)
    → ((i : ℕ) → i < length xs → d (a + i) ≡ get_or xs i 0)
    → slice d a (length xs) ≡ xs
unfolding slice
slice_of_get_or d a [] h = refl
slice_of_get_or d a (x ∷ xs) h =
    let first : a ≡ a + 0 = omega arith in
    ap₂ (λ y l. y ∷ l) (ap d first ∙ h 0 (omega arith))
      (slice_of_get_or d (a + 1) xs
        λ i lt. let e : a + 1 + i ≡ a + suc i = omega arith in ap d e ∙ h (suc i) (omega arith))

-- What was written is read back.
pub slice-overlay : (d : Disk) (a : ℕ) (xs : List ℕ) → slice (overlay d a xs) a (length xs) ≡ xs
unfolding overlay
slice-overlay d a xs =
    slice_of_get_or _ a xs
      λ i h. let e : a + i - a ≡ i = omega arith in ground (arith, ap (λ (k : ℕ). get_or xs k 0) e)

slice_cong :
    (d e : Disk) (n a : ℕ) → ((i : ℕ) → a ≤ i → i < a + n → d i ≡ e i) → slice d a n ≡ slice e a n
unfolding slice
slice_cong d e zero a h = refl
slice_cong d e (suc n) a h =
    ap₂ (λ x l. x ∷ l) (h a (omega arith) (omega arith))
      (slice_cong d e n (a + 1) λ i lo hi. h i (omega arith) (omega arith))

-- A read outside of what was written gives the old bytes.
pub slice-overlay_behind :
    (d : Disk) (a b n : ℕ) (xs : List ℕ)
    → a + length xs ≤ b
    → slice (overlay d a xs) b n ≡ slice d b n
unfolding overlay
slice-overlay_behind d a b n xs h = slice_cong _ _ n b λ i lo hi. ground arith

-- A piece of the disk that is written back with some bytes replaced differs in those bytes only.
pub overlay-patch :
    (d : Disk) (a k n : ℕ) (bytes : List ℕ)
    → k + length bytes ≤ n
    → overlay d a (take k (slice d a n) ++ (bytes ++ drop (k + length bytes) (slice d a n)))
      ≡ overlay d (a + k) bytes
overlay-patch d a k n bytes h =
    let m = length bytes in
    let e : n ≡ k + m + (n - (k + m)) = omega arith in
    let front : take k (slice d a n) ≡ slice d a k = take-slice d k n a (omega arith) in
    let back : drop (k + m) (slice d a n) ≡ slice d (a + (k + m)) (n - (k + m)) =
      ap (λ j. drop (k + m) (slice d a j)) e ∙ drop-slice d (k + m) (n - (k + m)) a _ refl in
    rw (front, back)
      (sym (overlay-append d a (a + k) (slice d a k) _ (omega (arith, length-slice d a k)))
        ∙ ap (λ d'. overlay d' (a + k) (bytes ++ slice d (a + (k + m)) (n - (k + m))))
            (overlay-slice d a k)
        ∙ sym (overlay-append d (a + k) (a + (k + m)) bytes _ (omega arith))
        ∙ ap (overlay (overlay d (a + k) bytes) (a + (k + m)))
            (sym (slice-overlay_behind d (a + k) (a + (k + m)) (n - (k + m)) bytes (omega arith)))
        ∙ overlay-slice (overlay d (a + k) bytes) (a + (k + m)) (n - (k + m)))

pub overlay-patch_first :
    (d : Disk) (a n : ℕ) (bytes : List ℕ)
    → length bytes ≤ n
    → overlay d a (bytes ++ drop (length bytes) (slice d a n)) ≡ overlay d a bytes
overlay-patch_first d a n bytes h =
    let e : a ≡ a + 0 = omega arith in
    let f : 0 + length bytes ≡ length bytes = omega arith in
    rw f at (overlay-patch d a 0 n bytes (omega arith) ∙ ap (λ b. overlay d b bytes) (sym e))

-- A piece of what was read.
pub take-drop-slice :
    (d : Disk) (a k m n : ℕ) → k + m ≤ n → take m (drop k (slice d a n)) ≡ slice d (a + k) m
take-drop-slice d a k m n h =
    let e : n ≡ k + (n - k) = omega arith in
    ap (λ j. take m (drop k (slice d a j))) e
    ∙ ap (take m) (drop-slice d k (n - k) a (a + k) refl)
    ∙ take-slice d m (n - k) (a + k) (omega arith)

-- Three adjacent pieces are one piece.
pub slice_three :
    (d : Disk) (a b c k m n : ℕ) {xs ys zs : List ℕ}
    → xs ≡ slice d a k
    → ys ≡ slice d b m
    → zs ≡ slice d c n
    → b ≡ a + k
    → c ≡ b + m
    → xs ++ (ys ++ zs) ≡ slice d a (k + (m + n))
slice_three d a b c k m n hx hy hz hb hc =
    rw (hx, hy, hz)
      (ap (λ l. slice d a k ++ l) (slice-append d m n b c hc) ∙ slice-append d k (m + n) a b hb)

-- The same for a buffer that holds a piece of the disk.
pub overlay-patched :
    (d : Disk) (a k n m p : ℕ) (bytes tmp : List ℕ)
    → tmp ≡ slice d a n
    → length bytes ≡ m
    → k + m ≤ n
    → a + k ≡ p
    → overlay d a (take k tmp ++ (bytes ++ drop (k + m) tmp)) ≡ overlay d p bytes
overlay-patched d a k n m p bytes tmp ht hm hn hp =
    rw (ht, ← hm) (overlay-patch d a k n bytes (omega arith) ∙ ap (λ b. overlay d b bytes) hp)

pub length-patched :
    (k m n : ℕ) (bytes tmp : List ℕ)
    → length tmp ≡ n
    → length bytes ≡ m
    → k + m ≤ n
    → length (take k tmp ++ (bytes ++ drop (k + m) tmp)) ≡ n
length-patched k m n bytes tmp ht hm hn = omega (
  arith,
  length-append (take k tmp) (bytes ++ drop (k + m) tmp),
  length-append bytes (drop (k + m) tmp),
  length-take k tmp,
  length-drop (k + m) tmp,
)

-- A write in two parts, where `rest` is what the first left.
pub overlay-split :
    (d : Disk) (a b k : ℕ) (bytes rest : List ℕ)
    → k ≤ length bytes
    → b ≡ a + k
    → rest ≡ drop k bytes
    → overlay (overlay d a (take k bytes)) b rest ≡ overlay d a bytes
overlay-split d a b k bytes rest hk hb hr =
    ap (overlay (overlay d a (take k bytes)) b) hr
    ∙ overlay-append d a b (take k bytes) (drop k bytes) (omega (arith, length-take k bytes))
    ∙ ap (overlay d a) (take-append-drop k bytes)

-- A write changes nothing outside of a range that holds it.
pub overlay-outside :
    (d : Disk) (a n i : ℕ) (xs : List ℕ)
    → length xs ≤ n
    → (i < a) ⊎ (a + n ≤ i)
    → overlay d a xs i ≡ d i
unfolding overlay
overlay-outside d a n i xs h outside = ground arith

-- ===== src/Device/Commands/Opening.antt =====
-- Which endpoints `open` takes, and which storage is selected.
use rkusb.Prelude.{
  ℕ, zero, suc, ◌+◌, ◌*◌, ◌/◌, ◌%◌, ◌^◌, ◌<◌, ◌≡◌, ◌∙◌, refl, ap, sym, List, [], ◌∷◌, Option, none,
  some, Result, ok, err, Bool-cases, inl, inr, ◌==◌, ne→not_==, arith,
}
use rkusb.Bus.{not_found}
use rkusb.Device.{RkUsbError, usb, duplicate_bulk_endpoint, RkDevice}
use rkusb.Device.Commands.{
  Endpoint, bulk_input, bulk_output, other_endpoint, find_endpoints, trailing_zeros,
  selected_storage,
}

abbrev pub inputs : List Endpoint → List ℕ
inputs [] = []
inputs (bulk_input a ∷ es) = a ∷ inputs es
inputs (bulk_output a ∷ es) = inputs es
inputs (other_endpoint ∷ es) = inputs es

abbrev pub outputs : List Endpoint → List ℕ
outputs [] = []
outputs (bulk_input a ∷ es) = outputs es
outputs (bulk_output a ∷ es) = a ∷ outputs es
outputs (other_endpoint ∷ es) = outputs es

-- The choice by the addresses of the bulk endpoints: one of each, or an error.
abbrev pub choose : List ℕ → List ℕ → Result RkUsbError RkDevice
choose (i ∷ []) (o ∷ []) = ok (record { bulk_in = i; bulk_out = o })
choose (i ∷ j ∷ is) os = err duplicate_bulk_endpoint
choose [] (o ∷ p ∷ os) = err duplicate_bulk_endpoint
choose (i ∷ []) (o ∷ p ∷ os) = err duplicate_bulk_endpoint
choose [] (o ∷ []) = err (usb not_found)
choose [] [] = err (usb not_found)
choose (i ∷ []) [] = err (usb not_found)

choose-many_outputs :
    (is : List ℕ) (o p : ℕ) (os : List ℕ) → choose is (o ∷ p ∷ os) ≡ err duplicate_bulk_endpoint
choose-many_outputs [] o p os = refl
choose-many_outputs (i ∷ []) o p os = refl
choose-many_outputs (i ∷ j ∷ is) o p os = refl

abbrev cell : Option ℕ → List ℕ → List ℕ
cell none xs = xs
cell (some a) xs = a ∷ xs

find_endpoints-choose_from :
    (es : List Endpoint) (i o : Option ℕ)
    → find_endpoints es i o ≡ choose (cell i (inputs es)) (cell o (outputs es))
unfolding find_endpoints
find_endpoints-choose_from [] none none = refl
find_endpoints-choose_from [] none (some o) = refl
find_endpoints-choose_from [] (some i) none = refl
find_endpoints-choose_from [] (some i) (some o) = refl
find_endpoints-choose_from (bulk_input a ∷ es) none o = find_endpoints-choose_from es (some a) o
find_endpoints-choose_from (bulk_input a ∷ es) (some i) o = refl
find_endpoints-choose_from (bulk_output a ∷ es) i none = find_endpoints-choose_from es i (some a)
find_endpoints-choose_from (bulk_output a ∷ es) i (some o) =
    sym (choose-many_outputs (cell i (inputs es)) o a (outputs es))
find_endpoints-choose_from (other_endpoint ∷ es) i o = find_endpoints-choose_from es i o

-- `open` takes the bulk endpoints of an interface that has one input and one output; it fails with
-- `duplicate_bulk_endpoint` if there are two of a direction, and with `not_found` otherwise.
pub find_endpoints-choose :
    (es : List Endpoint) → find_endpoints es none none ≡ choose (inputs es) (outputs es)
find_endpoints-choose es = find_endpoints-choose_from es none none

power-suc : (k : ℕ) → 2 ^ suc k ≡ 2 * 2 ^ k
power-suc k = omega arith

double-product : (p x y : ℕ) → x ≡ p * y → 2 * x ≡ 2 * p * y
double-product p x y h = ap (λ n. 2 * n) h ∙ grind arith

-- The lowest bit that is set.
trailing_zeros-bit :
    (fuel x : ℕ)
    → 0 < x
    → x < 2 ^ fuel
    → (m : ℕ) × (x ≡ 2 ^ trailing_zeros fuel x * (2 * m + 1)) × (trailing_zeros fuel x < fuel)
unfolding trailing_zeros
trailing_zeros-bit zero x h hx = absurd (omega arith)
trailing_zeros-bit (suc fuel) x h hx = elim (Bool-cases (x % 2 == 0)) [
  | inl even ↦
      let halved : 2 * (x / 2) ≡ x = ground arith in
      let (m, e, lt) =
        trailing_zeros-bit fuel (x / 2) (omega arith) (omega (arith, power-suc fuel)) in
      let k = trailing_zeros fuel (x / 2) in
      rw even (
        m,
        sym halved
            ∙ double-product (2 ^ k) (x / 2) (2 * m + 1) e
            ∙ ap (λ p. p * (2 * m + 1)) (sym (power-suc k)),
        omega arith,
      )
  | inr odd ↦ rw odd (x / 2, ground arith, omega arith)
]

-- A bitmap of storages without a bit selects none; else the storage selected is the lowest bit of
-- the 32 that is set.
selected_storage-lowest :
    (bits : ℕ)
    → 0 < bits
    → bits < 2 ^ 32
    → (k m : ℕ) × (selected_storage bits ≡ some k) × (bits ≡ 2 ^ k * (2 * m + 1)) × (k < 32)
unfolding selected_storage
selected_storage-lowest bits h hx =
    let (m, e, lt) = trailing_zeros-bit 32 bits h hx in
    rw (ne→not_== bits 0 (omega arith)) (trailing_zeros 32 bits, m, refl, e, lt)

-- ===== src/Device/Commands/Downloads.antt =====
-- What vendor requests and downloads send.
use rkusb.Prelude.{
  ℕ, zero, suc, ◌/◌, ◌%◌, ◌≤◌, ◌≡◌, ◌∙◌, refl, sym, ap, List, [], ◌∷◌, ◌++◌, map, append-nil,
  append_assoc, some, Result, Ensures, ensures, Ensures-bind, Ensures-mono, eq→==, length, take,
  drop, length-take, length-drop, take-append-drop, chunks, chunks_fuel, arith,
}
use rkusb.Bus.{Bus}
use rkusb.Device.{RkUsbError}
use rkusb.Device.Transaction.Stages.{Ensures-from_usb}
use rkusb.Image.{RkBootImage, Item, entry_471, entry_472, iter_entries}
use rkusb.Device.Commands.{
  or_stop, usb_timeout, send_chunks, vendor_request, download_items, download_boot,
}

-- A byte sent with a request.
abbrev pub tagged : ℕ → List ℕ → List (ℕ × ℕ)
tagged request [] = []
tagged request (b ∷ bs) = (request, b) ∷ tagged request bs

tagged-append :
    (request : ℕ) (xs ys : List ℕ)
    → tagged request (xs ++ ys) ≡ tagged request xs ++ tagged request ys
tagged-append request [] ys = refl
tagged-append request (x ∷ xs) ys = ap (λ l. (request, x) ∷ l) (tagged-append request xs ys)

-- A host whose control endpoint takes what is sent, up to the 4096 bytes of a control transfer:
-- `log` has the bytes in their order, each with the request it belongs to, and `holds` is what the
-- transfers keep.
pub record ControlLog (B : Bus) : Type 1 where
  pub log : B.State → List (ℕ × ℕ)
  pub holds : B.State → Type 0
  pub sleep-log : (s : B.State) (t : ℕ) → log (B.sleep t s) ≡ log s
  pub sleep-holds : (s : B.State) (t : ℕ) → holds s → holds (B.sleep t s)
  pub takes :
      (s : B.State) (request : ℕ) (chunk : List ℕ)
      → length chunk ≤ 4096
      → holds s
      → Ensures
          (λ n s'. (n ≡ length chunk) × (log s' ≡ log s ++ tagged request chunk) × holds s')
          (B.write_control 0x40 0xC 0 request chunk usb_timeout s)

-- What a vendor request sends: the data and its checksum, high byte first.
abbrev pub with_crc : (List ℕ → ℕ) → List ℕ → List ℕ
with_crc crc16 bytes = bytes ++ (crc16 bytes / 256 % 256 ∷ crc16 bytes % 256 ∷ [])

pub sent : (List ℕ → ℕ) → ℕ → List Item → List (ℕ × ℕ)
sent crc16 request [] = []
sent crc16 request (item ∷ items) =
    tagged request (with_crc crc16 item.content) ++ sent crc16 request items

Ensures-or_stop :
    {S : Type 0} {Q : Unit {0} → S → Type 0} {r : Result RkUsbError (Unit {0}) × S}
    → Ensures Q r
    → Ensures Q (or_stop r)
Ensures-or_stop (ensures q) = ensures q

module _ {B : Bus} (C : ControlLog B) (crc16 : List ℕ → ℕ) where
  send_chunks-logs :
      (fuel request : ℕ) (bytes : List ℕ) (s : B.State)
      → length bytes ≤ fuel
      → C.holds s
      → Ensures
          (λ _ s'. (C.log s' ≡ C.log s ++ tagged request bytes) × C.holds s')
          (send_chunks B request (chunks_fuel fuel 4096 bytes) s)
  unfolding send_chunks chunks_fuel
  send_chunks-logs zero request [] s h q = ensures (sym (append-nil (C.log s)), q)
  send_chunks-logs zero request (x ∷ xs) s h q = absurd (omega arith)
  send_chunks-logs (suc fuel) request [] s h q = ensures (sym (append-nil (C.log s)), q)
  send_chunks-logs (suc fuel) request (x ∷ xs) s h q =
      let bytes = x ∷ xs in
      let chunk = take 4096 bytes in
      let rest = drop 4096 bytes in
      Ensures-bind
        (Ensures-from_usb (C.takes s request chunk (omega (arith, length-take 4096 bytes)) q))
        λ n s1 (all, log1, q1). rw (eq→== n (length chunk) all) (
          Ensures-mono
            (send_chunks-logs fuel request rest s1 (omega (arith, length-drop 4096 bytes)) q1)
            λ _ s2 (log2, q2). (
              log2
                  ∙ ap (λ l. l ++ tagged request rest) log1
                  ∙ append_assoc (C.log s) (tagged request chunk) (tagged request rest)
                  ∙ ap (λ l. C.log s ++ l)
                      (sym (tagged-append request chunk rest)
                        ∙ ap (tagged request) (take-append-drop 4096 bytes)),
              q2,
            ))

  -- A vendor request succeeds and sends its data and the checksum of the data, high byte first,
  -- in order and without a gap, in transfers of 4096 bytes at most. The premise is a host that
  -- takes control transfers.
  vendor_request-logs :
      (request : ℕ) (bytes : List ℕ) (s : B.State)
      → C.holds s
      → Ensures
          (λ _ s'. (C.log s' ≡ C.log s ++ tagged request (with_crc crc16 bytes)) × C.holds s')
          (vendor_request B crc16 request bytes s)
  unfolding vendor_request chunks
  vendor_request-logs request bytes s q =
      send_chunks-logs (length (with_crc crc16 bytes)) request (with_crc crc16 bytes) s
        (omega arith) q

  download_items-logs :
      (request : ℕ) (items : List Item) (s : B.State)
      → C.holds s
      → Ensures
          (λ _ s'. (C.log s' ≡ C.log s ++ sent crc16 request items) × C.holds s')
          (download_items B crc16 request (map some items) s)
  unfolding download_items sent
  download_items-logs request [] s q = ensures (sym (append-nil (C.log s)), q)
  download_items-logs request (item ∷ items) s q =
      Ensures-bind (Ensures-or_stop (vendor_request-logs request item.content s q))
        λ _ s1 (log1, q1).
          Ensures-mono
            (download_items-logs request items (B.sleep item.delay s1)
              (C.sleep-holds s1 item.delay q1))
            λ _ s2 (log2, q2). (
              log2
                  ∙ ap (λ l. l ++ sent crc16 request items) (C.sleep-log s1 item.delay ∙ log1)
                  ∙ append_assoc (C.log s) _ _,
              q2,
            )

  -- If all entries of both kinds lie in the image, `download_boot` succeeds and sends every 0x471
  -- entry and then every 0x472 entry, in the order of the image, each with its checksum. The
  -- premise is a host that takes control transfers; what these keep holds afterwards as before.
  pub download_boot-logs :
      (from_utf16_lossy : List ℕ → List ℕ) (image : RkBootImage) (items_471 items_472 : List Item)
      (s : B.State)
      → iter_entries from_utf16_lossy image entry_471 ≡ map some items_471
      → iter_entries from_utf16_lossy image entry_472 ≡ map some items_472
      → C.holds s
      → Ensures
          (λ _ s'.
            (C.log s' ≡ C.log s ++ (sent crc16 0x0471 items_471 ++ sent crc16 0x0472 items_472))
            × C.holds s')
          (download_boot B crc16 from_utf16_lossy image s)
  unfolding download_boot
  download_boot-logs from_utf16_lossy image items_471 items_472 s h1 h2 q =
      rw (h1, h2)
        (Ensures-bind (download_items-logs 0x0471 items_471 s q) λ _ s1 (log1, q1).
          Ensures-mono (download_items-logs 0x0472 items_472 s1 q1) λ _ s2 (log2, q2). (
            log2 ∙ ap (λ l. l ++ sent crc16 0x0472 items_472) log1 ∙ append_assoc (C.log s) _ _,
            q2,
          ))

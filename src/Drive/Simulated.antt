-- ===== src/Drive/Simulated.antt =====
-- A device that follows the protocol, as a program: it shows that the assumptions on devices can
-- be met, and runs the library's operations in tests.
use rkusb.Prelude.{
  ℕ, ◌+◌, ◌*◌, ◌%◌, ◌^◌, refl, Option, none, some, List, ok, err, Action, ensures, sym, ◌==◌,
  if◌then◌else◌, eq→==, length, arith, [], ◌∷◌, ◌++◌, drop, leb, le→leb, ◌≡◌,
}
use rkusb.Disk.{Disk, slice, overlay}
use rkusb.Usb.{size_of_csw}
use rkusb.Bus.{Bus, UsbError, io}
use rkusb.Device.{RkDevice}
use rkusb.Device.Commands.Downloads.{ControlLog, tagged}
use rkusb.Drive.Queries.{Query, decode_query, IsInformant, Informant}
use rkusb.Drive.{
  answering, Command, Phase, ready, receiving, sending, finished, decode, phase_after, disk_after,
  status_bytes, View, IsDrive, Link,
}

pub record SimState : Type 0 where
  pub clock : ℕ
  pub disk : Disk
  pub phase : Phase
  pub control : List (ℕ × ℕ)

abbrev pub sim_blank : ℕ
sim_blank = 0xFF

-- The simulated flash has 2048 sectors; the other answers are some bytes of the right length.
abbrev pub sim_answer : ℕ → List ℕ
sim_answer op =
    if op == 0x1A
    then 0 ∷ 8 ∷ 0 ∷ 0 ∷ 0 ∷ 0 ∷ 0 ∷ 0 ∷ 0 ∷ 0 ∷ 0 ∷ []
    else if op == 0xAA
    then 0 ∷ 1 ∷ 0 ∷ 0 ∷ 0 ∷ 0 ∷ 0 ∷ 0 ∷ []
    else 2 ∷ 0 ∷ 0 ∷ 0 ∷ []

accept : Option Query → Option Command → ℕ → Action SimState UsbError ℕ
accept (some q) c n s =
    (ok n, record s { clock = s.clock + 1; phase = answering q.tag (sim_answer q.op) })
accept none none n s = (err io, s)
accept none (some c) n s = (
  ok n,
  record s { clock = s.clock + 1; phase = phase_after c; disk = disk_after sim_blank c s.disk },
)

unfoldable pub write_phase : Phase → List ℕ → Action SimState UsbError ℕ
unfolding accept
write_phase ready bytes s = accept (decode_query bytes) (decode bytes) (length bytes) s
write_phase (receiving tag address count) bytes s =
    if length bytes == count * 512
    then (
      ok (length bytes),
      record s {
        clock = s.clock + 1;
        phase = finished tag;
        disk = overlay s.disk (address * 512) bytes;
      },
    )
    else (err io, s)
write_phase (sending tag address count) bytes s = (err io, s)
write_phase (finished tag) bytes s = (err io, s)
write_phase (answering tag answer) bytes s = (err io, s)

unfoldable pub read_phase : Phase → List ℕ → Action SimState UsbError (ℕ × List ℕ)
read_phase ready buf s = (err io, s)
read_phase (receiving tag address count) buf s = (err io, s)
read_phase (sending tag address count) buf s =
    if length buf == count * 512
    then (
      ok (count * 512, slice s.disk (address * 512) (count * 512)),
      record s { clock = s.clock + 1; phase = finished tag },
    )
    else (err io, s)
read_phase (finished tag) buf s =
    if length buf == size_of_csw
    then (ok (size_of_csw, status_bytes tag), record s { clock = s.clock + 1; phase = ready })
    else (err io, s)
read_phase (answering tag answer) buf s =
    if leb (length answer) (length buf)
    then (
      ok (length answer, answer ++ drop (length answer) buf),
      record s { clock = s.clock + 1; phase = finished tag },
    )
    else (err io, s)

-- The clock ticks at every call.
abbrev pub sim_bus : Bus
sim_bus = record {
  State = SimState;
  now = λ s. (s.clock, record s { clock = s.clock + 1 });
  random_u32 = λ s. (s.clock * 7919 % 2 ^ 32, s);
  sleep = λ t s. record s { clock = s.clock + t };
  write_bulk = λ endpoint bytes t s. write_phase s.phase bytes s;
  read_bulk = λ endpoint buf t s. read_phase s.phase buf s;
  write_control = λ kind request value index bytes t s.
      (ok (length bytes), record s { control = s.control ++ tagged index bytes });
}

abbrev pub sim_device : RkDevice
sim_device = record { bulk_in = 0x81; bulk_out = 0x02 }

abbrev pub sim_view : View sim_bus
sim_view = record { disk = λ s. s.disk; phase = λ s. s.phase; clock = λ s. s.clock }

-- A block is a transfer or a query, not both.
decode_query-none :
    (bytes : List ℕ) (c : Command) → decode bytes ≡ some c → decode_query bytes ≡ none
unfolding decode decode_query
decode_query-none bytes c h = ground arith

pub sim_bus-IsDrive : IsDrive sim_bus sim_device sim_view sim_blank 1
unfolding write_phase read_phase
sim_bus-IsDrive = record {
  now-early = λ s. omega arith;
  now-late = λ s. omega arith;
  now-clock = λ s. omega arith;
  random-clock = λ s. omega arith;
  now-disk = λ s. refl;
  now-phase = λ s. refl;
  random-disk = λ s. refl;
  random-phase = λ s. refl;
  random-lt = λ s. omega arith;
  take_command = λ s bytes t c hr hd pos.
      rw (hr, decode_query-none bytes c hd, hd) (ensures (refl, refl, refl, omega arith));
  take_data = λ s bytes t tag address count hr hl pos.
      rw (hr, eq→== (length bytes) (count * 512) hl) (ensures (refl, refl, refl, omega arith));
  give_data = λ s buf t tag address count hr hl pos.
      rw (hr, eq→== (length buf) (count * 512) hl)
        (ensures (sym hl, refl, refl, refl, omega arith));
  give_status = λ s buf t tag hr hl pos.
      rw (hr, eq→== (length buf) size_of_csw hl) (ensures (refl, refl, refl, refl, omega arith));
}

abbrev pub sim_link : Link sim_bus sim_device
sim_link = record { view = sim_view; blank = sim_blank; drive = sim_bus-IsDrive; step = 1 }

pub sim_bus-IsInformant : IsInformant sim_bus sim_device sim_view 1 sim_answer
unfolding write_phase read_phase
sim_bus-IsInformant = record {
  take_query =
      λ s bytes t q hr hd size positive pos. rw (hr, hd) (ensures (refl, refl, refl, omega arith));
  give_answer = λ s buf t tag bytes hr hl pos.
      rw (hr, le→leb (length bytes) (length buf) hl)
        (ensures (refl, refl, refl, refl, omega arith));
}

abbrev pub sim_informant : Informant sim_link
sim_informant = record { answer = sim_answer; informant = sim_bus-IsInformant }

-- The control endpoint takes what is sent; the disk and the phase stay.
abbrev pub sim_control : Disk → ControlLog sim_bus
sim_control disk = record {
  log = λ s. s.control;
  holds = λ s. (s.phase ≡ ready) × (s.disk ≡ disk);
  sleep-log = λ s t. refl;
  sleep-holds = λ s t held. held;
  takes = λ s request chunk h held. ensures (refl, refl, held);
}

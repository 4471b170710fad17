-- ===== src/Builtin/Concurrent.antt =====
-- Concurrent calls of `AddPort` and `RemovePort` of the driver "builtin". The lock is held in the
-- validation, in the commit and in the whole of `RemovePort`; the start of the routine stands
-- between, without the lock. A call of `AddPort` and its routine have one number.
pub mod Calls
pub mod Removal
pub mod Exclusive
pub mod Examples
use rootlesskit.Base.{◌==◌, if◌then◌else◌, ℤ, eq_ℤ, ℕ, ◌≡◌, false, Option, none, some, ok}
use rootlesskit.Net.{Net}
use rootlesskit.Port.{Spec, Status}
use rootlesskit.Port.Table.{lookup}
use rootlesskit.Port.Validate.{is_conflict, validate_port_spec}
use rootlesskit.Builtin.{Driver, new_driver, commit, remove_port, Stopping}

-- Where a call of `AddPort` is: before the validation, after it, with its routine started, or
-- returned.
pub data Phase : Type 0 where
  idle : Phase
  validated started : Spec → Phase
  returned : Phase

-- The driver, the calls, the sockets that listen, by the routine that holds them, and the routine
-- that the stopper of an ID stops.
pub record System : Type 0 where
  pub driver : Driver
  pub call : ℕ → Phase
  pub socket : ℕ → Option Spec
  pub routine : ℤ → ℕ

abbrev pub initial : System
initial = record { driver = new_driver; call = λ i. idle; socket = λ i. none; routine = λ id. 0 }

abbrev pub at_call : ℕ → Phase → System → ℕ → Phase
at_call i p s j = if i == j then p else s.call j

-- `ln, err := net.Listen(...)` has succeeded.
unfoldable pub open_socket : ℕ → Spec → System → System
open_socket i spec s = record s {
  call = at_call i (started spec) s;
  socket = λ j. if i == j then some spec else s.socket j;
}

-- The second locked part of `AddPort`.
unfoldable pub commit_call : ℕ → Spec → System → System
commit_call i spec s = record s {
  driver = (commit spec s.driver).0;
  call = at_call i returned s;
  routine = λ id. if eq_ℤ s.driver.next_id id then i else s.routine id;
}

abbrev pub close_socket : ℕ → System → ℕ → Option Spec
close_socket i s j = if i == j then none else s.socket j

-- One step of one call, or of a routine. Two sockets do not listen on one address, which is the
-- system's promise.
pub data Step (net : Net) (s : System) : System → Type 0 where
  validates :
      (i : ℕ) (spec : Spec)
      → s.call i ≡ idle
      → validate_port_spec net spec s.driver.ports ≡ ok tt
      → Step net s (record s { call = at_call i (validated spec) s })
  listens :
      (i : ℕ) (spec : Spec)
      → s.call i ≡ validated spec
      → ((j : ℕ) (other : Spec) → s.socket j ≡ some other → is_conflict other spec ≡ false)
      → Step net s (open_socket i spec s)
  -- The validation, or the start of the routine, has failed.
  gives_up : (i : ℕ) → s.socket i ≡ none → Step net s (record s { call = at_call i returned s })
  commits : (i : ℕ) (spec : Spec) → s.call i ≡ started spec → Step net s (commit_call i spec s)
  -- `RemovePort`, where the routine ends in time.
  removes :
      (stopping : Stopping) (id : ℤ)
      → Step net s (record s {
        driver = (remove_port stopping id s.driver).0;
        socket = elim (lookup id s.driver.stoppers) [
          | none ↦ s.socket
          | some _ ↦ close_socket (s.routine id) s
        ];
      })
  -- `RemovePort`, where the routine does not end in time.
  leaves :
      (stopping : Stopping) (id : ℤ)
      → Step net s (record s { driver = (remove_port stopping id s.driver).0 })
  -- The routine closes its listener: it was stopped and ends late, or `Accept` has failed. The port
  -- stays in the table if it is there.
  closes : (i : ℕ) → Step net s (record s { socket = close_socket i s })

pub data Reach (net : Net) : System → Type 0 where
  begun : Reach net initial
  stepped : {s t : System} → Reach net s → Step net s t → Reach net t

-- ===== src/Builtin/Concurrent/Examples.antt =====
-- Tests of concurrent calls: two calls of `AddPort` for one address have passed the validation, one
-- has its socket, and the other gives up.
use rootlesskit.Base.{pos, ◌+ℤ◌, ◌≡◌, refl, some, arith}
use rootlesskit.Port.Examples.{net, web, resolve}
use rootlesskit.Port.Table.{lookup, store}
use rootlesskit.Port.Validate.{validate_port_spec, find_conflict, validate_proto}
use rootlesskit.Builtin.{commit, next_int}
use rootlesskit.Builtin.Examples.{web_status}
use rootlesskit.Builtin.Concurrent.{
  System, Reach, Step, begun, stepped, validates, listens, gives_up, commits, open_socket,
  commit_call, closes,
}

record Run : Type 0 where
  last : System
  reach : Reach net last

abbrev then_step : (r : Run) {t : System} → Step net r.last t → Run
then_step r m = record { last = _; reach = stepped r.reach m }

abbrev both_validated : Run
unfolding validate_port_spec validate_proto find_conflict resolve
both_validated =
    let start : Run = record { last = _; reach = begun } in
    let r1 = then_step start (validates 0 web refl refl) in then_step r1 (validates 1 web refl refl)

abbrev one_committed : Run
unfolding validate_port_spec validate_proto find_conflict resolve both_validated open_socket
one_committed =
    let r1 = then_step both_validated (listens 0 web refl (λ j other h. absurd (ground arith))) in
    let r2 = then_step r1 (gives_up 1 refl) in then_step r2 (commits 0 web refl)

-- The listener of the first port closes itself; a second call for the same address succeeds, and the
-- table has the address twice.
abbrev closed_and_added : Run
unfolding validate_port_spec validate_proto find_conflict resolve both_validated one_committed
    open_socket commit_call
closed_and_added =
    let r1 = then_step both_validated (listens 0 web refl (λ j other h. absurd (ground arith))) in
    let r2 = then_step r1 (commits 0 web refl) in
    let r3 = then_step r2 (closes 0) in
    let r4 = then_step r3 (listens 1 web refl (λ j other h. absurd (ground arith))) in
    then_step r4 (commits 1 web refl)

table_has_both :
    (lookup (pos 1) closed_and_added.last.driver.ports ≡ some web_status)
    × (lookup (pos 2) closed_and_added.last.driver.ports ≡ some (record { id = pos 2; spec = web }))
unfolding validate_port_spec validate_proto find_conflict resolve both_validated one_committed
    closed_and_added open_socket commit_call commit next_int lookup store rootlesskit.Base.◌+ℤ◌
table_has_both = (refl, refl)

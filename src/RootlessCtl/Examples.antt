-- ===== src/RootlessCtl/Examples.antt =====
-- Tests of the commands on ports, over the builtin driver.
use rootlesskit.Base.{
  All, ◌≡◌, refl, subst, ◌⊎◌, true, false, none, List, [], ◌∷◌, ◌++◌, arith, ok, err,
}
use rootlesskit.Text.{Bytes, codes}
use rootlesskit.Port.{Spec}
use rootlesskit.Port.Examples.{net, char_scan, short_spec, parse_short}
use rootlesskit.Builtin
use rootlesskit.Builtin.{
  Driver, new_driver, Stopping, stopped, timed_out, StopError, remove_port, routine_stop,
}
use rootlesskit.Builtin.Manager.{manager, manager-laws, new_driver-Inv}
use rootlesskit.Builtin.Examples.{listening}
use rootlesskit.RootlessCtl.{
  Error, Context, parse_specs, socket_path, new_client, add_ports_action, checked_specs,
}
use rootlesskit.RootlessCtl.Printed.{FairAll, Stands, added-Stands}

abbrev context : Context
context = record {
  socket = codes "api.sock";
  json = false;
  state_dir = [];
  join = λ dir name. dir ++ name;
  connects = λ path. true;
  marshal = λ st. none;
}

abbrev args : List Bytes
args = codes ":8080:80/udp4" ∷ []

checked : checked_specs (manager net) context net char_scan args ≡ ok (short_spec ∷ [])
unfolding checked_specs parse_specs new_client socket_path
checked = rw parse_short refl

fair :
    (specs : List Spec)
    → checked_specs (manager net) context net char_scan args ≡ ok specs
    → FairAll (manager-laws net) context (λ n. listening) specs new_driver
fair specs h =
    let same : short_spec ∷ [] ≡ specs = ground (arith, checked, h) in
    subst (λ x. FairAll (manager-laws net) context (λ n. listening) x new_driver) same
      (ground arith, tt)

added-Stands_example :
    let r = add_ports_action (manager net) context net char_scan (λ n. listening) args new_driver in
    All (Stands (manager-laws net) context r.0) r.1
    × (((e : Error Builtin.Error StopError) × (checked_specs
              (manager net)
              context
              net
              char_scan
              args
            ≡ err e)
          × (r ≡ (new_driver, [], err e)))
        ⊎ ((specs : List Spec) × (checked_specs (manager net) context net char_scan args
              ≡ ok specs)))
added-Stands_example =
    added-Stands (manager-laws net) context net char_scan (λ n. listening) args new_driver
      new_driver-Inv fair

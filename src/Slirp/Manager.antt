-- ===== src/Slirp/Manager.antt =====
-- The slirp4netns driver keeps the promises of `port.Manager`, for an API that gives new IDs.
use rootlesskit.Base.{
  if◌then◌else◌, ℤ, eq_ℤ, eq_ℤ_iff, ◌≡◌, refl, ◌⊎◌, inl, inr, false, none, some, arith, Result, ok,
  err, ◌>>=◌, ◌>>◌, reject_if, or_fail, wrap_err, Result-cases, bind-eq-ok,
}
use rootlesskit.Text.{Bytes, codes}
use rootlesskit.Text.Search.{has_suffix, trim_suffix}
use rootlesskit.Net.{Net}
use rootlesskit.Port.{Spec, Status}
use rootlesskit.Port.Table.{lookup, store, lookup-store, lookup-delete}
use rootlesskit.Port.Validate.{validate_port_spec}
use rootlesskit.Port.Manager.{Manager, ManagerLaws}
use rootlesskit.Slirp.{
  Driver, Request, add_hostfwd, Reply, Api, Error, number, guest_addr, read_id, request_forward,
  record_port, add_port, list_ports, remove_port, invalid, unsupported_proto, api_failed,
}

-- Entries stand under their own IDs.
abbrev pub Inv : Driver → Type 0
Inv d = (j : ℤ) (st : Status) → lookup j d.ports ≡ some st → st.id ≡ j

-- No reply to a forward carries an ID that is in the table.
abbrev pub GivesNewIds : Api → Spec → Driver → Type 0
GivesNewIds api spec d =
    (r : Request) (rep : Reply) (id : ℤ)
    → api r ≡ some rep
    → rep.return_id ≡ some (number id)
    → lookup id d.ports ≡ none

abbrev pub manager : Net → Manager Driver Api Api Error Error
manager net = record {
  add = add_port net;
  remove = remove_port;
  list = list_ports;
  ports = λ d. d.ports;
}

read_id-ok :
    (rep : Reply) (id : ℤ)
    → read_id rep ≡ ok id
    → (rep.has_error ≡ false) × (rep.return_id ≡ some (number id))
unfolding read_id
read_id-ok rep id h = (ground arith, ground arith)

-- Where an ID comes from: a known protocol that is not IPv6 only, and the reply to the request
-- made of the specification.
pub record Forwarded (net : Net) (api : Api) (spec : Spec) (d : Driver) (id : ℤ) : Type 0 where
  pub ip : Bytes
  pub rep : Reply
  pub accepted : validate_port_spec net spec d.ports ≡ ok tt
  pub not_v6 : has_suffix spec.proto (codes "6") ≡ false
  pub address : guest_addr net d spec.child_ip ≡ ok ip
  pub asked :
      api (
        add_hostfwd
          (trim_suffix spec.proto (codes "4"))
          spec.parent_ip
          spec.parent_port
          ip
          spec.child_port)
      ≡ some rep
  pub no_error : rep.has_error ≡ false
  pub given : rep.return_id ≡ some (number id)

abbrev forward : Spec → Bytes → Request
forward spec ip =
    add_hostfwd (trim_suffix spec.proto (codes "4")) spec.parent_ip spec.parent_port ip
      spec.child_port

abbrev ask : Api → Spec → Bytes → Result Error ℤ
ask api spec ip = or_fail (api (forward spec ip)) api_failed >>= read_id

abbrev after_family : Net → Api → Spec → Driver → Result Error ℤ
after_family net api spec d = guest_addr net d spec.child_ip >>= ask api spec

abbrev after_validate : Net → Api → Spec → Driver → Result Error ℤ
after_validate net api spec d =
    reject_if (has_suffix spec.proto (codes "6")) (unsupported_proto spec.proto)
    >> after_family net api spec d

request_forward-ok :
    (net : Net) (api : Api) (spec : Spec) (d : Driver) (id : ℤ)
    → request_forward net api spec d ≡ ok id
    → Forwarded net api spec d id
unfolding request_forward
request_forward-ok net api spec d id h =
    let (u, e1, h1) =
      bind-eq-ok (wrap_err invalid (validate_port_spec net spec d.ports))
        (λ _. after_validate net api spec d) h in
    let (w, e2, h2) =
      bind-eq-ok (reject_if (has_suffix spec.proto (codes "6")) (unsupported_proto spec.proto))
        (λ _. after_family net api spec d) h1 in
    let (ip, e3, h3) = bind-eq-ok (guest_addr net d spec.child_ip) (ask api spec) h2 in
    let (rep, e4, h4) = bind-eq-ok (or_fail (api (forward spec ip)) api_failed) read_id h3 in
    let (no_error, given) = read_id-ok rep id h4 in
    record {
      ip = ip;
      rep = rep;
      accepted = ground arith;
      not_v6 = ground arith;
      address = e3;
      asked = ground arith;
      no_error = no_error;
      given = given;
    }

add_port-cases :
    (net : Net) (api : Api) (spec : Spec) (d : Driver)
    → ((id : ℤ) × (request_forward net api spec d ≡ ok id)
        × (add_port net api spec d ≡ (
          record d { ports = store id (record { id = id; spec = spec }) d.ports },
          ok (record { id = id; spec = spec }),
        )))
      ⊎ ((e : Error) × (add_port net api spec d ≡ (d, err e)))
unfolding add_port
add_port-cases net api spec d = elim (Result-cases (request_forward net api spec d)) [
  | inl (id, e) ↦ inl (id, e, rw (e, record_port))
  | inr (x, e) ↦ inr (x, rw (e, record_port))
]

-- A success stores the specification under the ID of the reply.
pub add_port-ok :
    (net : Net) (api : Api) (spec : Spec) (d : Driver) (st : Status)
    → (add_port net api spec d).1 ≡ ok st
    → (st ≡ record { id = st.id; spec = spec })
      × (request_forward net api spec d ≡ ok st.id)
      × ((add_port net api spec d).0 ≡ record d { ports = store st.id st d.ports })
add_port-ok net api spec d st h = elim (add_port-cases net api spec d) [
  | inl (id, e, done) ↦
      let same : st ≡ record { id = id; spec = spec } = ground arith in
      rw (same, done) (refl, e, refl)
  | inr (x, failed) ↦ absurd (ground arith)
]

add_port-Inv :
    (net : Net) (api : Api) (spec : Spec) (d : Driver) → Inv d → Inv (add_port net api spec d).0
add_port-Inv net api spec d v = elim (add_port-cases net api spec d) [
  | inl (id, e, done) ↦ rw done λ j st h.
      ground
        (arith, lookup-store id j (record { id = id; spec = spec }) d.ports, v j st, eq_ℤ_iff id j)
  | inr (x, failed) ↦ rw failed v
]

remove_port-Inv : (api : Api) (id : ℤ) (d : Driver) → Inv d → Inv (remove_port api id d).0
unfolding remove_port
remove_port-Inv api id d v j st h = ground (arith, lookup-delete id j d.ports, v j st)

remove_port-lookup :
    (api : Api) (id j : ℤ) (d : Driver)
    → (remove_port api id d).1 ≡ ok tt
    → lookup j (remove_port api id d).0.ports ≡ (if eq_ℤ id j then none else lookup j d.ports)
unfolding remove_port
remove_port-lookup api id j d h = ground (arith, lookup-delete id j d.ports)

-- The slirp4netns driver is a port manager, as long as slirp4netns gives no ID that is in use: an
-- addition that succeeds adds exactly one entry, under the ID of the reply and for the address
-- asked for, one that fails changes no entry, and a removal that succeeds drops exactly one.
pub manager-laws : (net : Net) → ManagerLaws (manager net) Inv GivesNewIds
manager-laws net = record {
  add-Inv = λ api spec d v new. add_port-Inv net api spec d v;
  remove-Inv = remove_port-Inv;
  add_fresh = λ api spec d st v new h.
      let f = request_forward-ok net api spec d st.id (add_port-ok net api spec d st h).1 in
      new _ f.rep st.id f.asked f.given;
  add_address = λ api spec d st h. rw (add_port-ok net api spec d st h).0 (refl, refl, refl);
  add_lookup =
      λ api spec d st j h. rw (add_port-ok net api spec d st h).2 (lookup-store st.id j st d.ports);
  add_failed = λ api spec d e v h j. ground (arith, add_port-cases net api spec d);
  remove_lookup = remove_port-lookup;
}

-- AddPort of the slirp4netns driver succeeds only with a specification that ValidatePortSpec
-- accepts and whose protocol does not end in "6"; the ID is that of the reply to a request for
-- the parent's address and the child's port, with the protocol less a "4" and, where the
-- specification names a child address, its IPv4 form.
pub add_port-forwards :
    (net : Net) (api : Api) (spec : Spec) (d : Driver) (st : Status)
    → (add_port net api spec d).1 ≡ ok st
    → Forwarded net api spec d st.id
add_port-forwards net api spec d st h =
    request_forward-ok net api spec d st.id (add_port-ok net api spec d st h).1

-- An addition by the slirp4netns driver that succeeds, where slirp4netns gives no ID that is in
-- use, stores the status it returns at an ID that was free, for the specification asked for;
-- every other entry is as before, and entries stay under their own IDs.
pub slirp_add :
    (net : Net) (api : Api) (spec : Spec) (d : Driver) (st : Status) (j : ℤ)
    → Inv d
    → GivesNewIds api spec d
    → (add_port net api spec d).1 ≡ ok st
    → (lookup st.id d.ports ≡ none)
      × (st.spec ≡ spec)
      × (lookup j (add_port net api spec d).0.ports
          ≡ (if eq_ℤ st.id j then some st else lookup j d.ports))
      × Inv (add_port net api spec d).0
slirp_add net api spec d st j v new h = (
  (manager-laws net).add_fresh api spec d st v new h,
  rw (add_port-ok net api spec d st h).0,
  (manager-laws net).add_lookup api spec d st j h,
  add_port-Inv net api spec d v,
)

-- An addition by the slirp4netns driver that fails leaves the driver as it was.
pub slirp_add_failed :
    (net : Net) (api : Api) (spec : Spec) (d : Driver) (e : Error)
    → (add_port net api spec d).1 ≡ err e
    → (add_port net api spec d).0 ≡ d
slirp_add_failed net api spec d e h = ground (arith, add_port-cases net api spec d)

-- ===== src/DockerProxy/Restores.antt =====
-- What the replacement of docker-proxy does to the ports.
use rootlesskit.Base.{
  any, Bool-cases, ℤ, eq_ℤ_iff, ◌≡◌, refl, sym, ◌∙◌, ◌⊎◌, inl, inr, true, not, none, some, arith,
  Result, ok, err, reject_if, wrap_err, Result-cases,
}
use rootlesskit.Text.{Bytes, str_eq}
use rootlesskit.Net.{Net}
use rootlesskit.Port.{Spec, Status}
use rootlesskit.Port.Table.{lookup, Same}
use rootlesskit.Port.Manager.{Manager, ManagerLaws}
use rootlesskit.Port.Validate.Accepts.{SameAddress}
use rootlesskit.Api.{Info, PortDriverInfo}
use rootlesskit.DockerProxy.{
  Flags, Error, Outcome, api_proto, check_supported, port_driver_protos, requested, call_api,
  finish_add, after_call, xmain, choose_child_ip, wants_real_proxy, unsupported, no_port_driver,
  add_failed, no_child_ip, nil_network_driver, proxy_failed,
}

module _ {S AddEnv RemoveEnv AddError RemoveError : Type 0}
    {m : Manager S AddEnv RemoveEnv AddError RemoveError} {Inv : S → Type 0}
    {Fair : AddEnv → Spec → S → Type 0} (laws : ManagerLaws m Inv Fair) (net : Net) where
  call_api-cases :
      (env : AddEnv) (info : Info) (flags : Flags) (ip : Bytes) (s : S)
      → (let spec = requested net flags.host_ip flags.host_port flags.proto ip in
          (check_supported {E = AddError} info spec.proto ≡ ok tt)
          × (call_api m net env info flags ip s ≡ finish_add m net (m.add env spec s)))
        ⊎ ((e : Error AddError) × (call_api m net env info flags ip s ≡ (s, err e)))
  unfolding call_api
  call_api-cases env info flags ip s =
      elim (Result-cases
        (check_supported {E = AddError} info (api_proto net flags.host_ip flags.proto))) [
          | inl (u, e) ↦ inl (e, rw (e, call_api))
          | inr (x, e) ↦ inr (x, rw (e, call_api))
        ]

  finish_add-ok :
      (r : S × Result AddError Status) (s' : S) (st : Status)
      → finish_add m net r ≡ (s', ok st)
      → (r.0 ≡ s') × (r.1 ≡ ok st)
  unfolding finish_add
  finish_add-ok (t, ok x) s' st h = ground arith
  finish_add-ok (t, err e) s' st h = absurd (ground arith)

  supported-driver :
      (info : Info) (d : PortDriverInfo) (proto : Bytes)
      → info.port_driver ≡ some d
      → check_supported {E = AddError} info proto ≡ ok tt
      → any (str_eq proto) d.protos ≡ true
  unfolding check_supported port_driver_protos
  supported-driver info d proto e h =
      let found : port_driver_protos {E = AddError} info ≡ ok (d.driver, d.protos) = rw e refl in
      let test : check_supported {E = AddError} info proto
          ≡ reject_if (not (any (str_eq proto) d.protos)) (unsupported proto d.driver) =
        rw e refl in
      ground (arith, h, test)

  -- Where the replacement of docker-proxy has a port added by a manager that keeps its laws, the
  -- driver has the protocol that was asked for, with its address family, and the port stands for
  -- the host's address, at an ID that was free.
  pub call_api-supported :
      (env : AddEnv) (info : Info) (d : PortDriverInfo) (flags : Flags) (ip : Bytes) (s s' : S)
      (st : Status)
      → info.port_driver ≡ some d
      → Inv s
      → Fair env (requested net flags.host_ip flags.host_port flags.proto ip) s
      → call_api m net env info flags ip s ≡ (s', ok st)
      → (any (str_eq (api_proto net flags.host_ip flags.proto)) d.protos ≡ true)
        × SameAddress st.spec (requested net flags.host_ip flags.host_port flags.proto ip)
        × (lookup st.id (m.ports s) ≡ none)
  call_api-supported env info d flags ip s s' st has_driver v fair h =
      elim (call_api-cases env info flags ip s) [
        | inl (supported, e) ↦
            let spec = requested net flags.host_ip flags.host_port flags.proto ip in
            let (same, done) = finish_add-ok (m.add env spec s) s' st (sym e ∙ h) in
            (
              supported-driver info d spec.proto has_driver supported,
              laws.add_address env spec s st done,
              laws.add_fresh env spec s st v fair done,
            )
        | inr (x, e) ↦ absurd (ground (arith, e, h))
      ]

  module _ (add_env : AddEnv) (remove_env : RemoveEnv)
      (proxy : S → S × Result (Error AddError) Outcome)
      (proxy-Inv : (t : S) → Inv t → Inv (proxy t).0)
      (proxy-Same : (t : S) → Same (m.ports (proxy t).0) (m.ports t))
      (can_remove : (id : ℤ) (st : Status) (t : S)
        → Inv t
        → lookup id (m.ports t) ≡ some st
        → (m.remove remove_env id t).1 ≡ ok tt) where
    removed :
        (spec : Spec) (s : S) (st : Status)
        → Inv s
        → Fair add_env spec s
        → (m.add add_env spec s).1 ≡ ok st
        → Same
            (m.ports (m.remove remove_env st.id (proxy (m.add add_env spec s).0).0).0)
            (m.ports s)
    removed spec s st v fair h j =
        let s1 = (m.add add_env spec s).0 in
        let there : lookup st.id (m.ports s1) ≡ some st =
          ground (arith, laws.add_lookup add_env spec s st st.id h, eq_ℤ_iff st.id st.id) in
        let s2 = (proxy s1).0 in
        let there2 : lookup st.id (m.ports s2) ≡ some st = proxy-Same s1 st.id ∙ there in
        let gone =
          laws.remove_lookup remove_env st.id j s2
            (can_remove st.id st s2 (proxy-Inv s1 (laws.add-Inv add_env spec s v fair)) there2) in
        ground (
          arith,
          gone,
          proxy-Same s1 j,
          laws.add_lookup add_env spec s st j h,
          laws.add_fresh add_env spec s st v fair h,
          eq_ℤ_iff st.id j,
        )

    after_call-err :
        (s : S) (e : Error AddError) → (after_call m net remove_env proxy (s, err e)).0 ≡ s
    unfolding after_call
    after_call-err s (unsupported p d) = refl
    after_call-err s no_port_driver = refl
    after_call-err s (add_failed x) = refl
    after_call-err s no_child_ip = refl
    after_call-err s nil_network_driver = refl
    after_call-err s proxy_failed = refl

    finished :
        (spec : Spec) (s : S) (r : Result AddError Status)
        → Inv s
        → Fair add_env spec s
        → (m.add add_env spec s).1 ≡ r
        → Same
            (m.ports
              (after_call m net remove_env proxy
                ((m.add add_env spec s).0, wrap_err add_failed r)).0)
            (m.ports s)
    unfolding after_call
    finished spec s (ok st) v fair h = removed spec s st v fair h
    finished spec s (err e) v fair h = laws.add_failed add_env spec s e v h

    -- Over a manager that keeps its laws, in a state that meets its invariant and its needs, the
    -- replacement of docker-proxy leaves the ports as they were, however it ends, if no one else
    -- changes them while the real proxy runs and a port that is there can be removed.
    pub xmain-restores :
        (info : Info) (flags : Flags) (s : S)
        → Inv s
        → ((spec : Spec) → Fair add_env spec s)
        → Same (m.ports (xmain m net add_env remove_env proxy info flags s).0) (m.ports s)
    unfolding xmain finish_add
    xmain-restores info flags s v fair = elim (Bool-cases (wants_real_proxy info)) [
      | inl w ↦ rw (w, xmain) (λ j. refl)
      | inr w ↦ elim (Result-cases (choose_child_ip {E = AddError} net info flags.host_ip)) [
        | inr (x, e) ↦ rw (w, e, xmain) (λ j. refl)
        | inl (ip, e) ↦
            rw (w, e, xmain)
              (elim (call_api-cases add_env info flags ip s) [
                | inr (x, f) ↦ rw (f, after_call-err s x) (λ j. refl)
                | inl (u, f) ↦
                    rw (f, finish_add)
                      (finished (requested net flags.host_ip flags.host_port flags.proto ip) s
                        (m.add add_env (requested net flags.host_ip flags.host_port flags.proto ip)
                          s).1
                        v (fair (requested net flags.host_ip flags.host_port flags.proto ip)) refl)
              ])
      ]
    ]

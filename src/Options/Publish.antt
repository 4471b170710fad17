-- ===== src/Options/Publish.antt =====
-- The ports that the command line publishes.
use rootlesskit.Base.{
  All, ◌≡◌, refl, subst, List, [], ◌∷◌, map, arith, Result, ok, err, ◌>>=◌, ◌>>◌, wrap_err,
  bind-eq-ok,
}
use rootlesskit.Text.{Bytes}
use rootlesskit.Net.{Net}
use rootlesskit.Port.{Spec}
use rootlesskit.Port.Parse.{Token, parse_port_spec}
use rootlesskit.Port.Validate.{validate_port_spec}
use rootlesskit.Options.{Flags}
use rootlesskit.Options.Parent.{
  System, Opt, Error, create_parent_opt, publish_ports, bad_publish, invalid_publish,
}
use rootlesskit.Options.Drivers.{create_parent_opt-Chosen}

wrap_err-ok {ℓ} :
    {E F : Type 0} {A : Type ℓ} (g : E → F) (r : Result E A) (a : A)
    → wrap_err g r ≡ ok a
    → r ≡ ok a
wrap_err-ok g (ok b) a h = ground arith
wrap_err-ok g (err e) a h = absurd (ground arith)

module _ (net : Net) (scan : Bytes → List Token) where
  abbrev checked : Spec → List Bytes → Result Error (List Spec)
  checked spec ss =
      wrap_err invalid_publish (validate_port_spec net spec [])
      >> (publish_ports net scan ss >>= λ specs. ok (spec ∷ specs))

  -- The specifications are parsed from the texts in their order, and each is valid by itself.
  abbrev pub AsPublished : List Bytes → List Spec → Type 0
  AsPublished texts specs =
      (map (parse_port_spec net scan) texts ≡ map ok specs)
      × All (λ s. validate_port_spec net s [] ≡ ok tt) specs

  publish_ports-AsPublished :
      (texts : List Bytes) (specs : List Spec)
      → publish_ports net scan texts ≡ ok specs
      → AsPublished texts specs
  unfolding publish_ports
  publish_ports-AsPublished [] specs h =
      let same : [] ≡ specs = ground arith in subst (AsPublished []) same (refl, tt)
  publish_ports-AsPublished (s ∷ ss) specs h =
      let (spec, e1, h1) =
        bind-eq-ok (wrap_err bad_publish (parse_port_spec net scan s)) (λ p. checked p ss) h in
      let (u, e2, h2) =
        bind-eq-ok (wrap_err invalid_publish (validate_port_spec net spec []))
          (λ _. publish_ports net scan ss >>= λ l. ok (spec ∷ l)) h1 in
      let (rest, e3, h3) = bind-eq-ok (publish_ports net scan ss) (λ l. ok (spec ∷ l)) h2 in
      let (parsed, valid) = publish_ports-AsPublished ss rest e3 in
      let same : spec ∷ rest ≡ specs = ground arith in
      subst (AsPublished (s ∷ ss)) same (
        rw (wrap_err-ok bad_publish (parse_port_spec net scan s) spec e1, parsed) refl,
        (wrap_err-ok invalid_publish (validate_port_spec net spec []) tt e2, valid),
      )

-- Options of the parent that are accepted publish the ports of the "publish" flags, in their
-- order, each parsed from its text and each valid by itself.
pub published_ports :
    (net : Net) (scan : Bytes → List Token) (sys : System) (f : Flags) (o : Opt)
    → create_parent_opt net scan sys f ≡ ok o
    → AsPublished net scan f.publish o.publish_ports
published_ports net scan sys f o h =
    publish_ports-AsPublished net scan f.publish o.publish_ports
      (create_parent_opt-Chosen net scan sys f o h).published

-- ===== src/Handshake/Queues.antt =====
-- What is in the pipes: the messages that one process still has to send are those that the other
-- still waits for, less those in the pipe between them.
use mathlib.Core.List.{append_assoc}
use rootlesskit.Base.{
  length, length-append, ◌≤◌, ◌≡◌, refl, ap, ◌∙◌, subst, Bool, true, false, List, [], ◌∷◌, ◌++◌,
  arith,
}
use rootlesskit.Handshake.{
  Kind, Action, send, wait, act, gain_caps, await_ports, await_exit, child_script, parent_script,
  set_up_id_map,
}
use rootlesskit.Handshake.System.{
  Side, parent, child, other, set, System, is_finished, start, Step, sends, receives, acts,
  executes, sees_ports, sees_exit,
}

unfoldable pub to_send : List Action → List Kind
to_send [] = []
to_send (send k ∷ r) = k ∷ to_send r
to_send (wait k ∷ r) = to_send r
to_send (act t ∷ r) = to_send r
to_send (gain_caps ∷ r) = to_send r
to_send (await_ports ∷ r) = to_send r
to_send (await_exit ∷ r) = to_send r

unfoldable pub to_receive : List Action → List Kind
to_receive [] = []
to_receive (send k ∷ r) = to_receive r
to_receive (wait k ∷ r) = k ∷ to_receive r
to_receive (act t ∷ r) = to_receive r
to_receive (gain_caps ∷ r) = to_receive r
to_receive (await_ports ∷ r) = to_receive r
to_receive (await_exit ∷ r) = to_receive r

abbrev pub Balanced : System → Type 0
Balanced s = (i : Side) → s.inbox i ++ to_send (s.rest (other i)) ≡ to_receive (s.rest i)

-- What one side has still to send is no more than what the other has still to receive.
pub Balanced-le :
    (s : System) (i : Side)
    → Balanced s
    → length (to_send (s.rest (other i))) ≤ length (to_receive (s.rest i))
Balanced-le s i b =
    omega (arith, length-append (s.inbox i) (to_send (s.rest (other i))), ap length (b i))

-- A call that neither sends nor receives.
pub skip-Balanced :
    (s : System) (i : Side) (r : List Action)
    → Balanced s
    → to_send (s.rest i) ≡ to_send r
    → to_receive (s.rest i) ≡ to_receive r
    → (j : Side) → s.inbox j ++ to_send (set i r s.rest (other j)) ≡ to_receive (set i r s.rest j)
skip-Balanced s parent r b es er parent = b parent ∙ er
skip-Balanced s parent r b es er child = rw (← es) (b child)
skip-Balanced s child r b es er parent = rw (← es) (b parent)
skip-Balanced s child r b es er child = b child ∙ er

-- A message leaves the sender's list for the pipe.
sent :
    (q w : List Kind) (k : Kind) (p r : List Action)
    → p ≡ send k ∷ r
    → q ++ to_send p ≡ w
    → (q ++ k ∷ []) ++ to_send r ≡ w
unfolding to_send
sent q w k p r e b = rw append_assoc (subst (λ x. q ++ to_send x ≡ w) e b)

-- The receiver's list loses the message that it takes from the pipe.
taken :
    (q rest w : List Kind) (k : Kind) (p r : List Action)
    → p ≡ wait k ∷ r
    → q ≡ k ∷ rest
    → q ++ w ≡ to_receive p
    → rest ++ w ≡ to_receive r
unfolding to_receive
taken q rest w k p r e f b = ground (arith, subst (λ x. x ++ w ≡ to_receive p) f b, e)

same_receive : (p r : List Action) (k : Kind) → p ≡ send k ∷ r → to_receive p ≡ to_receive r
unfolding to_receive
same_receive p r k e = rw e

same_send : (p r : List Action) (k : Kind) → p ≡ wait k ∷ r → to_send p ≡ to_send r
unfolding to_send
same_send p r k e = rw e

send-Balanced :
    (s : System) (i : Side) (k : Kind) (r : List Action)
    → Balanced s
    → s.rest i ≡ send k ∷ r
    → (j : Side)
    → set (other i) (s.inbox (other i) ++ k ∷ []) s.inbox j ++ to_send (set i r s.rest (other j))
      ≡ to_receive (set i r s.rest j)
send-Balanced s parent k r b e parent = b parent ∙ same_receive (s.rest parent) r k e
send-Balanced s parent k r b e child =
    sent (s.inbox child) (to_receive (s.rest child)) k (s.rest parent) r e (b child)
send-Balanced s child k r b e parent =
    sent (s.inbox parent) (to_receive (s.rest parent)) k (s.rest child) r e (b parent)
send-Balanced s child k r b e child = b child ∙ same_receive (s.rest child) r k e

receive-Balanced :
    (s : System) (i : Side) (k : Kind) (r : List Action) (q : List Kind)
    → Balanced s
    → s.rest i ≡ wait k ∷ r
    → s.inbox i ≡ k ∷ q
    → (j : Side)
    → set i q s.inbox j ++ to_send (set i r s.rest (other j)) ≡ to_receive (set i r s.rest j)
receive-Balanced s parent k r q b e f parent =
    taken (s.inbox parent) q (to_send (s.rest child)) k (s.rest parent) r e f (b parent)
receive-Balanced s parent k r q b e f child = rw (← same_send (s.rest parent) r k e) (b child)
receive-Balanced s child k r q b e f parent = rw (← same_send (s.rest child) r k e) (b parent)
receive-Balanced s child k r q b e f child =
    taken (s.inbox child) q (to_send (s.rest parent)) k (s.rest child) r e f (b child)

scripts_match :
    (d : Bool)
    → (to_send (child_script d false) ≡ to_receive (parent_script d))
      × (to_send (parent_script d) ≡ to_receive (child_script d false))
unfolding to_send to_receive parent_script child_script
scripts_match true = (refl, refl)
scripts_match false = (refl, refl)

pub start-Balanced :
    (d : Bool) (kernel : Bool → Bool) → kernel false ≡ false → Balanced (start d kernel)
unfolding start
start-Balanced d kernel k parent = rw k (scripts_match d).0
start-Balanced d kernel k child = rw k (scripts_match d).1

module _ (has_driver : Bool) (kernel : Bool → Bool) where
  -- Every call keeps the balance, if the re-execution continues with what follows it.
  pub Step-Balanced :
      (s t : System)
      → Balanced s
      → ((r : List Action)
          → s.rest child ≡ gain_caps ∷ r
          → child_script has_driver (kernel (is_finished set_up_id_map s)) ≡ r)
      → Step has_driver kernel s t
      → Balanced t
  unfolding to_send to_receive
  Step-Balanced s t b go_on (sends i k r a e) = send-Balanced s i k r b e
  Step-Balanced s t b go_on (receives i k r q a e f) = receive-Balanced s i k r q b e f
  Step-Balanced s t b go_on (acts i u r a e x) = skip-Balanced s i r b (rw e) (rw e)
  Step-Balanced s t b go_on (executes r a e) =
      skip-Balanced s child (child_script has_driver (kernel (is_finished set_up_id_map s))) b
        (rw (go_on r e, e)) (rw (go_on r e, e))
  Step-Balanced s t b go_on (sees_ports r a e f) = skip-Balanced s parent r b (rw e) (rw e)
  Step-Balanced s t b go_on (sees_exit r a e f g) = skip-Balanced s parent r b (rw e) (rw e)

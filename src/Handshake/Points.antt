-- ===== src/Handshake/Points.antt =====
-- Tests of a point of a script, that is of the calls still to come.
use rootlesskit.Base.{
  any, all, length, drop, ltb, ◌==◌, ℕ, zero, suc, ◌+◌, ◌≡◌, Bool, true, false, not, ◌&&◌, ◌||◌,
  List, [], ◌∷◌, arith,
}
use rootlesskit.Handshake.{
  Kind, Task, Action, wait, act, gain_caps, await_ports, await_exit, set_up_net, run_target,
  child_script, parent_script, set_up_id_map, configure_network, create_netns, mount_procfs,
  start_child_driver,
}
use rootlesskit.Handshake.System.{Side, parent, child, same_task}
use rootlesskit.Handshake.Queues.{to_send, to_receive}

unfoldable pub tails {ℓ} : {A : Type ℓ} → List A → List (List A)
tails [] = [] ∷ []
tails (x ∷ xs) = (x ∷ xs) ∷ tails xs

pub all-tails {ℓ} :
    {A : Type ℓ} (f : List A → Bool) (xs : List A)
    → all f (tails xs) ≡ true
    → (n : ℕ) → f (drop n xs) ≡ true
unfolding tails
all-tails f [] h zero = ground (arith, h)
all-tails f [] h (suc n) = ground (arith, h)
all-tails f (x ∷ xs) h zero = ground (arith, h)
all-tails f (x ∷ xs) h (suc n) = all-tails f xs (ground (arith, h)) n

pub drop-next {ℓ} :
    {A : Type ℓ} (n : ℕ) (xs r : List A) (x : A) → drop n xs ≡ x ∷ r → drop (suc n) xs ≡ r
drop-next zero [] r x e = absurd (ground arith)
drop-next zero (y ∷ xs) r x e = ground arith
drop-next (suc n) [] r x e = absurd (ground arith)
drop-next (suc n) (y ∷ xs) r x e = drop-next n xs r x e

unfoldable pub is_act : Task → Action → Bool
is_act t (act u) = same_task t u
is_act t _ = false

unfoldable pub has : Task → List Action → Bool
unfolding is_act
has t p = any (is_act t) p

abbrev pub script : Bool → Side → List Action
script d parent = parent_script d
script d child = child_script d false

-- A task that is no longer ahead once at most `n` messages are to be sent, or to be received.
unfoldable pub is_before : (List Action → List Kind) → ℕ → Task → List Action → Bool
is_before kinds n t p = ltb n (length (kinds p)) || not (has t p)

unfoldable pub waits : List Action → Bool
waits (wait k ∷ r) = true
waits _ = false

unfoldable pub awaits : List Action → Bool
awaits (await_ports ∷ r) = true
awaits (await_exit ∷ r) = true
awaits _ = false

unfoldable pub at_exec : List Action → Bool
at_exec (gain_caps ∷ r) = true
at_exec _ = false

unfoldable pub to_send_count : List Action → ℕ
to_send_count p = length (to_send p)

unfoldable pub to_receive_count : List Action → ℕ
to_receive_count p = length (to_receive p)

-- A parent that waits has one message more to send than to receive.
unfoldable pub parent_gap : List Action → Bool
parent_gap p = not (waits p) || to_send_count p == to_receive_count p + 1

-- A child that waits has nothing left to send, or two messages more to receive than to send.
unfoldable pub child_gap : List Action → Bool
child_gap c = not (waits c) || to_send_count c == 0 || to_receive_count c == to_send_count c + 2

-- The parent awaits ports and exit only after its last message; the child never.
unfoldable pub late : List Action → Bool
late p = not (awaits p) || to_send_count p == 0

-- By then the parent has received every message too.
unfoldable pub heard_all : List Action → Bool
heard_all p = not (awaits p) || to_receive_count p == 0

unfoldable pub never_awaits : List Action → Bool
never_awaits c = not (awaits c)

-- The child's tasks that rest on what the parent has done for it.
abbrev pub needs_parent : Task → Bool
needs_parent t = any (same_task t) (set_up_net ∷ start_child_driver ∷ run_target ∷ [])

unfoldable pub at_need : List Action → Bool
at_need (act t ∷ r) = needs_parent t
at_need _ = false

unfoldable pub prepared : List Action → Bool
prepared c = not (at_need c) || to_receive_count c == 0

unfoldable pub at_network : List Action → Bool
at_network (act t ∷ r) = same_task t configure_network
at_network _ = false

unfoldable pub configuring : List Action → Bool
configuring p = not (at_network p) || to_receive_count p == 0

unfoldable pub parent_checks : List Action → Bool
parent_checks p =
    is_before to_send 2 set_up_id_map p
    && is_before to_send 1 configure_network p
    && parent_gap p
    && late p
    && heard_all p
    && configuring p
    && not (at_exec p)

unfoldable pub child_checks : List Action → Bool
child_checks c =
    is_before to_send 0 create_netns c
    && is_before to_send 0 mount_procfs c
    && child_gap c
    && never_awaits c
    && prepared c

-- ===== src/Network/Addresses.antt =====
-- The addresses that a driver gives to the child, the gateway and the name server.
use native.Mathlib.Numerals.{towards_suc}
use rootlesskit.Base.{
  length, ltb, lt→ltb, pos, ◌+ℤ◌, ℕ, zero, suc, ◌+◌, ◌-◌, ◌*◌, ◌%◌, ◌^◌, ◌≤◌, ◌<◌, ◌≡◌, refl, sym,
  ap, ◌∙◌, ◌≢◌, true, some, List, ◌∷◌, arith, ok,
}
use rootlesskit.Text.{Bytes}
use rootlesskit.Calls.{Act, ◌>>=◌, pure, bind-ok}
use rootlesskit.Messages.{InitNetwork}
use rootlesskit.Options.{IpNet}
use rootlesskit.IpUtils.{uint32, put_uint32}
use rootlesskit.IpUtils.Numbers.{add_ip_int-bounds, uint32-put}
use rootlesskit.Network.{System, Call, Error, offset}
use rootlesskit.Network.Features.{Config}
use rootlesskit.Network.Slirp4netns.{message, message_with}

-- The first address of a network of IPv4 with `size` addresses.
pub record IsNet (ipnet : IpNet) (first size : ℕ) : Type 0 where
  pub four : length ipnet.ip ≡ 4
  pub number : uint32 ipnet.ip ≡ some first
  pub ends : first + size ≤ 2 ^ 32

add_pos : (n k : ℕ) → pos n +ℤ pos k ≡ pos (n + k)
unfolding ◌+ℤ◌
add_pos n k = ground arith

pub offset-ok :
    (ipnet : IpNet) (first size k : ℕ) (log : List Call)
    → IsNet ipnet first size
    → k < size
    → offset ipnet k log ≡ (ok (put_uint32 (first + k)), log)
unfolding offset
offset-ok ipnet first size k log n small =
    let sum =
      add_ip_int-bounds ipnet.ip first (first + k) (pos k) n.four n.number (add_pos first k)
        (omega (arith, n.ends)) in
    let fits : ltb (first + k) (2 ^ 32) ≡ true =
      lt→ltb (first + k) (2 ^ 32) (omega (arith, n.ends)) in
    rw sum.0 (rw fits refl)

-- An address of the network that a machine can have: not the first, and not the last.
abbrev pub IsHost : ℕ → ℕ → Bytes → Type 0
IsHost first size a = (n : ℕ) × (uint32 a ≡ some n) × (first < n) × (n + 1 < first + size)

offset-IsHost :
    (ipnet : IpNet) (first size k : ℕ)
    → IsNet ipnet first size
    → 0 < k
    → k + 1 < size
    → IsHost first size (put_uint32 (first + k))
offset-IsHost ipnet first size k n positive small =
    let same : (first + k) % 2 ^ 32 ≡ first + k = omega (arith, n.ends) in
    (first + k, uint32-put (first + k) ∙ ap some same, omega arith, omega arith)

differ : (n m : ℕ) → n < m → m < 2 ^ 32 → put_uint32 n ≢ put_uint32 m
differ n m less fits e =
    let numbers : some (n % 2 ^ 32) ≡ some (m % 2 ^ 32) =
      sym (uint32-put n) ∙ (ap uint32 e ∙ uint32-put m) in
    absurd (ground (arith, numbers))

pow_pos : (j : ℕ) → 1 ≤ 2 ^ j
pow_pos zero = omega arith
pow_pos (suc j) = let ih = pow_pos j in omega (arith, ih)

-- A prefix of at most 25 bits leaves 128 addresses.
prefix_size : (ones : ℕ) → ones ≤ 25 → 128 ≤ 2 ^ (32 - ones)
prefix_size ones h =
    let j = 25 - ones in
    let e : 32 - ones ≡ j + 7 = omega arith in
    let one = pow_pos j in
    let split : 2 ^ (j + 7) ≡ 128 * 2 ^ j = simp towards_suc (omega arith) in
    rw e (rw split (omega (arith, one)))

-- A driver that takes three addresses goes on with those of the network.
pub offsets-ok :
    {V : Type 0} (ipnet : IpNet) (first size j k l : ℕ) (log : List Call)
    (go : Bytes → Bytes → Bytes → Act Call Error (InitNetwork V))
    → IsNet ipnet first size
    → j < size
    → k < size
    → l < size
    → (offset ipnet j >>= λ a. offset ipnet k >>= λ b. offset ipnet l >>= λ c. go a b c) log
      ≡ go (put_uint32 (first + j)) (put_uint32 (first + k)) (put_uint32 (first + l)) log
offsets-ok ipnet first size j k l log go n hj hk hl =
    let pj = put_uint32 (first + j) in
    let pk = put_uint32 (first + k) in
    let third = λ (a b : Bytes). offset ipnet l >>= λ c. go a b c in
    let second = λ (a : Bytes). offset ipnet k >>= third a in
    bind-ok (offset ipnet j) second log (offset-ok ipnet first size j log n hj)
    ∙ (bind-ok (offset ipnet k) (third pj) log (offset-ok ipnet first size k log n hk)
        ∙ bind-ok (offset ipnet l) (go pj pk) log (offset-ok ipnet first size l log n hl))

-- The three addresses of a message: of the child, the gateway and the name server, at distances from
-- the first address of the network.
abbrev pub Three : {V : Type 0} → System → ℕ → ℕ → ℕ → ℕ → ℕ → InitNetwork V → Type 0
Three sys first size child gateway server msg =
    (a g s : Bytes) × (msg.ip ≡ sys.net.ip_string a)
    × (msg.gateway ≡ sys.net.ip_string g)
    × ((rest : List Bytes) × (msg.dns ≡ sys.net.ip_string s ∷ rest))
    × IsHost first size a
    × IsHost first size g
    × IsHost first size s
    × (uint32 a ≡ some (first + child))
    × (uint32 g ≡ some (first + gateway))
    × (uint32 s ≡ some (first + server))
    × (a ≢ g)
    × (a ≢ s)

-- On a network with a prefix of at most 25 bits, slirp4netns's driver makes its message without an
-- error: the addresses of the child, the gateway and the name server are the hundredth, the second
-- and the third behind that of the network; all are in the network, none is its first or its last,
-- and the child's is not one of the others.
pub message-Three :
    {V : Type 0} (sys : System) (d : Config) (ipnet : IpNet) (first ones : ℕ) (log : List Call)
    → ones ≤ 25
    → IsNet ipnet first (2 ^ (32 - ones))
    → (msg : InitNetwork V) × (message sys d (some ipnet) log ≡ (ok msg, log))
      × Three sys first (2 ^ (32 - ones)) 100 2 3 msg
unfolding message
message-Three {V} sys d ipnet first ones log prefix n =
    let size = 2 ^ (32 - ones) in
    let large = prefix_size ones prefix in
    let go : Bytes → Bytes → Bytes → Act Call Error (InitNetwork V) = λ a g s. pure (
      message_with d (sys.mask_size ipnet) (sys.net.ip_string a) (sys.net.ip_string g)
        (sys.net.ip_string s)) in
    let h100 = offset-IsHost ipnet first size 100 n (omega arith) (omega arith) in
    let h2 = offset-IsHost ipnet first size 2 n (omega arith) (omega arith) in
    let h3 = offset-IsHost ipnet first size 3 n (omega arith) (omega arith) in
    let fits : first + 100 < 2 ^ 32 = omega (arith, n.ends) in
    let text = λ (k : ℕ). sys.net.ip_string (put_uint32 (first + k)) in
    (
      message_with d (sys.mask_size ipnet) (text 100) (text 2) (text 3),
      offsets-ok ipnet first size 100 2 3 log go n (omega arith) (omega arith) (omega arith),
      (
        put_uint32 (first + 100),
        put_uint32 (first + 2),
        put_uint32 (first + 3),
        refl,
        refl,
        (_, refl),
        h100,
        h2,
        h3,
        uint32-at 100 fits,
        uint32-at 2 (omega arith),
        uint32-at 3 (omega arith),
        (λ e. differ (first + 2) (first + 100) (omega arith) fits (sym e)),
        (λ e. differ (first + 3) (first + 100) (omega arith) fits (sym e)),
      ),
    )
  where
    uint32-at : (k : ℕ) → first + k < 2 ^ 32 → uint32 (put_uint32 (first + k)) ≡ some (first + k)
    uint32-at k small =
        let same : (first + k) % 2 ^ 32 ≡ first + k = omega arith in
        uint32-put (first + k) ∙ ap some same

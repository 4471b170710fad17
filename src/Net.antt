-- ===== src/Net.antt =====
-- Go's package `net`, as far as the program uses it. An `IP` is a slice of bytes, as in Go. The
-- parser and the printer of addresses are parameters; what follows is on the bytes.
use rootlesskit.Base.{
  all, length, take, drop, ◌==◌, if◌then◌else◌, ℕ, Bool, true, false, ◌&&◌, Option, none, some, [],
  ◌∷◌,
}
use rootlesskit.Text.{Bytes}

pub record Net : Type 0 where
  -- `net.ParseIP(s)`; `nil` is `none`.
  pub parse_ip : Bytes → Option Bytes
  -- `ip.String()`.
  pub ip_string : Bytes → Bytes

abbrev all_zero : Bytes → Bool
all_zero = all λ b. b == 0

-- `ip.To4()`.
unfoldable pub to4 : Bytes → Option Bytes
to4 ip =
    if length ip == 4
    then some ip
    else if length ip == 16 && all_zero (take 10 ip) && all (λ b. b == 255) (take 2 (drop 10 ip))
    then some (drop 12 ip)
    else none

first_is : ℕ → Bytes → Bool
first_is n [] = false
first_is n (b ∷ bs) = b == n

-- `ip.IsLoopback()`.
unfoldable pub is_loopback : Bytes → Bool
unfolding to4 first_is
is_loopback ip = elim (to4 ip) [
  | some ip4 ↦ first_is 127 ip4
  | none ↦ length ip == 16 && all_zero (take 15 ip) && all (λ b. b == 1) (drop 15 ip)
]

-- `s != "" && net.ParseIP(s) == nil`.
abbrev pub is_bad_ip : Net → Bytes → Bool
is_bad_ip net [] = false
is_bad_ip net (c ∷ s) = elim (net.parse_ip (c ∷ s)) [ none ↦ true | some ip ↦ false ]

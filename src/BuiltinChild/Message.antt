-- ===== src/BuiltinChild/Message.antt =====
-- pkg/port/builtin/msg/msg.go: the request that the parent sends for a connection, and its retries.
use rootlesskit.Base.{
  ◌==◌, if◌then◌else◌, Bool-cases, ℤ, pos, ℕ, zero, suc, ◌+◌, ◌≤◌, ◌<◌, ◌≡◌, refl, sym, ap, ◌∙◌,
  ◌≢◌, ◌⊎◌, inl, inr, true, false, Option, none, some, List, [], ◌∷◌, arith, Result, ok, err, is_ok,
  Result-cases,
}
use rootlesskit.Text.{Bytes, codes}
use rootlesskit.Net.{Net, to4, is_loopback}
use rootlesskit.Port.{Spec}
use rootlesskit.Builtin.{Env, start_routine}
use rootlesskit.BuiltinChild.{Request, check_proto}

-- `hostGatewayIP`, of the addresses of the interfaces that are an IPNet.
unfoldable pub host_gateway_ip : Net → List Bytes → Bytes
host_gateway_ip net [] = []
host_gateway_ip net (ip ∷ ips) =
    let rest = host_gateway_ip net ips in
    if is_loopback ip then rest else elim (to4 ip) [ some ip4 ↦ net.ip_string ip | none ↦ rest ]

source_text : Net → Option (Bytes × ℤ) → Bytes
source_text net none = []
source_text net (some (ip, port)) = net.ip_string ip

source_number : Option (Bytes × ℤ) → ℤ
source_number none = pos 0
source_number (some (ip, port)) = port

-- The request of `ConnectToChild`; `source` is the address of a TCP client.
unfoldable pub connect_request : Net → List Bytes → Spec → Option (Bytes × ℤ) → Request
unfolding source_text source_number
connect_request net addrs spec source = record {
  type_name = codes "connect";
  proto = spec.proto;
  ip = spec.child_ip;
  port = spec.child_port;
  parent_ip = spec.parent_ip;
  host_gateway_ip = host_gateway_ip net addrs;
  source_ip = source_text net source;
  source_port = source_number source;
}

le-cases : (i j : ℕ) → i ≤ j → (i ≡ j) ⊎ (i < j)
le-cases i j h = elim (Bool-cases (i == j)) [
  | inl e ↦ inl (ground arith)
  | inr e ↦ inr (ground arith)
]

not_zero : (n : ℕ) → 0 < n → (n == 0) ≡ false
not_zero n h = ground arith

true_ne_false : true ≢ false
true_ne_false e = absurd (ground arith)

ok-injective : {E : Type 0} (r : Result E ℕ) (a b : ℕ) → r ≡ ok a → r ≡ ok b → a ≡ b
ok-injective r a b e f = ground arith

module _ {E : Type 0} (max_retry : E) (attempt : ℕ → Result E ℕ) where
  -- The loop of `ConnectToChildWithRetry` from `i`, with the number of rounds left.
  unfoldable pub retry_from : ℕ → ℕ → Result E ℕ
  retry_from i zero = err max_retry
  retry_from i (suc left) =
      let later = retry_from (suc i) left in
      elim (attempt i) [ ok fd ↦ ok fd | err e ↦ if left == 0 then err e else later ]

  -- `ConnectToChildWithRetry`.
  unfoldable pub connect_with_retry : ℕ → Result E ℕ
  unfolding retry_from
  connect_with_retry retries = retry_from 0 retries

  -- An attempt that has a result is the one that is looked for, or comes later.
  attempt-ok :
      (i j fd fd' : ℕ)
      → i ≤ j
      → (i < j → is_ok (attempt i) ≡ false)
      → attempt j ≡ ok fd
      → attempt i ≡ ok fd'
      → fd' ≡ fd
  attempt-ok i j fd fd' low fails works e = elim (le-cases i j low) [
    | inl same ↦ ok-injective (attempt i) fd' fd e (ap attempt same ∙ works)
    | inr below ↦ absurd (true_ne_false (sym (ap is_ok e) ∙ fails below))
  ]

  attempt-err : (i j fd : ℕ) (e : E) → i ≤ j → attempt j ≡ ok fd → attempt i ≡ err e → i < j
  attempt-err i j fd x low works e = elim (le-cases i j low) [
    | inl same ↦
        absurd
          (true_ne_false (sym (ap is_ok works) ∙ ap is_ok (sym (ap attempt same)) ∙ ap is_ok e))
    | inr below ↦ below
  ]

  retry_from-first :
      (i j left fd : ℕ)
      → i ≤ j
      → ((m : ℕ) → i ≤ m → m < j → is_ok (attempt m) ≡ false)
      → attempt j ≡ ok fd
      → j < i + left
      → retry_from i left ≡ ok fd
  unfolding retry_from
  retry_from-first i j zero fd low fails works room = absurd (omega arith)
  retry_from-first i j (suc left) fd low fails works room = elim (Result-cases (attempt i)) [
    | inl (fd', e) ↦
        rw (e, retry_from, attempt-ok i j fd fd' low (λ b. fails i (omega arith) b) works e) refl
    | inr (x, e) ↦
        let below = attempt-err i j fd x low works e in
        let later =
          retry_from-first (suc i) j left fd (omega arith) (λ m l h. fails m (omega arith) h) works
            (omega arith) in
        rw (e, retry_from, not_zero left (omega arith)) later
  ]

  -- ConnectToChildWithRetry returns the result of the first attempt that succeeds, if it is one
  -- of the retries.
  pub connect_with_retry-first :
      (k retries fd : ℕ)
      → ((j : ℕ) → j < k → is_ok (attempt j) ≡ false)
      → attempt k ≡ ok fd
      → k < retries
      → connect_with_retry retries ≡ ok fd
  unfolding connect_with_retry
  connect_with_retry-first k retries fd fails works room =
      retry_from-first 0 k retries fd (omega arith) (λ j low high. fails j high) works (omega arith)

-- A specification whose routine the parent's driver could start gives a request whose protocol
-- the child accepts.
pub connect_request-proto :
    (net : Net) (env : Env) (addrs : List Bytes) (spec : Spec) (source : Option (Bytes × ℤ))
    → start_routine env spec ≡ ok tt
    → check_proto (connect_request net addrs spec source).proto ≡ ok tt
unfolding start_routine check_proto connect_request
connect_request-proto net env addrs spec source h = ground arith

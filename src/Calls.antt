-- ===== src/Calls.antt =====
-- Go code that makes system calls and starts commands: what has been called so far, the newest call
-- first, is the state, and what a call answers depends on it. Every deterministic kernel is such
-- an `answer`. Errors leave the calls that were made.
use rootlesskit.Base.{
  ◌≡◌, refl, ap, subst, Bool, true, false, List, ◌∷◌, Result, ok, err, wrap_err, is_ok,
}
use rootlesskit.Text.{Bytes}

-- The text that a call gives back, empty where it gives none, or the text of its error.
abbrev pub Kernel : Type 0 → Type 0
Kernel C = List C → C → Result Bytes Bytes

abbrev pub Act : Type 0 → Type 0 → Type 0 → Type 0
Act C E A = List C → Result E A × List C

module _ {C E A : Type 0} where
  abbrev pub pure : A → Act C E A
  pure a log = (ok a, log)

  abbrev pub fail : E → Act C E A
  fail e log = (err e, log)

infixl 5 ◌>>=◌ ◌>>◌
abbrev pub ◌>>=◌ : {C E A B : Type 0} → Act C E A → (A → Act C E B) → Act C E B
◌>>=◌ m f log = let (r, log') = m log in elim r [ ok a ↦ f a log' | err e ↦ fail e log' ]

abbrev pub ◌>>◌ : {C E A B : Type 0} → Act C E A → Act C E B → Act C E B
m >> k = m >>= λ _. k

module _ {C E : Type 0} where
  -- `if err := c; err != nil { return wrap(err) }`.
  abbrev pub call : Kernel C → (Bytes → E) → C → Act C E Bytes
  call kernel wrap c log = (wrap_err wrap (kernel log c), c ∷ log)

  -- A call whose error is only logged: whether it succeeded.
  abbrev pub attempt : Kernel C → C → Act C E Bool
  attempt kernel c log = (ok (is_ok (kernel log c)), c ∷ log)

  abbrev pub fail_if : Bool → E → Act C E (Unit {0})
  fail_if true e = fail e
  fail_if false e = pure tt

  abbrev pub when : Bool → Act C E (Unit {0}) → Act C E (Unit {0})
  when true m = m
  when false m = pure tt

  abbrev pub done : {A : Type 0} → Act C E A → Act C E (Unit {0})
  done m = m >> pure tt

-- `defer c()`, whose error nobody looks at: the call is made however the action ends.
abbrev pub deferring : {C E A : Type 0} → C → Act C E A → Act C E A
deferring c m log = let (r, log') = m log in (r, c ∷ log')

-- A chain that succeeds has succeeded in its first part.
pub act-bind-ok :
    {C E A B : Type 0} (m : Act C E A) (f : A → Act C E B) (log : List C) {b : B} {log' : List C}
    → (m >>= f) log ≡ (ok b, log')
    → (a : A) × (mid : List C) × (m log ≡ (ok a, mid)) × (f a mid ≡ (ok b, log'))
act-bind-ok m f log {b} {log'} h = split (m log) refl h
  where
    split :
        (o : Result _ _ × List _)
        → m log ≡ o
        → (let (r, l) = o in elim r [ ok a ↦ f a l | err e ↦ fail e l ]) ≡ (ok b, log')
        → (a : _) × (mid : List _) × (m log ≡ (ok a, mid)) × (f a mid ≡ (ok b, log'))
    split (ok a, mid) e h = (a, mid, e, h)
    split (err x, mid) e h = cc

-- To prove something of the outcome of a chain, split on that of its first part.
pub act-bind {κ} :
    {C E A B : Type 0} (Q : Result E B × List C → Type κ) (m : Act C E A) (f : A → Act C E B)
    (log : List C)
    → ((a : A) (mid : List C) → m log ≡ (ok a, mid) → Q (f a mid))
    → ((e : E) (mid : List C) → m log ≡ (err e, mid) → Q (err e, mid))
    → Q ((m >>= f) log)
act-bind Q m f log good bad = split (m log) refl
  where
    split :
        (o : Result _ _ × List _)
        → m log ≡ o
        → Q (let (r, l) = o in elim r [ ok a ↦ f a l | err e ↦ fail e l ])
    split (ok a, mid) e = good a mid e
    split (err x, mid) e = bad x mid e

pub call-bind {κ} :
    {C E B : Type 0} (Q : Result E B × List C → Type κ) (kernel : Kernel C) (wrap : Bytes → E)
    (c : C) (f : Bytes → Act C E B) (log : List C)
    → ((text : Bytes) → kernel log c ≡ ok text → Q (f text (c ∷ log)))
    → ((text : Bytes) → kernel log c ≡ err text → Q (err (wrap text), c ∷ log))
    → Q ((call kernel wrap c >>= f) log)
call-bind Q kernel wrap c f log good bad = split (kernel log c) refl
  where
    split :
        (r : Result Bytes Bytes)
        → kernel log c ≡ r
        → Q (elim (wrap_err wrap r) [ ok a ↦ f a (c ∷ log) | err e ↦ fail e (c ∷ log) ])
    split (ok text) e = good text e
    split (err text) e = bad text e

-- What an action keeps true of the calls made so far, however it ends.
abbrev pub Keeps {κ} : {C E A : Type 0} → (List C → Type κ) → Act C E A → Type κ
Keeps P m = (log : List _) → P log → P (m log).1

pub bind-Keeps {κ} :
    {C E A B : Type 0} (P : List C → Type κ) (m : Act C E A) (f : A → Act C E B)
    → Keeps P m
    → ((a : A) → Keeps P (f a))
    → Keeps P (m >>= f)
bind-Keeps P m f first rest log h =
    act-bind (λ o. P o.1) m f log (λ a mid e. rest a mid (subst (λ o. P o.1) e (first log h)))
      (λ x mid e. subst (λ o. P o.1) e (first log h))

-- What an action keeps, in the state that it is known to end in.
pub kept {κ} :
    {C E A : Type 0} (P : List C → Type κ) (m : Act C E A) {log mid : List C} {r : Result E A}
    → Keeps P m
    → m log ≡ (r, mid)
    → P log
    → P mid
kept P m {log} keeps e h = subst (λ o. P o.1) e (keeps log h)

-- A chain that succeeds has succeeded in its first call.
pub call-bind-ok :
    {C E B : Type 0} (kernel : Kernel C) (wrap : Bytes → E) (c : C) (f : Bytes → Act C E B)
    (log : List C) {b : B} {log' : List C}
    → (call kernel wrap c >>= f) log ≡ (ok b, log')
    → (text : Bytes) × (kernel log c ≡ ok text) × (f text (c ∷ log) ≡ (ok b, log'))
call-bind-ok kernel wrap c f log {b} {log'} h = split (kernel log c) refl h
  where
    split :
        (r : Result Bytes Bytes)
        → kernel log c ≡ r
        → (elim (wrap_err wrap r) [ ok a ↦ f a (c ∷ log) | err e ↦ fail e (c ∷ log) ])
          ≡ (ok b, log')
        → (text : Bytes) × (kernel log c ≡ ok text) × (f text (c ∷ log) ≡ (ok b, log'))
    split (ok text) e h = (text, e, h)
    split (err text) e h = cc

pub fail_if-ok :
    {C E B : Type 0} (b : Bool) (e : E) (k : Act C E B) (log : List C) {x : B} {log' : List C}
    → (fail_if b e >> k) log ≡ (ok x, log')
    → (b ≡ false) × (k log ≡ (ok x, log'))
fail_if-ok true e k log h = cc
fail_if-ok false e k log h = (refl, h)

pub bind-ok :
    {C E A B : Type 0} (m : Act C E A) (f : A → Act C E B) (log : List C) {a : A} {mid : List C}
    → m log ≡ (ok a, mid)
    → (m >>= f) log ≡ f a mid
bind-ok m f log {a} {mid} e =
    ap (λ (o : Result _ _ × List _). let (r, l) = o in elim r [ ok a ↦ f a l | err x ↦ fail x l ]) e

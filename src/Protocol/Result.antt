-- ===== src/Protocol/Result.antt =====
-- The outcome of a check: a value or the text of Go's error. Of a long text the advice in brackets or
-- behind a semicolon is left out, and so is the time of day in the worktree conflict.
use agent_comms.Base.{
  ◌≡◌, refl, arith, String, Bool, true, false, not, ◌&&◌, ◌||◌, Option, none, some,
}
use agent_comms.Model.Payloads.{Payload}

pub data Result {ℓ} (V : Type ℓ) : Type ℓ where
  err : String → Result V
  ok : V → Result V

-- The next check runs on the value of an accepted one.
infixl 5 ◌>>◌ ◌>>=◌
abbrev pub ◌>>=◌ {ℓ κ} : {V : Type ℓ} {W : Type κ} → Result V → (V → Result W) → Result W
err message >>= next = err message
ok v >>= next = next v

abbrev pub ◌>>◌ {ℓ} : {W : Type ℓ} → Result (Unit {0}) → Result W → Result W
check >> rest = check >>= λ done. rest

-- `if test { return nil, errors.New(message) }`
abbrev pub reject_if : Bool → String → Result (Unit {0})
reject_if true e = err e
reject_if false e = ok tt

-- `v, ok := …; if !ok { return nil, errors.New(message) }`
abbrev pub found {ℓ} : {A : Type ℓ} → Option A → String → Result A
found none e = err e
found (some a) e = ok a

-- The libraries behind the program: the JSON encoding of an approval's subject, SHA-256 as a text of
-- hexadecimal digits, and the base64 decoder.
pub record Platform : Type 0 where
  pub subject_json : String → String → String → Payload → String
  pub sha256_hex : String → String
  pub base64_decode : String → String

-- Inversion of an accepted chain.
pub bind_ok {ℓ κ} :
    {V : Type ℓ} {W : Type κ} (r : Result V) (next : V → Result W) {w : W}
    → (r >>= next) ≡ ok w
    → (v : V) × (r ≡ ok v) × (next v ≡ ok w)
bind_ok (err message) next h = cc
bind_ok (ok v) next h = (v, refl, h)

pub then_ok {ℓ} :
    {W : Type ℓ} (check : Result (Unit {0})) (rest : Result W) {w : W}
    → (check >> rest) ≡ ok w
    → (check ≡ ok tt) × (rest ≡ ok w)
then_ok (err message) rest h = cc
then_ok (ok tt) rest h = (refl, h)

pub reject_if_ok : (test : Bool) (e : String) → reject_if test e ≡ ok tt → test ≡ false
reject_if_ok true e h = cc
reject_if_ok false e h = refl

pub found_ok {ℓ} : {A : Type ℓ} (o : Option A) (e : String) {a : A} → found o e ≡ ok a → o ≡ some a
found_ok none e h = cc
found_ok (some a) e h = ground arith

pub ok-injective {ℓ} : {A : Type ℓ} {a b : A} → ok a ≡ ok b → a ≡ b
ok-injective h = cc

-- Tests written as `!a` and as `!a && !b`.
pub require_ok : (a : Bool) (e : String) → reject_if (not a) e ≡ ok tt → a ≡ true
require_ok true e h = refl
require_ok false e h = cc

pub either_ok : (a b : Bool) (e : String) → reject_if (not a && not b) e ≡ ok tt → (a || b) ≡ true
either_ok true b e h = refl
either_ok false true e h = refl
either_ok false false e h = cc

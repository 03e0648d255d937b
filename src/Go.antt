-- ===== src/Go.antt =====
-- How the model reads Go's control flow: `error` values, calls that change an outside world, and
-- `defer`. The world is what the OpenStack services hold; each call gets it and gives it back.
use mathlib.Core.Bool.{false≢true}
use cloud_provider_openstack.Prelude.{
  ◌≡◌, refl, ap, Bool, true, false, Option, none, some, String, if◌then◌else◌, sym, ℕ, suc, zero,
  arith,
}

-- pkg/util/errors/errors.go, and the errors that OpenStack's API or `fmt.Errorf` make. `not_found` is
-- ErrNotFound, and an answer of the API that `IsNotFound` takes for one; where the source compares
-- with ErrNotFound by identity, `by_identity` keeps the two apart.
pub data Error : Type 0 where
  not_found multiple_results no_address_found no_router_id no_node_informer : Error
  api : String → Error
  message : String → Error
  -- an answer of the API that `IsConflictError` takes for a conflict
  conflict : Error
  -- an answer of the API that `IsInvalidError` takes for a bad request
  bad_request : Error
  -- the end of a wait whose steps are used up
  timed_out : Error
  -- a runtime panic, which no caller catches
  panicked : Error

-- A value, or the error that the caller must look at first.
pub data Result (A : Type 0) : Type 0 where
  ok : A → Result A
  err : Error → Result A

abbrev pub Exec : Type 0 → Type 0 → Type 0
Exec W A = W → Result A × W

module _ {W : Type 0} {A : Type 0} where
  abbrev pub pure : A → Exec W A
  pure a w = (ok a, w)

  abbrev pub fail : Error → Exec W A
  fail e w = (err e, w)

module _ {W : Type 0} {A B : Type 0} where
  abbrev pub continue : Result A → (A → Exec W B) → Exec W B
  continue (ok a) f w = f a w
  continue (err e) f w = (err e, w)

  -- `x, err := m(); if err != nil { return err }`
  infixl 5 ◌>>=◌
  abbrev pub ◌>>=◌ : Exec W A → (A → Exec W B) → Exec W B
  ◌>>=◌ m f w = let (r, w') = m w in continue r f w'

infixl 5 ◌>>◌
abbrev pub ◌>>◌ : {W : Type 0} {B : Type 0} → Exec W (Unit {0}) → Exec W B → Exec W B
◌>>◌ m k = m >>= λ _. k

-- What a function with `onFailure := newCaller()` has at a return: its error, and whether the
-- caller is still armed.
pub record Outcome : Type 0 where
  pub error : Option Error
  pub armed : Bool

abbrev pub failed : Option Error → Bool
failed none = false
failed (some _) = true

abbrev pub Body : Type 0 → Type 0
Body W = W → Outcome × W

module _ {W : Type 0} where
  -- `return err`
  abbrev pub return_err : Error → Body W
  return_err e w = (record { error = some e; armed = true }, w)

  -- `return nil`, with the caller armed
  abbrev pub return_nil : Body W
  return_nil w = (record { error = none; armed = true }, w)

  -- `onFailure.disarm(); return nil`
  abbrev pub disarm_return : Body W
  disarm_return w = (record { error = none; armed = false }, w)

  -- `defer onFailure.call(unwind)`, and the rest of the function
  abbrev pub defer_call : (W → W) → Body W → Body W
  defer_call unwind rest w = let (o, w') = rest w in (o, if o.armed then unwind w' else w')

  -- The outcome of a function is the error alone.
  abbrev pub run_body : Body W → W → Option Error × W
  run_body body w = let (o, w') = body w in (o.error, w')

module _ {W : Type 0} {A : Type 0} where
  abbrev pub continue_body : Result A → (A → Body W) → Body W
  continue_body (ok a) f w = f a w
  continue_body (err e) f w = return_err e w

  -- `x, err := m(); if err != nil { return err }`
  abbrev pub try : Exec W A → (A → Body W) → Body W
  try m f w = let (r, w') = m w in continue_body r f w'

  -- A postcondition of `try` follows from one for each answer of the call.
  pub try_rule :
      (Q : Outcome × W → Type 0) (m : Exec W A) (f : A → Body W) (w : W)
      → ((a : A) → (m w).0 ≡ ok a → Q (f a (m w).1))
      → ((e : Error) → (m w).0 ≡ err e → Q (return_err e (m w).1))
      → Q (try m f w)
  try_rule Q m f w good bad = by_answer (m w).0 good bad
    where
      by_answer :
          (r : Result A)
          → ((a : A) → r ≡ ok a → Q (f a (m w).1))
          → ((e : Error) → r ≡ err e → Q (return_err e (m w).1))
          → Q (continue_body r f (m w).1)
      by_answer (ok a) g b = g a refl
      by_answer (err e) g b = b e refl

module _ {W : Type 0} {A B : Type 0} where
  -- A postcondition of a call and what follows it.
  pub bind_rule :
      (Q : Result B × W → Type 0) (m : Exec W A) (f : A → Exec W B) (w : W)
      → ((a : A) → (m w).0 ≡ ok a → Q (f a (m w).1))
      → ((e : Error) → Q (err e, (m w).1))
      → Q ((m >>= f) w)
  bind_rule Q m f w good bad = by_answer (m w).0 good
    where
      by_answer : (r : Result A) → ((a : A) → r ≡ ok a → Q (f a (m w).1)) → Q (continue r f (m w).1)
      by_answer (ok a) g = g a refl
      by_answer (err e) g = bad e

-- Whether a result is a value.
abbrev pub is_ok : {A : Type 0} → Result A → Bool
is_ok (ok a) = true
is_ok (err e) = false

pub ok-injective : {A : Type 0} {a b : A} → ok a ≡ ok b → a ≡ b
ok-injective {a = a} h = ap (λ r. elim r [ ok x ↦ x | err e ↦ a ]) h

pub is_ok_value : {A : Type 0} (r : Result A) → is_ok r ≡ true → (a : A) × (r ≡ ok a)
is_ok_value (ok a) h = (a, refl)
is_ok_value (err e) h = absurd (false≢true h)

-- A call fails if what follows it always fails, or if it fails itself.
pub fails_then :
    {W A B : Type 0} (m : Exec W A) (next : A → Exec W B) (w : W)
    → ((a : A) (u : W) → is_ok (next a u).0 ≡ false)
    → is_ok ((m >>= next) w).0 ≡ false
fails_then m next w fails = elim (m w).0 as (λ r. is_ok (continue r next (m w).1).0 ≡ false) [
  | ok a ↦ fails a (m w).1
  | err e ↦ refl
]

pub fails_first :
    {W A B : Type 0} (m : Exec W A) (next : A → Exec W B) (w : W)
    → is_ok (m w).0 ≡ false
    → is_ok ((m >>= next) w).0 ≡ false
fails_first m next w h = by_answer (m w).0 h
  where
    by_answer : (r : Result _) → is_ok r ≡ false → is_ok (continue r next (m w).1).0 ≡ false
    by_answer (ok a) e = absurd (false≢true (sym e))
    by_answer (err e) h = refl

module _ {W : Type 0} where
  -- What wait.ExponentialBackoff documents: the condition is asked at most as often as there are
  -- steps, until it holds or has an error. The pauses are not modelled.
  unfoldable pub poll : ℕ → Exec W Bool → Exec W Unit
  poll zero condition = fail timed_out
  poll (suc n) condition = condition >>= λ done. if done then pure tt else poll n condition

-- `fmt.Errorf("...: %v", err)`: what an error was is lost
abbrev pub with_error : {A : Type 0} → Error → Result A → Result A
with_error e (ok a) = ok a
with_error e (err _) = err e

pub with_error-ok :
    {A : Type 0} (e : Error) (r : Result A) (a : A) → with_error e r ≡ ok a → r ≡ ok a
with_error-ok e (ok b) a h = h
with_error-ok e (err k) a h = ground (arith, h)

abbrev pub reworded : {W A : Type 0} → Error → Exec W A → Exec W A
reworded e m w = let (r, w') = m w in (with_error e r, w')

-- A request whose error is compared with ErrNotFound by identity: an answer "not found" of the API is
-- another error.
abbrev pub not_sentinel : {A : Type 0} → Result A → Result A
not_sentinel (ok a) = ok a
not_sentinel (err not_found) = err (api "not found")
not_sentinel (err e) = err e

abbrev pub by_identity : {W A : Type 0} → Exec W A → Exec W A
by_identity m w = let (r, w') = m w in (not_sentinel r, w')

-- `if wait.Interrupted(err) { err = fmt.Errorf(...) }`
abbrev pub with_timeout : Error → Result Unit → Result Unit
with_timeout e (err timed_out) = err e
with_timeout e r = r

abbrev pub or_timeout : {W : Type 0} → String → Exec W Unit → Exec W Unit
or_timeout text m w = let (r, w') = m w in (with_timeout (message text) r, w')

-- A postcondition of a branch.
pub if_rule :
    {A : Type 0} {W : Type 0} (Q : A × W → Type 0) (b : Bool) (x y : W → A × W) (w : W)
    → (b ≡ true → Q (x w))
    → (b ≡ false → Q (y w))
    → Q ((if b then x else y) w)
if_rule Q true x y w h k = h refl
if_rule Q false x y w h k = k refl

-- ===== src/Failures.antt =====
-- What a call of the program may end in besides a value: the exceptions that the service throws,
-- a failed `assert`, and undefined behaviour that the models make visible.
use iqoption_test_task.Prelude.{ℕ, ◌≡◌, refl, ◌⊎◌, inl, inr, Bool, true, false}

pub data Failure : Type 0 where
  -- BinaryIStream::storage_underflow
  storage_underflow : Failure
  -- MessageBuilder::message_code_unrecognized
  message_code_unrecognized : ℕ → Failure
  -- transport_error_recoverable
  transport_error_recoverable : Failure
  -- std::length_error, from a vector asked for an absurd size
  length_error : Failure
  assertion_failed : Failure
  null_dereference : Failure
  -- the end of a function that has a result and no return statement
  undefined_behaviour : Failure
  -- throw ""
  thrown_text : Failure

pub data Result {ℓ} (A : Type ℓ) : Type ℓ where
  ok : A → Result A
  throws : Failure → Result A

-- An exception passes by what would come next.
infixl 5 ◌>>=◌
abbrev pub ◌>>=◌ {ℓ κ} : {S : Type ℓ} {T : Type κ} → Result S → (S → Result T) → Result T
ok s >>= next = next s
throws e >>= next = throws e

-- `assert(b)`, in a build that keeps assertions (CMakeLists.txt sets no NDEBUG).
abbrev pub assert : Bool → Result (Unit {0})
assert true = ok tt
assert false = throws assertion_failed

infixl 5 ◌>>◌
abbrev pub ◌>>◌ {ℓ} : {T : Type ℓ} → Result (Unit {0}) → Result T → Result T
checked >> next = checked >>= λ _. next

-- What came first when the whole succeeded.
pub >>=-eq-ok {ℓ κ} :
    {S : Type ℓ} {T : Type κ} (first : Result S) (next : S → Result T) {t : T}
    → (first >>= next) ≡ ok t
    → (s : S) × (first ≡ ok s) × (next s ≡ ok t)
>>=-eq-ok (ok s) next h = (s, refl, h)
>>=-eq-ok (throws e) next h = cc

pub Result-cases {ℓ} :
    {A : Type ℓ} (r : Result A) → ((a : A) × (r ≡ ok a)) ⊎ ((e : Failure) × (r ≡ throws e))
Result-cases (ok a) = inl (a, refl)
Result-cases (throws e) = inr (e, refl)

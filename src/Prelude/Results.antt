-- ===== src/Prelude/Results.antt =====
-- `Result<A, E>`, with the operations that the source chains by `?`.
use mathlib.Core.Path.{◌≡◌, refl, subst}
use mathlib.Core.Logic.{◌↔◌, inl, inr}
use native.Mathlib.Omega.{arith}
use mathlib.Core.Bool.{Bool, true, false}
use mathlib.Core.Option.{Option, none, some}
use canonical_api_server_rs.Prelude.Tests.{if◌then◌else◌, Bool-cases}

pub data Result (E A : Type 0) : Type 0 where
  ok : A → Result E A
  err : E → Result E A

infixl 5 ◌>>=◌ ◌>>◌
abbrev pub ◌>>=◌ : {E A B : Type 0} → Result E A → (A → Result E B) → Result E B
err failure >>= next = err failure
ok value >>= next = next value

abbrev pub ◌>>◌ : {E B : Type 0} → Result E (Unit {0}) → Result E B → Result E B
m >> k = m >>= λ _. k

-- `if bad { return Err(e) }`
abbrev pub fail_if : {E : Type 0} → Bool → E → Result E (Unit {0})
fail_if true e = err e
fail_if false e = ok tt

-- `Option::ok_or`
abbrev pub ok_or : {E A : Type 0} → Option A → E → Result E A
ok_or none e = err e
ok_or (some a) e = ok a

-- `Result::map_err(|_| e)`
abbrev pub map_err : {E F A : Type 0} → F → Result E A → Result F A
map_err f (ok a) = ok a
map_err f (err e) = err f

abbrev pub bind_option {ℓ κ} : {A : Type ℓ} {B : Type κ} → Option A → (A → Option B) → Option B
bind_option none f = none
bind_option (some a) f = f a

-- `Option::filter`
abbrev pub keep_if {ℓ} : {A : Type ℓ} → (A → Bool) → Option A → Option A
keep_if p none = none
keep_if p (some a) = elim (p a) [ true ↦ some a | false ↦ none ]

-- `Option::is_some_and`
abbrev pub is_some_and {ℓ} : {A : Type ℓ} → (A → Bool) → Option A → Bool
is_some_and p none = false
is_some_and p (some a) = p a

abbrev pub is_some {ℓ} : {A : Type ℓ} → Option A → Bool
is_some none = false
is_some (some a) = true

pub some_injective : {A : Type 0} {a b : A} → some a ≡ some b → a ≡ b
some_injective h = cc

abbrev pub IfSome {ℓ κ} : {A : Type ℓ} → (A → Type κ) → Option A → Type κ
IfSome P none = Unit
IfSome P (some a) = P a

pub IfSome-eq-some :
    {A : Type 0} (P : A → Type 0) (o : Option A) {a : A} → IfSome P o → o ≡ some a → P a
IfSome-eq-some P none h e = cc
IfSome-eq-some P (some b) h e = subst P (some_injective e) h

-- Inversion of a successful bind, for proofs where the parts stay shut.
pub >>=-eq-ok :
    {E A B : Type 0} (first : Result E A) (next : A → Result E B) {result : B}
    → (first >>= next) ≡ ok result
    → (value : A) × (first ≡ ok value) × (next value ≡ ok result)
>>=-eq-ok (err failure) next h = cc
>>=-eq-ok (ok value) next h = (value, refl, h)

pub >>-eq-ok :
    {E B : Type 0} (m : Result E (Unit {0})) (k : Result E B) {b : B}
    → (m >> k) ≡ ok b
    → (m ≡ ok tt) × (k ≡ ok b)
>>-eq-ok (ok u) k h = (refl, h)
>>-eq-ok (err e) k h = cc

pub fail_if-eq-ok : {E : Type 0} (b : Bool) (e : E) {u : Unit {0}} → fail_if b e ≡ ok u → b ≡ false
fail_if-eq-ok true e h = cc
fail_if-eq-ok false e h = refl

pub ok_or-eq-ok : {E A : Type 0} (o : Option A) (e : E) {a : A} → ok_or o e ≡ ok a → o ≡ some a
ok_or-eq-ok none e h = cc
ok_or-eq-ok (some a) e h = cc

-- Every error that `m` may give satisfies `P`.
module _ {E : Type 0} (P : E → Type 0) where
  abbrev pub OnlyErr : {A : Type 0} → Result E A → Type 0
  OnlyErr (ok a) = Unit
  OnlyErr (err e) = P e

  pub >>=-OnlyErr :
      {A B : Type 0} (m : Result E A) (f : A → Result E B)
      → OnlyErr m
      → ((a : A) → OnlyErr (f a))
      → OnlyErr (m >>= f)
  >>=-OnlyErr (ok a) f h k = k a
  >>=-OnlyErr (err e) f h k = h

  pub ok_or-OnlyErr : {A : Type 0} (o : Option A) (e : E) → P e → OnlyErr (ok_or o e)
  ok_or-OnlyErr none e p = p
  ok_or-OnlyErr (some a) e p = tt

  pub fail_if-OnlyErr : (b : Bool) (e : E) → P e → OnlyErr (fail_if b e)
  fail_if-OnlyErr true e p = p
  fail_if-OnlyErr false e p = tt

  pub if-OnlyErr :
      {A : Type 0} (b : Bool) (m k : Result E A)
      → OnlyErr m
      → OnlyErr k
      → OnlyErr (if b then m else k)
  if-OnlyErr true m k h j = h
  if-OnlyErr false m k h j = j

pub ok_injective : {E A : Type 0} {a b : A} → ◌≡◌ {A = Result E A} (ok a) (ok b) → a ≡ b
ok_injective h = cc

pub keep_if-eq-some :
    {A : Type 0} (p : A → Bool) (o : Option A) (a : A)
    → (keep_if p o ≡ some a) ↔ ((o ≡ some a) × (p a ≡ true))
keep_if-eq-some p none a = ground arith
keep_if-eq-some p (some b) a = elim (Bool-cases (p b)) [
  | inl e ↦ rw (e, keep_if) ((λ h. (h, subst (λ x. p x ≡ true) (some_injective h) e)), λ h. h.0)
  | inr e ↦ rw (e, keep_if) ((λ h. cc), λ (k, q). let same = some_injective k in cc)
]

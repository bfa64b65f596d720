-- ===== src/Base/Result.antt =====
-- `syscall::error::Result` and state passing. `panic` is what a failed `unwrap`, `expect` or
-- assertion does. An error leaves the state as it was when the error was returned.
use mathlib.Core.Path.{◌≡◌, refl}
use mathlib.Core.Logic.{◌⊎◌, inl, inr}
use mathlib.Core.Option.{Option, none, some}

-- The error numbers of the system-call crate, by name.
pub data Error : Type 0 where
  ebadf eacces einval enoent eexist eagain ewouldblock epipe eio erange enotdir enomem : Error
  enfile ebadfd eisdir enotempty enosys eoverflow eopnotsupp eperm enodev eintr ecanceled : Error

pub data Result {ℓ} (A : Type ℓ) : Type ℓ where
  ok : A → Result A
  err : Error → Result A
  panic : Result A

abbrev pub ok_or {ℓ} : {A : Type ℓ} → Option A → Error → Result A
ok_or none e = err e
ok_or (some a) e = ok a

abbrev pub expect {ℓ} : {A : Type ℓ} → Option A → Result A
expect none = panic
expect (some a) = ok a

abbrev pub Exec {ℓ} : Type ℓ → Type ℓ → Type ℓ
Exec S A = S → Result A × S

abbrev pub and_then {ℓ} : {S A B : Type ℓ} → Result A → (A → Exec S B) → Exec S B
and_then (ok a) f s = f a s
and_then (err e) f s = (err e, s)
and_then panic f s = (panic, s)

infixl 5 ◌>>=◌ ◌>>◌
abbrev pub ◌>>=◌ {ℓ} : {S A B : Type ℓ} → Exec S A → (A → Exec S B) → Exec S B
◌>>=◌ m f s = and_then (m s).0 f (m s).1

abbrev pub ◌>>◌ {ℓ} : {S A B : Type ℓ} → Exec S A → Exec S B → Exec S B
◌>>◌ m f s = and_then (m s).0 (λ _. f) (m s).1

abbrev pub lift {ℓ} : {S A : Type ℓ} → Result A → Exec S A
lift r s = (r, s)

abbrev pub gets {ℓ} : {S A : Type ℓ} → (S → A) → Exec S A
gets f s = (ok (f s), s)

abbrev pub modify : {S : Type 0} → (S → S) → Exec S (Unit {0})
modify f s = (ok tt, f s)

pub Result-cases {ℓ} :
    {A : Type ℓ} (r : Result A)
    → ((a : A) × (r ≡ ok a)) ⊎ (((e : Error) × (r ≡ err e)) ⊎ (r ≡ panic))
Result-cases (ok a) = inl (a, refl)
Result-cases (err e) = inr (inl (e, refl))
Result-cases panic = inr (inr refl)

-- To show something of a chain: of the rest of it for each value that its first step gives, and of
-- the error that ends it there.
pub and_then-ensures {ℓ κ} :
    {S A B : Type ℓ} (Q : Result B × S → Type κ) (r : Result A) (k : A → Exec S B) (s : S)
    → ((e : Error) → Q (err e, s))
    → Q (panic, s)
    → ((a : A) → r ≡ ok a → Q (k a s))
    → Q (and_then r k s)
and_then-ensures Q (ok a) k s fails panics rest = rest a refl
and_then-ensures Q (err e) k s fails panics rest = fails e
and_then-ensures Q panic k s fails panics rest = panics

-- What a chain keeps of the state.
pub and_then-keeps {ℓ κ} :
    {S A B : Type ℓ} (P : S → Type κ) (r : Result A) (k : A → Exec S B) (s : S)
    → P s
    → ((a : A) → r ≡ ok a → P (k a s).1)
    → P (and_then r k s).1
and_then-keeps P (ok a) k s p rest = rest a refl
and_then-keeps P (err e) k s p rest = p
and_then-keeps P panic k s p rest = p

pub ok_or-some {ℓ} : {A : Type ℓ} (o : Option A) (e : Error) (a : A) → ok_or o e ≡ ok a → o ≡ some a
ok_or-some none e a h = absurd (cc)
ok_or-some (some b) e a h = cc

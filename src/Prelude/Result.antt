-- ===== src/Prelude/Result.antt =====
-- The error codes that the modelled functions return, negated in C, and a result that carries one.

pub data Errno : Type 0 where
  einval enomem eoverflow enobufs enostr eagain emsgsize eprotonosupport efault : Errno

pub data Result {ℓ} (A : Type ℓ) : Type ℓ where
  err : Errno → Result A
  ok : A → Result A

-- The first error ends a chain.
infixl 5 ◌>>=◌
abbrev pub ◌>>=◌ {ℓ ℓ'} :
    {A : Type ℓ} {B : Type ℓ'} (first : Result A) (next : A → Result B) → Result B
err e >>= next = err e
ok a >>= next = next a

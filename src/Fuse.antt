-- ===== src/Fuse.antt =====
-- The calls that the handlers make into libfuse, and how a handler ends. libfuse itself is not
-- part of the program: a call is recorded, with the arguments that the program computes.
use vuinputd.Prelude.{ℕ, ◌≡◌, ◌⊎◌, inl, inr, refl, List}

-- The error numbers that the handlers name, and the error of an operation of the kernel.
pub data Errno : Type 0 where
  eio eagain enoent ebadrqc : Errno
  success : Errno

-- A poll handle is known by its address.
pub data FuseCall : Type 0 where
  reply_open : ℕ → FuseCall
  reply_write : ℕ → FuseCall
  reply_err : Errno → FuseCall
  reply_buf : List ℕ → FuseCall
  reply_poll : ℕ → FuseCall
  reply_ioctl : List ℕ → FuseCall
  -- The lengths of the buffers to map for reading and for writing; 0 for none.
  reply_ioctl_retry : ℕ → ℕ → FuseCall
  notify_poll : ℕ → FuseCall
  pollhandle_destroy : ℕ → FuseCall

-- A handler returns, or it panics at an assertion, an `unwrap` or an `expect`.
pub data Outcome {ℓ} (A : Type ℓ) : Type ℓ where
  panicked : Outcome A
  returned : A → Outcome A

infixl 5 ◌>>=◌
abbrev pub ◌>>=◌ {ℓ κ} : {A : Type ℓ} {B : Type κ} → Outcome A → (A → Outcome B) → Outcome B
panicked >>= f = panicked
returned a >>= f = f a

-- A bind that returns, taken apart.
pub >>=-eq-returned {ℓ κ} :
    {A : Type ℓ} {B : Type κ} (m : Outcome A) (f : A → Outcome B) {b : B}
    → (m >>= f) ≡ returned b
    → (a : A) × (m ≡ returned a) × (f a ≡ returned b)
>>=-eq-returned panicked f h = cc
>>=-eq-returned (returned a) f h = (a, refl, h)

pub returned-inj {ℓ} : {A : Type ℓ} {a b : A} → returned a ≡ returned b → a ≡ b
returned-inj h = cc

pub Outcome-cases {ℓ} : {A : Type ℓ} (m : Outcome A) → (m ≡ panicked) ⊎ ((a : A) × (m ≡ returned a))
Outcome-cases panicked = inl refl
Outcome-cases (returned a) = inr (a, refl)

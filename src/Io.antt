-- ===== src/Io.antt =====
-- `std::io::Error` and `io::Result`, as the whole repository uses them: an error is its kind and
-- its message, and `?` is the bind.
use tap_tunnel.Prelude.{◌≡◌, refl, String, inl, inr, ◌⊎◌}

pub data ErrorKind : Type 0 where
  invalid_data invalid_input addr_in_use connection_aborted connection_refused : ErrorKind
  out_of_memory broken_pipe unexpected_eof would_block write_zero timed_out : ErrorKind
  not_found permission_denied other : ErrorKind

pub record IoError : Type 0 where
  pub kind : ErrorKind
  pub message : String

-- `io::Error::new(kind, message)`
abbrev pub io_error : ErrorKind → String → IoError
io_error k m = record { kind = k; message = m }

pub data IoResult {ℓ} (A : Type ℓ) : Type ℓ where
  ok : A → IoResult A
  err : IoError → IoResult A

infixl 5 ◌>>=◌ ◌>>◌
abbrev pub ◌>>=◌ {ℓ κ} : {A : Type ℓ} {B : Type κ} → IoResult A → (A → IoResult B) → IoResult B
ok a >>= f = f a
err e >>= f = err e

abbrev pub ◌>>◌ {ℓ κ} : {A : Type ℓ} {B : Type κ} → IoResult A → IoResult B → IoResult B
m >> k = m >>= λ _. k

-- To split on a computed result and keep the equation.
pub IoResult-cases {ℓ} :
    {A : Type ℓ} (r : IoResult A) → ((a : A) × (r ≡ ok a)) ⊎ ((e : IoError) × (r ≡ err e))
IoResult-cases (ok a) = inl (a, refl)
IoResult-cases (err e) = inr (e, refl)

-- `io::Result<()>`
abbrev pub IoDone : Type 0
IoDone = IoResult {0} Unit

-- ===== src/Status.antt =====
-- include/elysiumkv/status.hpp: the status codes, and `Result<T>`, which is `std::expected<T, Status>`.
use elysiumkv.Base.{Bool, true, false}

pub data Status : Type 0 where
  ok not_found corrupt unusable fenced config io stalled unsupported stale recovery_required :
      Status

unfoldable pub is_terminal : Status → Bool
is_terminal Status.corrupt = true
is_terminal Status.unusable = true
is_terminal Status.fenced = true
is_terminal Status.config = true
is_terminal Status.unsupported = true
is_terminal _ = false

unfoldable pub is_retryable : Status → Bool
is_retryable Status.io = true
is_retryable _ = false

pub data Result {ℓ} (A : Type ℓ) : Type ℓ where
  value : A → Result A
  unexpected : Status → Result A

infixl 5 ◌>>=◌
abbrev pub ◌>>=◌ {ℓ κ} : {A : Type ℓ} {B : Type κ} → Result A → (A → Result B) → Result B
value a >>= f = f a
unexpected s >>= f = unexpected s

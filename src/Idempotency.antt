-- ===== src/Idempotency.antt =====
-- Idempotency of transactional operations: apps/api/app/core/idempotency.py. The hash that makes a
-- key is not part of the source, so callers take their key as an argument.
pub mod Laws
use vapivoiceassistant.Prelude.{ℕ, String, Option, none, some}
use vapivoiceassistant.Prelude.Dict.{Dict, lookup, insert, remove}

pub record StoredResult : Type 0 where
  pub status : String
  pub result : Option (Dict String)
  pub created_at : ℕ

abbrev pub IdempotencyStore : Type 0
IdempotencyStore = Dict StoredResult

begin_with :
    Option StoredResult → String → ℕ → IdempotencyStore → Option StoredResult × IdempotencyStore
begin_with (some existing) key now s = (some existing, s)
begin_with none key now s =
    (none, insert key (record { status = "in_progress"; result = none; created_at = now }) s)

unfoldable pub begin : String → ℕ → IdempotencyStore → Option StoredResult × IdempotencyStore
unfolding begin_with
begin key now s = begin_with (lookup key s) key now s

unfoldable pub complete : String → Dict String → ℕ → IdempotencyStore → IdempotencyStore
complete key result now s =
    insert key (record { status = "completed"; result = some result; created_at = now }) s

unfoldable pub fail : String → IdempotencyStore → IdempotencyStore
fail key s = remove key s

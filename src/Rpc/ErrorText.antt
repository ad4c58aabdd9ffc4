-- ===== src/Rpc/ErrorText.antt =====
-- The texts of exceptions: `error_text` of src/grpc/grpc_client.cpp. The text of `std::out_of_range`, and
-- what `std::to_string` makes of a number, are parameters.
use Prim.Native.Nat.{ℕ}
use Prim.Native.String.{String, [], ◌∷◌, ◌++◌}
use fault_tolerant_kv_store.Status.{Status}

pub record Texts : Type 0 where
  pub out_of_range_text : String
  pub to_string : ℕ → String

abbrev explained : String → String
explained [] = []
explained (c ∷ text) = ": " ++ (c ∷ text)

module _ ⦃texts : Texts⦄ where
  abbrev pub error_text : String → Status → ℕ → String
  error_text operation status attempts =
      operation
      ++ (" failed after "
          ++ (texts.to_string attempts ++ (" attempt(s)" ++ explained status.message)))

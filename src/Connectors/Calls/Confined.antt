-- ===== src/Connectors/Calls/Confined.antt =====
-- What imported content may do: nothing beyond reading the scope under which it was imported.
use reckoning.Prelude.{◌≡◌, String, false, some, List, [], ◌∷◌, ◌++◌, distinct, is_blank}
use reckoning.Prelude.Dict
use reckoning.Prelude.Pairs
use reckoning.Prelude.Pairs.{Pairs}
use reckoning.Prelude.Result.{Result}
use reckoning.Connectors.Content.{Pattern, ExternalContentResult, found_instructions}
use reckoning.Connectors.Service.{Connectors}
use reckoning.Connectors.Synchronize.{permissions_of, protected_layers}

module _ (patterns : List Pattern) where
  -- the content stands below the protected layers, its permissions are to read from its connector
  -- what its tools name, and the instructions that the patterns find in it are listed
  pub record Confined (connector_id : String) (r : ExternalContentResult) : Type 0 where
    pub layers : r.prompt_layers ≡ protected_layers ++ ("external_untrusted_data" ∷ [])
    pub reads_only : r.permissions ≡ permissions_of connector_id r.allowed_tools
    pub rejected :
        r.rejected_instructions ≡ distinct (found_instructions patterns r.visible_content)
    pub sourced : is_blank r.source ≡ false

  unfoldable pub AllConfined : Pairs ExternalContentResult → Type 0
  AllConfined results =
      (a b : String) (r : ExternalContentResult) → Pairs.get a b results ≡ some r → Confined a r

-- ===== src/Connectors/Content.antt =====
-- ExternalContentBoundary of external_content.py. The regular expressions are parameters: each
-- gives the texts that it matches, in order.
use reckoning.Prelude.{
  String, Bool, List, [], ◌∷◌, ◌++◌, map, strip, is_blank, is_empty, distinct, if◌then◌else◌,
}
use reckoning.Prelude.Result.{Result, ok, err, value_error}

pub record UntrustedContent : Type 0 where
  pub id : String
  pub source : String
  pub text : String

-- its external effects are always empty
pub record ExternalContentResult : Type 0 where
  pub content_id : String
  pub source : String
  pub visible_content : String
  pub prompt_layers : List String
  pub allowed_tools : List String
  pub permissions : List String
  pub rejected_instructions : List String

-- one regular expression: `finditer` on a text
abbrev pub Pattern : Type 0
Pattern = String → List String

-- the instructions that the patterns find, stripped
unfoldable pub found_instructions : List Pattern → String → List String
found_instructions [] text = []
found_instructions (p ∷ ps) text = map strip (p text) ++ found_instructions ps text

unfoldable pub inspect :
    List Pattern
    → UntrustedContent
    → List String
    → List String
    → List String
    → Result ExternalContentResult
inspect patterns content protected_prompt_layers allowed_tools permissions =
    if is_blank content.source
    then err (value_error "External content must retain its source.")
    else ok (record {
      content_id = content.id;
      source = content.source;
      visible_content = content.text;
      prompt_layers = protected_prompt_layers ++ ("external_untrusted_data" ∷ []);
      allowed_tools = allowed_tools;
      permissions = permissions;
      rejected_instructions = distinct (found_instructions patterns content.text);
    })

-- ExternalContentResult.safe
unfoldable pub safe : ExternalContentResult → Bool
safe r = is_empty r.rejected_instructions

-- ===== src/Delegation/OwnerTools.antt =====
-- _is_owner_tool of delegation.py: the tools that stay with the accountable agent.
use reckoning.Prelude.{ℕ, String, Bool, ◌||◌, List, [], ◌∷◌, any, ◌==◌, if◌then◌else◌}
use reckoning.Prelude.Casefold.{codes, casefold, codes_equal}

-- .replace("-", "_").replace(".", "_")
unfoldable pub underscored : List ℕ → List ℕ
underscored [] = []
underscored (c ∷ s) = (if c == b'-' || c == b'.' then b'_' else c) ∷ underscored s

abbrev pub owner_tools : List (List ℕ)
owner_tools =
    codes "memory_write"
    ∷ codes "memory_confirm"
    ∷ codes "permission_broaden"
    ∷ codes "permission_grant"
    ∷ codes "grant_permission"
    ∷ codes "reply_to_user"
    ∷ codes "user_reply"
    ∷ []

unfoldable pub is_owner_tool : String → Bool
unfolding casefold underscored codes_equal
is_owner_tool tool =
    let normalized = underscored (casefold (codes tool)) in any (codes_equal normalized) owner_tools

-- ===== src/Delegation/Collaborators.antt =====
-- The protocols of delegation.py that the coordinator holds, and its loops over their answers.
-- The collaborators are outside the source: each is an action on their common state `W`.
use reckoning.Prelude.{
  String, Bool, true, false, Option, none, some, List, [], ◌∷◌, ◌++◌, map, is_empty, lists_equal,
  join, concat, if◌then◌else◌,
}
use reckoning.Prelude.Result.{Result, ok, err, Action, ◌>>=◌}
use reckoning.Delegation.Records.{
  DelegationEvidence, DelegationRequest, DelegatedContextRequest, DelegatedContextEntry,
  DelegatedContext, DelegatedTask, DelegationReview, AgentDisposition,
}
use reckoning.Delegation.Runtime.{ModelGateway, ToolGateway, Program}

-- The protocols that the coordinator holds. An absent authorizer or gateway is `none`.
pub record Collaborators (W : Type 0) : Type 0 where
  -- DelegatedProcessingAuthorizer: the blocked categories of its decision
  pub authorizer : Option (String → List String → Action W (List String))
  pub model_gateway : Option (ModelGateway W)
  pub tool_gateway : Option (ToolGateway W)
  -- DelegationContextSource.read_entries
  pub read_entries : String → List String → Action W (List DelegatedContextEntry)
  -- DelegatedWorker
  pub worker : DelegatedTask → Program
  -- ReckoningAgentReviewer
  pub verify_evidence : DelegationEvidence → Action W Bool
  pub dispose : DelegationReview → Action W AgentDisposition

-- one selection: the entries, or the violation that ends the loop
unfoldable pub take_selection :
    DelegatedContextRequest → Result (List DelegatedContextEntry) → List String
take_selection selection (err e) = "delegated context selection failed safely" ∷ []
take_selection selection (ok entries) =
    if lists_equal (map (λ (entry : DelegatedContextEntry). entry.id) entries) selection.entry_ids
    then []
    else "context source returned entries outside the exact selection" ∷ []

abbrev pub entries_or_none : Result (List DelegatedContextEntry) → List DelegatedContextEntry
entries_or_none (ok entries) = entries
entries_or_none (err e) = []

module _ {W : Type 0} (c : Collaborators W) where
  -- the processing authorizer, asked only where the request has no violations
  unfoldable pub authorize : DelegationRequest → List String → Action W (List String)
  authorize request (v ∷ violations) w = (ok (v ∷ violations), w)
  authorize request [] w = elim c.authorizer [
    | none ↦ (ok [], w)
    | some ask ↦
        let (decision, w') = ask request.provider request.context_categories w in
        (
          decision >>= λ blocked. ok (
              if is_empty blocked
              then []
              else concat "provider destination lacks processing grants for delegated context: "
                  (join blocked)
                ∷ []),
          w',
        )
  ]

  -- the loop over `request.context`: the violations, the contexts read so far and the state
  unfoldable pub read_context :
      List DelegatedContextRequest
      → List DelegatedContext
      → W
      → List String × List DelegatedContext × W
  unfolding take_selection
  read_context [] read w = ([], read, w)
  read_context (selection ∷ rest) read w =
      let (answer, w') = c.read_entries selection.category selection.entry_ids w in
      let violations = take_selection selection answer in
      let context : DelegatedContext = record {
        category = selection.category;
        entries = entries_or_none answer;
      } in
      let go_on = read_context rest (read ++ context ∷ []) w' in
      if is_empty violations then go_on else (violations, read, w')

  -- the loop over the evidence: failures, verified ids, unverified ids
  unfoldable pub verify_all :
      List DelegationEvidence → W → List String × List String × List String × W
  verify_all [] w = ([], [], [], w)
  verify_all (evidence ∷ rest) w =
      let (answer, w') = c.verify_evidence evidence w in
      let (failures, verified, unverified, w'') = verify_all rest w' in
      elim answer [
        | ok true ↦ (failures, evidence.id ∷ verified, unverified, w'')
        | ok false ↦ (failures, verified, evidence.id ∷ unverified, w'')
        | err e ↦ (
          concat "Simon evidence verification failed safely: " evidence.id ∷ failures,
          verified,
          evidence.id ∷ unverified,
          w'',
        )
      ]

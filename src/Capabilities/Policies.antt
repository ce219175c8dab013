-- ===== src/Capabilities/Policies.antt =====
-- `CapabilityPolicyService` of src/vera_mmu/capability_policies.py: whether a capability may run.
use vera_mmu.Common.{
  String, Bool, not, ◌&&◌, ◌==◌, text_Eq, Option, none, some, [], ◌∷◌, ◌++◌, find, is_some,
  if◌then◌else◌, pure, gets, require, or_raise, ◌>>=◌, ◌>>◌,
}
use vera_mmu.Common.Text.{is_plain_identifier, is_canonical_text}
use vera_mmu.Store.{Tables, Method, Rows, raised, atomic_row, append_audit, insert, has_length}
use vera_mmu.Store.Rows.{CapabilityPolicy, PolicyDecision, allow, deny, confirm, text}
use vera_mmu.Capabilities.{has_capability}

pub data CapabilityPolicyError : Type 0 where
  invalid_policy_id unknown_policy_decision invalid_policy_reason invalid_policy_actor
        unknown_capability :
      CapabilityPolicyError
  invalid_capability_policy capability_policy_unreadable capability_policy_not_found :
      CapabilityPolicyError

-- `POLICY_DECISIONS`
unfoldable pub policy_decision : String → Option PolicyDecision
policy_decision s =
    if s == "ALLOW"
    then some allow
    else if s == "DENY"
    then some deny
    else if s == "CONFIRM"
    then some confirm
    else none

unfoldable pub find_capability_policy : Tables → String → Option CapabilityPolicy
find_capability_policy t id = find (λ p. p.capability_id == id) t.capability_policies

-- the constraints of `capability_policy`
unfoldable pub capability_policy_is_valid : Tables → CapabilityPolicy → Bool
unfolding has_length has_capability find_capability_policy
capability_policy_is_valid t p =
    not (is_some (find_capability_policy t p.capability_id))
    && has_capability t p.capability_id
    && has_length 1 4096 p.reason
    && has_length 1 256 p.created_by

unfoldable pub insert_capability_policy : {E : Type 0} → CapabilityPolicy → Rows E Unit
unfolding capability_policy_is_valid
insert_capability_policy p =
    insert (λ t. capability_policy_is_valid t p)
      (λ t. record t { capability_policies = t.capability_policies ++ p ∷ [] })

-- the block of `declare`
unfoldable pub declare_capability_policy_rows :
    CapabilityPolicy → String → Rows CapabilityPolicyError (Option CapabilityPolicy)
unfolding insert_capability_policy find_capability_policy has_capability
declare_capability_policy_rows p decision_text = do
  known ← gets (λ t. has_capability t p.capability_id)
  require known (raised unknown_capability)
  insert_capability_policy p
  row ← gets (λ t. find_capability_policy t p.capability_id)
  append_audit p.created_at "CAPABILITY_POLICY_DECLARED" (
      ("capability_id", text p.capability_id)
      ∷ ("decision", text decision_text)
      ∷ ("actor", text p.created_by)
      ∷ [])
  pure row

-- `CapabilityPolicyService.declare`
unfoldable pub declare_capability_policy :
    String → String → String → String → String → Method CapabilityPolicyError CapabilityPolicy
unfolding declare_capability_policy_rows policy_decision
declare_capability_policy id decision_text reason actor now = do
  require (is_plain_identifier id) (raised invalid_policy_id)
  decision ← or_raise (policy_decision decision_text) (raised unknown_policy_decision)
  require (is_canonical_text 4096 reason) (raised invalid_policy_reason)
  require (is_canonical_text 256 actor) (raised invalid_policy_actor)
  atomic_row invalid_capability_policy capability_policy_unreadable (
      declare_capability_policy_rows
        (record {
          capability_id = id;
          decision = decision;
          reason = reason;
          created_at = now;
          created_by = actor;
        })
        decision_text)

-- `CapabilityPolicyService.get`
unfoldable pub get_capability_policy : String → Method CapabilityPolicyError CapabilityPolicy
unfolding find_capability_policy
get_capability_policy id = do
  require (is_plain_identifier id) (raised invalid_policy_id)
  found ← gets (λ s. find_capability_policy s.tables id)
  or_raise found (raised capability_policy_not_found)

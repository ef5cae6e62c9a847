-- ===== src/Nodes/Manager/Complete.antt =====
-- What the handlers write into a node leaves it complete.
use ferro_flow.Prelude.{ℕ, ◌≡◌, true, false, List, [], ◌∷◌, Option, none, some, nat_eq}
use ferro_flow.Prelude.Assoc.{Values}
use ferro_flow.Platform.{Platform, CanDataValue}
use ferro_flow.Nodes.CanNode.{CanNode, FieldInfo, node_registration_complete}
use ferro_flow.Nodes.Manager.Handlers.{
  set_value_of, write_values, heartbeat_requests, next_heartbeat, next_heartbeat,
}

abbrev pub IsComplete : {S : Type 0} → CanNode S → Type 0
IsComplete node = node_registration_complete node ≡ true

abbrev pub IsIncomplete : {S : Type 0} → CanNode S → Type 0
IsIncomplete node = node_registration_complete node ≡ false

pub write_values-complete :
    (w : Platform) (now node_id : ℕ) (node : CanNode w.F32) (fields : List (ℕ × FieldInfo))
    (values : List (Option (CanDataValue w.F32)))
    → IsComplete node
    → IsComplete (write_values {w = w} now node_id node fields values).node
unfolding write_values node_registration_complete
write_values-complete w now node_id node [] values c = c
write_values-complete w now node_id node (f ∷ fields) [] c = c
write_values-complete w now node_id node ((id, info) ∷ fields) (none ∷ values) c = c
write_values-complete w now node_id node ((id, info) ∷ fields) (some value ∷ values) c =
    write_values-complete w now node_id (set_value_of now id value node) fields values c

-- Writing a value or a heartbeat leaves what completeness depends on.
pub set_value_of-complete :
    {S : Type 0} (now id : ℕ) (value : CanDataValue S) (node : CanNode S)
    → IsComplete node
    → IsComplete (set_value_of now id value node)
unfolding node_registration_complete
set_value_of-complete now id value node c = c

pub received-complete :
    {S : Type 0} (h : Option (ℕ × ℕ)) (node : CanNode S)
    → IsComplete node
    → IsComplete (record node { latest_heartbeat_received = h })
unfolding node_registration_complete
received-complete h node c = c

pub sent-complete :
    {S : Type 0} (h : Option (ℕ × ℕ)) (node : CanNode S)
    → IsComplete node
    → IsComplete (record node { latest_heartbeat_sent = h })
unfolding node_registration_complete
sent-complete h node c = c

pub heartbeat_requests-Values :
    (w : Platform) (now : ℕ → ℕ) (nodes : List (ℕ × CanNode w.F32))
    → Values IsComplete nodes
    → Values IsComplete (heartbeat_requests {w = w} now nodes).0
unfolding heartbeat_requests
heartbeat_requests-Values w now [] v = tt
heartbeat_requests-Values w now ((id, node) ∷ rest) (c, v) = (
  sent-complete (some (now id, next_heartbeat node.latest_heartbeat_sent)) node c,
  heartbeat_requests-Values w now rest v,
)

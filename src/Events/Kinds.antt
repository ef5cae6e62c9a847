-- ===== src/Events/Kinds.antt =====
-- `EventKind` of src/events/mod.rs with its equality.
use ferro_flow.Prelude.{ℕ, Bool, true, ◌≡◌, ◌↔◌, nat_beq, arith}

pub data EventKind : Type 0 where
  can_message_received node_field_updated shutdown send_can_message relay_can_message sequence :
      EventKind

abbrev kind_code : EventKind → ℕ
kind_code can_message_received = 0
kind_code node_field_updated = 1
kind_code shutdown = 2
kind_code send_can_message = 3
kind_code relay_can_message = 4
kind_code sequence = 5

-- The derived `PartialEq`.
unfoldable pub kind_beq : EventKind → EventKind → Bool
kind_beq j k = nat_beq (kind_code j) (kind_code k)

pub kind_beq_iff : (j k : EventKind) → (kind_beq j k ≡ true) ↔ (j ≡ k)
unfolding kind_beq
kind_beq_iff j k = ground arith

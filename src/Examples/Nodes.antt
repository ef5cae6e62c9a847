-- ===== src/Examples/Nodes.antt =====
-- A node that registers, its heartbeats, and a write to its parameter.
use ferro_flow.Prelude.{
  ℕ, suc, ◌≡◌, refl, false, inl, List, [], ◌∷◌, none, ok, pos, nat_eq, string_eq, length,
}
use ferro_flow.Prelude.Assoc.{lookup, insert, remove}
use ferro_flow.Prelude.Text.{contains_char}
use ferro_flow.Numbers.Sample.{Sample, sample_double}
use ferro_flow.Platform.{CanDataType, CanDataValue, Json}
use ferro_flow.Platform.Sample.{sample}
use ferro_flow.Messages.{FieldGetResPayload, CanMessage, CanMessageId}
use ferro_flow.Events.{Event}
use ferro_flow.Nodes.CanNode.{CanNode, RegistrationInfo, node_registration_complete}
use ferro_flow.Nodes.CanNode
use ferro_flow.Nodes.Manager.{
  NodeManager, new, settle_node, handle_node_info_announcement, handle_field_registration,
}
use ferro_flow.Nodes.Manager.Handlers.{handle_can_message_from_node, handle_field_get_res}
use ferro_flow.Nodes.Manager.Registration.{
  IsConsistent, Reached, start, message, Reached-IsConsistent,
}
use ferro_flow.Nodes.Heartbeat.{heartbeat_thread}
use ferro_flow.Nodes.Heartbeat.Schedule.{sent_to, counters, timeouts, heartbeat_thread-counters}
use ferro_flow.Nodes.Values.{
  Found, ResolvedMappingTarget, is_mapped_name, lookup_mapping, resolve_mapping_target,
  resolve_mapping_by_name,
}
use ferro_flow.Nodes.Values.Resolution.{IsTarget, resolve_mapping_by_name-IsTarget}
use ferro_flow.Nodes.Values.Names.{AreSameField, raw_name, validate-AreSameField}
use ferro_flow.Nodes.Values.Reports.{IsReported, handle_field_get_res-IsReported}
use ferro_flow.Nodes.Command.{
  set_value, json_value_to_f64, set_mapped_value, dispatch_parameter_set,
}
use ferro_flow.Nodes.Command.Writes.{IsWrite, set_value-IsWrite}
use ferro_flow.Mapping.Lookup.{get_mapping_for_name}
use ferro_flow.Mapping.Entry.{raw_value_from_mapped}
use ferro_flow.Examples.Mappings.{stand, valve, stand-valid}

abbrev pub from_ecu : CanMessageId
from_ecu = record { sender_id = 5; receiver_id = 1 }

-- The messages by which node 5 registers: one parameter and no telemetry.
abbrev pub announcement : CanMessage sample
announcement = CanMessage.node_info_announcement (record {
  tel_count = 0;
  par_count = 1;
  firmware_hash = 7;
  liquid_hash = 8;
  device_name = "ecu";
})

abbrev pub registration : CanMessage sample
registration =
    CanMessage.parameter_registration
      (record { field_id = 3; field_type = CanDataType.uint8; field_name = "v1" })

abbrev announced : NodeManager sample
announced = (handle_can_message_from_node (new stand) 0 from_ecu announcement).manager

abbrev ready : NodeManager sample
ready = (handle_can_message_from_node announced 1 from_ecu registration).manager

ready-Reached : Reached ready
ready-Reached = message 1 from_ecu registration (message 0 from_ecu announcement (start stand))

Reached-IsConsistent_example : IsConsistent ready
Reached-IsConsistent_example = Reached-IsConsistent ready-Reached

-- Node 5 as it is registered.
abbrev ecu : CanNode Sample
ecu = record {
  registration_info = record {
    telemetry_count = 0;
    parameter_count = 1;
    firmware_hash = 7;
    protocol_hash = 8;
    device_name = "ecu";
  };
  telemetry_fields = [];
  parameter_fields = (3, record { data_type = CanDataType.uint8; name = "v1" }) ∷ [];
  telemetry_groups = [];
  values = [];
  latest_heartbeat_sent = none;
  latest_heartbeat_received = none;
}

ready-nodes : ready.can_nodes ≡ (5, ecu) ∷ []
unfolding handle_can_message_from_node handle_node_info_announcement handle_field_registration new
    CanNode.new settle_node node_registration_complete lookup insert remove
ready-nodes = refl

-- The state with this node registered.
abbrev pub registered : NodeManager sample
registered = record { mapping = stand; can_nodes = (5, ecu) ∷ []; registering_nodes = [] }

heartbeat_thread-counters_example :
    sent_to 5 (heartbeat_thread 100 0 registered (timeouts (100 ∷ 200 ∷ []))).events
    ≡ counters 0 (suc (length {A = ℕ} (100 ∷ 200 ∷ [])))
heartbeat_thread-counters_example =
    heartbeat_thread-counters 100 0 5 registered ecu (100 ∷ 200 ∷ []) refl refl

abbrev valve_found : Found sample
valve_found = record { node_name = "ecu"; mapping_entry = valve }

abbrev valve_target : ResolvedMappingTarget
valve_target = record { node_id = 5; field_id = 3; data_type = CanDataType.uint8 }

valve-resolves : resolve_mapping_by_name sample registered "valve" ≡ ok (valve_found, valve_target)
unfolding resolve_mapping_by_name resolve_mapping_target lookup_mapping is_mapped_name contains_char
    get_mapping_for_name
valve-resolves = refl

resolve_mapping_by_name-IsTarget_example :
    (lookup_mapping sample registered "valve" ≡ ok valve_found)
    × IsTarget sample registered valve_found valve_target
resolve_mapping_by_name-IsTarget_example =
    resolve_mapping_by_name-IsTarget sample registered "valve" valve-resolves

-- 91 degrees are the raw value 45.
abbrev valve_request : List (Event sample)
valve_request =
    Event.send_can_message 5
      (CanMessage.parameter_set_req (record { parameter_id = 3; value = CanDataValue.uint8 45 }))
    ∷ []

valve-written : set_value sample registered "valve" (Json.number (pos 91)) ≡ ok valve_request
unfolding set_value json_value_to_f64 set_mapped_value dispatch_parameter_set raw_value_from_mapped
    resolve_mapping_by_name resolve_mapping_target lookup_mapping is_mapped_name contains_char
    get_mapping_for_name
valve-written = refl

set_value-IsWrite_example : IsWrite sample registered "valve" valve_request
set_value-IsWrite_example =
    set_value-IsWrite sample registered "valve" (Json.number (pos 91)) valve-written

-- The node reports 45 for the valve.
abbrev report : FieldGetResPayload sample
report = record { field_id = 3; value = CanDataValue.uint8 45 }

report-accepted : (handle_field_get_res registered 9 from_ecu report).result ≡ ok tt
unfolding handle_field_get_res lookup
report-accepted = refl

ecu-plain : contains_char b':' "ecu" ≡ false
unfolding contains_char
ecu-plain = refl

validate-AreSameField_example :
    AreSameField sample registered valve_found "valve" (raw_name "ecu" "v1")
validate-AreSameField_example =
    validate-AreSameField sample registered "ecu" valve (tt, tt) stand-valid (inl refl) ecu-plain

handle_field_get_res-IsReported_example :
    IsReported sample registered from_ecu report
      (handle_field_get_res registered 9 from_ecu report).manager
handle_field_get_res-IsReported_example =
    handle_field_get_res-IsReported sample registered 9 from_ecu report report-accepted

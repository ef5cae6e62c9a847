-- ===== src/Examples/Groups.antt =====
-- A telemetry group with two fields, of whose values the second cannot be unpacked.
use ferro_flow.Prelude.{◌≡◌, ◌⊎◌, refl, [], ◌∷◌, length, nat_eq}
use ferro_flow.Prelude.Assoc.{lookup}
use ferro_flow.Platform.{CanDataType, CanDataValue}
use ferro_flow.Platform.Sample.{sample}
use ferro_flow.Messages.{TelemetryGroupUpdatePayload}
use ferro_flow.Nodes.CanNode
use ferro_flow.Nodes.CanNode.{CanNode}
use ferro_flow.Nodes.Manager.{NodeManager, new}
use ferro_flow.Nodes.Manager.Handlers.{handle_telemetry_group_update}
use ferro_flow.Nodes.Values.Groups.{IsUpdate, IsRefused, handle_telemetry_group_update-cases}
use ferro_flow.Examples.Mappings.{stand}
use ferro_flow.Examples.Nodes.{from_ecu}

abbrev sensor : CanNode sample.F32
sensor =
    record (CanNode.new (record {
      telemetry_count = 2;
      parameter_count = 0;
      firmware_hash = 7;
      protocol_hash = 8;
      device_name = "ecu";
    })) {
      telemetry_fields =
          (1, record { data_type = CanDataType.uint8; name = "p1" })
          ∷ (2, record { data_type = CanDataType.uint8; name = "p2" })
          ∷ [];
      telemetry_groups = (4, record { fields = 1 ∷ 2 ∷ [] }) ∷ [];
    }

abbrev measuring : NodeManager sample
measuring = record (new stand) { can_nodes = (5, sensor) ∷ [] }

abbrev update : TelemetryGroupUpdatePayload sample
update = record { group_id = 4; values = CanDataValue.uint8 17 ∷ [] }

handle_telemetry_group_update-cases_example :
    IsUpdate sample measuring 9 from_ecu update
      (handle_telemetry_group_update measuring 9 from_ecu update)
    ⊎ IsRefused sample measuring from_ecu update
        (handle_telemetry_group_update measuring 9 from_ecu update)
handle_telemetry_group_update-cases_example =
    handle_telemetry_group_update-cases sample measuring 9 from_ecu update

-- The first value is reported, and then the update fails.
first_reported : length (handle_telemetry_group_update measuring 9 from_ecu update).events ≡ 1
unfolding handle_telemetry_group_update lookup
first_reported = refl

-- ===== src/System/Service/Client/Tests.antt =====
-- A service client on a concrete sequence, and its theorem there.
use reactive_trader_cloud.System.Service.Instances
use reactive_trader_cloud.System.Service.Instances.{connection, heartbeat, missed}

abbrev beat : Instances.Event
beat = heartbeat (record { type = "pricing"; instance_id = "p.1"; timestamp = 1; load = 2 })

-- ===== src/Store/Memory/Devices.antt =====
-- Devices of server/internal/store/memory.go.
use multi_desk.Base.{ℕ, String, some, List, true, ◌==◌}
use multi_desk.Dict.{lookup, find_value, select_values}
use multi_desk.Store.Types.{Device, Result, ok, ◌>>=◌, or_not_found}
use multi_desk.Store.Memory.{Memory, create, replace, modify}

unfoldable pub create_device : Device → Memory → Result Memory
create_device d m = do devices ← create d.id d m.devices; ok (record m { devices = devices })

unfoldable pub get_device : String → Memory → Result Device
get_device id m = or_not_found (lookup id m.devices)

unfoldable pub get_device_by_public_key : String → Memory → Result Device
get_device_by_public_key public_key m =
    or_not_found (find_value (λ d. d.public_key == public_key) m.devices)

unfoldable pub list_devices_by_owner : String → Memory → List Device
list_devices_by_owner owner m = select_values (λ d. d.owner_id == owner) m.devices

unfoldable pub update_device : Device → Memory → Result Memory
update_device d m = do devices ← replace d.id d m.devices; ok (record m { devices = devices })

unfoldable pub revoke_device : String → ℕ → Memory → Result Memory
revoke_device id at m = do
  devices ← modify (λ (d : Device). record d { revoked_at = some at; revoked = true }) id m.devices
  ok (record m { devices = devices })

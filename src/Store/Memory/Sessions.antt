-- ===== src/Store/Memory/Sessions.antt =====
-- Sessions and transfers of server/internal/store/memory.go.
use multi_desk.Base.{String, List, Bool, ◌&&◌, ◌||◌, ◌==◌}
use multi_desk.Dict.{lookup, insert, select_values}
use multi_desk.Store.Types.{Session, TransferRecord, Result, ok, ◌>>=◌, or_not_found}
use multi_desk.Store.Memory.{Memory, create, replace}

unfoldable pub create_session : Session → Memory → Result Memory
create_session s m = do sessions ← create s.id s m.sessions; ok (record m { sessions = sessions })

unfoldable pub get_session : String → Memory → Result Session
get_session id m = or_not_found (lookup id m.sessions)

unfoldable pub update_session : Session → Memory → Result Memory
update_session s m = do sessions ← replace s.id s m.sessions; ok (record m { sessions = sessions })

-- the test of the loop of `ListActiveSessionsByDevice`
unfoldable pub is_active_on : String → Session → Bool
is_active_on device s =
    (s.source_device_id == device || s.target_device_id == device)
    && (s.state == "pending" || s.state == "active")

unfoldable pub list_active_sessions_by_device : String → Memory → List Session
list_active_sessions_by_device device m = select_values (is_active_on device) m.sessions

unfoldable pub list_sessions_by_operator : String → Memory → List Session
list_sessions_by_operator operator m = select_values (λ s. s.operator_id == operator) m.sessions

unfoldable pub create_transfer_record : TransferRecord → Memory → Memory
create_transfer_record t m = record m { transfers = insert t.id t m.transfers }

unfoldable pub update_transfer_record : TransferRecord → Memory → Result Memory
update_transfer_record t m = do
  transfers ← replace t.id t m.transfers
  ok (record m { transfers = transfers })

-- ===== src/DepsScanner/Connect.antt =====
-- depsscannerclient.go: New, which connects to a dependency scanner, after starting one if its
-- address asks for it. The diagnostics after an error are left out.
use reclient.Prelude.{true, String, Option, none, some}
use reclient.Prelude.Text.{cut_prefix}
use reclient.DepsScanner.{System, build_address}
use reclient.DepsScanner.Service.{Client, World, ServiceError, start_service, stop_service}

-- which of the events that New waits for comes first
pub data Connection : Type 0 where
  timed_out ended_early : Connection
  connection_failed : String → Connection
  connected : String → Connection

pub data NewError : Type 0 where
  no_address connect_timeout ended_during_startup : NewError
  no_service : ServiceError → NewError
  not_connected : String → NewError

pub data NewClient : Type 0 where
  new_client : Client → NewClient
  failed : NewError → NewClient

-- New from the connection on; after a timeout the service is stopped
unfoldable pub await : World → Client → Connection → NewClient × Client
await w c timed_out = (failed connect_timeout, (stop_service w c).1)
await w c ended_early = (failed ended_during_startup, c)
await w c (connection_failed e) = (failed (not_connected e), c)
await w c (connected caps) =
    let c' : Client = record c { has_client = true; capabilities = some caps } in
    (new_client c', c')

unfoldable pub await_started :
    World → Connection → Option ServiceError × Client → NewClient × Client
await_started w event (some e, c) = (failed (no_service e), c)
await_started w event (none, c) = await w c event

unfoldable pub at_address :
    World → String → Connection → Client → Option String → NewClient × Client
at_address w executable event c none = (failed no_address, c)
at_address w executable event c (some address) =
    await_started w event (start_service w executable (record c { address = address }))

unfoldable pub start_or_connect :
    System → World → String → Connection → Client → Option String → NewClient × Client
start_or_connect sys w proxy_address event c none = await w c event
start_or_connect sys w proxy_address event c (some executable) =
    at_address w executable event c (build_address sys proxy_address)

-- New, with the client made from its arguments, whose address is the one that is given
unfoldable pub new : System → World → String → Connection → Client → NewClient × Client
new sys w proxy_address event c =
    start_or_connect sys w proxy_address event c (cut_prefix "exec://" c.address)

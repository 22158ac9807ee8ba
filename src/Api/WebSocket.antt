-- ===== src/Api/WebSocket.antt =====
-- internal/api/handler/websocket.go, `HandleWS`: the loop from what each round of the `select` finds.
pub mod Order
use notification_system.Base.{
  String, List, [], ◌∷◌, Option, none, some, Bool, true, false, if◌then◌else◌,
}

-- The request's context is done, the subscription's channel is closed, or a payload arrives and is
-- written to the client, or is not.
pub data Event : Type 0 where
  cancelled unsubscribed : Event
  arrived : String → Bool → Event

-- How the connection ends: `conn.Close` with a reason, or `conn.CloseNow` alone.
pub data Closing : Type 0 where
  normal : String → Closing
  now : Closing

-- The payloads that the client has got, and how the connection has ended, if it has.
pub record Served : Type 0 where
  pub sent : List String
  pub closing : Option Closing

unfoldable pub serve : List Event → Served
serve [] = record { sent = []; closing = none }
serve (cancelled ∷ events) = record { sent = []; closing = some (normal "server shutting down") }
serve (unsubscribed ∷ events) = record { sent = []; closing = some (normal "subscription closed") }
serve (arrived payload written ∷ events) =
    let rest = serve events in
    if written
    then record { sent = payload ∷ rest.sent; closing = rest.closing }
    else record { sent = []; closing = some now }

-- `HandleWS`, by whether `Accept` upgrades the connection; `none` where there is none.
unfoldable pub handle_ws : Bool → List Event → Option Served
handle_ws accepted events = if accepted then some (serve events) else none

-- ===== src/Api/WebSocket/Order.antt =====
-- What a client gets.
use notification_system.Base.{
  String, List, arith, [], ◌∷◌, ◌++◌, map, Option, none, some, true, false, ◌≡◌, refl, ap,
}
use notification_system.Api.WebSocket.{
  Event, cancelled, unsubscribed, arrived, Closing, normal, now, serve,
}

-- How an event ends the connection, if it does.
unfoldable pub ends : Event → Option Closing
ends cancelled = some (normal "server shutting down")
ends unsubscribed = some (normal "subscription closed")
ends (arrived payload true) = none
ends (arrived payload false) = some now

delivered : List String → List Event
delivered ps = map (λ p. arrived p true) ps

-- As long as every payload is written, the client has got them all, each once and in order, and stays
-- connected. The first event that ends the connection does so in its way, and nothing that follows it
-- is sent.
pub serve_in_order :
    (ps : List String) (e : Event) (events : List Event) (how : Closing)
    → ends e ≡ some how
    → (serve (map (λ p. arrived p true) ps) ≡ record { sent = ps; closing = none })
      × (serve (map (λ p. arrived p true) ps ++ e ∷ events)
          ≡ record { sent = ps; closing = some how })
unfolding serve ends
serve_in_order [] cancelled events how h = (refl, ap (λ o. record { sent = []; closing = o }) h)
serve_in_order [] unsubscribed events how h = (refl, ap (λ o. record { sent = []; closing = o }) h)
serve_in_order [] (arrived p true) events how h = absurd (ground arith)
serve_in_order [] (arrived p false) events how h =
    (refl, ap (λ o. record { sent = []; closing = o }) h)
serve_in_order (p ∷ ps) e events how h =
    let (all, ended) = serve_in_order ps e events how h in
    (
      ap (λ r. record { sent = p ∷ r.sent; closing = r.closing }) all,
      ap (λ r. record { sent = p ∷ r.sent; closing = r.closing }) ended,
    )

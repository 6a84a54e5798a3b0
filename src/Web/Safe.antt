-- ===== src/Web/Safe.antt =====
-- Runs of the websocket hub, web/websocket.go, from `NewWebSocketHub` on.
use native.Mathlib.Decide.{ℕ_discrete}
use nectar.Prelude.{
  ℕ, ◌≡◌, ◌⊎◌, refl, inl, inr, Bool, true, false, some, List, [], ◌∷◌, ltb, if-cases, length, Text,
  arith,
}
use nectar.Prelude.Dict.{lookup}
use nectar.Web.Hub.{
  Hub, new_hub, channel_size, set, register, broadcast_update, answer_ping, write, HubEvent,
  connects, leaves, updates, broadcasts, pings, writes, hub_step, hub_run,
}
use nectar.Web.Channels.{Ordered, register-Ordered, unregister-Ordered, deliver-Ordered}

-- the one event that panics: a ping to a running read pump whose channel is closed
abbrev pub PingsClosed : HubEvent → Hub → Type 0
PingsClosed e h = (c : ℕ) × (e ≡ pings c) × (h.reading c ≡ true) × (h.closed c ≡ true)

-- An event keeps the order and panics only so.
Fine : HubEvent → Hub → Hub → Type 0
Fine e h h' = Ordered h' × ((h'.panicked ≡ h.panicked) ⊎ PingsClosed e h)

requeued : (h : Hub) (q : ℕ → List Text) → Ordered h → Ordered (record h { queue = q })
requeued h q o = record {
  open_clients = o.open_clients;
  made = o.made;
  fresh = o.fresh;
  distinct = o.distinct;
}

answer_ping-Fine :
    (c : ℕ) (h : Hub) → Ordered h → h.reading c ≡ true → Fine (pings c) h (answer_ping c h)
unfolding Fine answer_ping
answer_ping-Fine c h o r =
    if-cases (Fine (pings c) h) (h.closed c) _ _
      (λ t. (
        record {
          open_clients = o.open_clients;
          made = o.made;
          fresh = o.fresh;
          distinct = o.distinct;
        },
        inr (c, refl, r, t),
      ))
      (λ f.
        if-cases (Fine (pings c) h) (ltb (length (h.queue c)) channel_size) _ _
          (λ _.
            if-cases (Fine (pings c) h) (h.closed c) _ _
              (λ t. (
                record {
                  open_clients = o.open_clients;
                  made = o.made;
                  fresh = o.fresh;
                  distinct = o.distinct;
                },
                inr (c, refl, r, t),
              ))
              (λ _. (requeued h _ o, inl refl)))
          (λ _. (o, inl refl)))

write-Ordered :
    (c : ℕ) (h : Hub) → Ordered h → Ordered (write c h) × ((write c h).panicked ≡ h.panicked)
unfolding write
write-Ordered c h o = written (h.queue c)
  where
    written :
        (q : List Text)
        → Ordered (elim q [ [] ↦ h | m ∷ rest ↦ record h { queue = set c rest h.queue } ])
          × ((elim q as (λ x. Hub) [
            | [] ↦ h
            | m ∷ rest ↦ record h { queue = set c rest h.queue }
          ]).panicked
              ≡ h.panicked)
    written [] = (o, refl)
    written (m ∷ rest) = (requeued h _ o, refl)

hub_step-Fine : (e : HubEvent) (h : Hub) → Ordered h → Fine e h (hub_step e h)
unfolding Fine hub_step register broadcast_update
hub_step-Fine connects h o = (register-Ordered h o, inl refl)
hub_step-Fine (leaves c) h o =
    let (o', p) = unregister-Ordered c h o in
    if-cases (Fine (leaves c) h) (h.reading c) _ _ (λ _. (o', inl p)) (λ _. (o, inl refl))
hub_step-Fine (updates m) h o =
    if-cases (Fine (updates m) h) (ltb (length h.broadcast) channel_size) _ _
      (λ _. (
        record {
          open_clients = o.open_clients;
          made = o.made;
          fresh = o.fresh;
          distinct = o.distinct;
        },
        inl refl,
      ))
      (λ _. (o, inl refl))
hub_step-Fine broadcasts h o = let (o', p) = deliver-Ordered h o in (o', inl p)
hub_step-Fine (pings c) h o =
    if-cases (Fine (pings c) h) (h.reading c) _ _ (answer_ping-Fine c h o) (λ _. (o, inl refl))
hub_step-Fine (writes c) h o = let (o', p) = write-Ordered c h o in (o', inl p)

hub_run-Ordered : (es : List HubEvent) (h : Hub) → Ordered h → Ordered (hub_run es h)
unfolding hub_run Fine
hub_run-Ordered [] h o = o
hub_run-Ordered (e ∷ es) h o = hub_run-Ordered es (hub_step e h) (hub_step-Fine e h o).0

new_hub-Ordered : Ordered new_hub
unfolding new_hub lookup
new_hub-Ordered = record {
  open_clients = λ c b l. refl;
  made = λ c b l. absurd (ground (arith, l));
  fresh = λ c l. refl;
  distinct = tt;
}

-- After any events from the new hub, the next event makes nothing panic, unless it is a ping to a
-- client whose read pump still runs while its channel is closed.
pub hub_step-PingsClosed :
    (es : List HubEvent) (e : HubEvent)
    → let h = hub_run es new_hub in ((hub_step e h).panicked ≡ h.panicked) ⊎ PingsClosed e h
unfolding Fine
hub_step-PingsClosed es e =
    (hub_step-Fine e (hub_run es new_hub) (hub_run-Ordered es new_hub new_hub-Ordered)).1

-- After any events from the new hub, each client in the hub's map has an open channel.
pub hub_run-open :
    (es : List HubEvent) (c : ℕ) (b : Bool)
    → lookup ℕ_discrete c (hub_run es new_hub).clients ≡ some b
    → (hub_run es new_hub).closed c ≡ false
hub_run-open es c b l = (hub_run-Ordered es new_hub new_hub-Ordered).open_clients c b l

-- ===== src/Web/Hub.antt =====
-- `WebSocketHub` of web/websocket.go with its clients, as a state that events change one at a time:
-- what the hub's loop, a read pump, a write pump and `BroadcastUpdate` do. A client is a number; its
-- channel has a queue and may be closed. A send to a closed channel and a second close panic.
use native.Mathlib.Decide.{ℕ_discrete}
use nectar.Prelude.{
  ℕ, suc, Bool, true, false, none, some, List, [], ◌∷◌, ◌++◌, ltb, ◌==◌, if◌then◌else◌, length,
  Text, text,
}
use nectar.Prelude.Dict.{lookup, insert, erase}

pub record Hub : Type 0 where
  pub clients : List (ℕ × Bool)
  pub broadcast : List Text
  pub queue : ℕ → List Text
  pub closed : ℕ → Bool
  -- whether the client's read pump runs
  pub reading : ℕ → Bool
  pub next : ℕ
  pub panicked : Bool

unfoldable pub new_hub : Hub
new_hub = record {
  clients = [];
  broadcast = [];
  queue = λ c. [];
  closed = λ c. false;
  reading = λ c. false;
  next = 0;
  panicked = false;
}

-- the room of a channel
abbrev pub channel_size : ℕ
channel_size = 256

abbrev pub set {ℓ} : {A : Type ℓ} → ℕ → A → (ℕ → A) → ℕ → A
set c a f d = if c == d then a else f d

abbrev pub panic : Hub → Hub
panic h = record h { panicked = true }

-- `client.send <- message`, where there is room
abbrev pub send : ℕ → Text → Hub → Hub
send c message h =
    if h.closed c then panic h else record h { queue = set c (h.queue c ++ (message ∷ [])) h.queue }

-- `close(client.send)`
abbrev pub close : ℕ → Hub → Hub
close c h = if h.closed c then panic h else record h { closed = set c true h.closed }

-- `HandleWebSocket` and the hub's `register`: a new client, and its pumps.
unfoldable pub register : Hub → Hub
unfolding insert
register h = record h {
  clients = insert ℕ_discrete h.next true h.clients;
  reading = set h.next true h.reading;
  next = suc h.next;
}

-- The hub's `unregister`, when a read pump ends.
unfoldable pub unregister : ℕ → Hub → Hub
unfolding lookup erase
unregister c h =
    let stopped = record h { reading = set c false h.reading } in
    elim (lookup ℕ_discrete c h.clients) [
      | none ↦ stopped
      | some b ↦ close c (record stopped { clients = erase ℕ_discrete c h.clients })
    ]

-- the message to one client
unfoldable pub send_or_close : Text → ℕ → Hub → Hub
unfolding erase
send_or_close message c h =
    if ltb (length (h.queue c)) channel_size
    then send c message h
    else (let h1 = close c h in record h1 { clients = erase ℕ_discrete c h1.clients })

unfoldable pub send_all : Text → List (ℕ × Bool) → Hub → Hub
unfolding send_or_close
send_all message [] h = h
send_all message ((c, b) ∷ rest) h = send_all message rest (send_or_close message c h)

-- the hub's `broadcast`: the first waiting message goes to all clients
unfoldable pub deliver : Hub → Hub
unfolding send_all
deliver h = elim h.broadcast [
  | [] ↦ h
  | message ∷ rest ↦ send_all message h.clients (record h { broadcast = rest })
]

-- `BroadcastUpdate`: a message is skipped when the channel is full.
unfoldable pub broadcast_update : Text → Hub → Hub
broadcast_update message h =
    if ltb (length h.broadcast) channel_size
    then record h { broadcast = h.broadcast ++ (message ∷ []) }
    else h

-- A read pump answers a ping; it waits while the open channel is full.
unfoldable pub answer_ping : ℕ → Hub → Hub
answer_ping c h =
    if h.closed c
    then panic h
    else if ltb (length (h.queue c)) channel_size
    then send c (text "{\"type\":\"pong\"}") h
    else h

-- A write pump takes a message.
unfoldable pub write : ℕ → Hub → Hub
write c h = elim (h.queue c) [ [] ↦ h | message ∷ rest ↦ record h { queue = set c rest h.queue } ]

pub data HubEvent : Type 0 where
  connects : HubEvent
  leaves : ℕ → HubEvent
  updates : Text → HubEvent
  broadcasts : HubEvent
  pings : ℕ → HubEvent
  writes : ℕ → HubEvent

-- A read pump acts only while it runs.
unfoldable pub hub_step : HubEvent → Hub → Hub
unfolding register unregister broadcast_update deliver answer_ping write
hub_step connects h = register h
hub_step (leaves c) h = if h.reading c then unregister c h else h
hub_step (updates message) h = broadcast_update message h
hub_step broadcasts h = deliver h
hub_step (pings c) h = if h.reading c then answer_ping c h else h
hub_step (writes c) h = write c h

unfoldable pub hub_run : List HubEvent → Hub → Hub
unfolding hub_step
hub_run [] h = h
hub_run (e ∷ es) h = hub_run es (hub_step e h)

-- ===== src/Web/Channels.antt =====
-- The channels of the websocket clients, web/websocket.go: which are open, and what each
-- of the hub's operations does to them.
use native.Mathlib.Decide.{ℕ_discrete}
use nectar.Prelude.{
  ℕ, ◌≤◌, ◌<◌, ◌≡◌, ◌≢◌, refl, sym, ap, ◌∙◌, inl, inr, Bool, true, false, some, List, [], ◌∷◌, ◌++◌,
  ltb, ◌==◌, if◌then◌else◌, if-cases, option-cases_eq, length, Text, arith, Bool-cases,
}
use nectar.Prelude.Dict.{
  lookup, insert, erase, Distinct, lookup-insert_ne, lookup-erase_self, lookup-erase_ne,
  Distinct-insert, Distinct-erase,
}
use nectar.Web.Hub.{
  Hub, channel_size, set, panic, send, close, register, unregister, send_or_close, send_all,
  deliver,
}

-- A client of the map has an open channel and is one of those that were made; no client stands
-- twice; a client that was not made has an open channel.
pub record Ordered (h : Hub) : Type 0 where
  pub open_clients :
      (c : ℕ) (b : Bool) → lookup ℕ_discrete c h.clients ≡ some b → h.closed c ≡ false
  pub made : (c : ℕ) (b : Bool) → lookup ℕ_discrete c h.clients ≡ some b → c < h.next
  pub fresh : (c : ℕ) → h.next ≤ c → h.closed c ≡ false
  pub distinct : Distinct ℕ_discrete h.clients

-- a client out of the map, its channel closed
abbrev dropped : ℕ → Hub → Hub
dropped c h = record h { clients = erase ℕ_discrete c h.clients; closed = set c true h.closed }

dropped-Ordered :
    (c : ℕ) (b : Bool) (h : Hub)
    → Ordered h
    → lookup ℕ_discrete c h.clients ≡ some b
    → Ordered (dropped c h)
dropped-Ordered c b h o e = record {
  open_clients = λ d b' l. elim (Bool-cases (c == d)) [
    | inl t ↦ absurd (gone d b' l (ground (arith, t)))
    | inr f ↦
        ap (λ (x : Bool). if x then true else h.closed d) f
        ∙ o.open_clients d b' (kept d b' l (ground (arith, f)))
  ];
  made = λ d b' l. elim (Bool-cases (c == d)) [
    | inl t ↦ absurd (gone d b' l (ground (arith, t)))
    | inr f ↦ o.made d b' (kept d b' l (ground (arith, f)))
  ];
  fresh = λ d l. ap (λ (x : Bool). if x then true else h.closed d) (older d l) ∙ o.fresh d l;
  distinct = Distinct-erase ℕ_discrete c h.clients o.distinct;
}
  where
    gone :
        (d : ℕ) (b' : Bool) → lookup ℕ_discrete d (erase ℕ_discrete c h.clients) ≡ some b' → c ≢ d
    gone d b' l q = ground (arith, l, q, lookup-erase_self ℕ_discrete c h.clients o.distinct)

    kept :
        (d : ℕ) (b' : Bool)
        → lookup ℕ_discrete d (erase ℕ_discrete c h.clients) ≡ some b'
        → d ≢ c
        → lookup ℕ_discrete d h.clients ≡ some b'
    kept d b' l q = sym (lookup-erase_ne ℕ_discrete d c h.clients q) ∙ l

    older : (d : ℕ) → h.next ≤ d → (c == d) ≡ false
    older d l = ground (arith, l, o.made c b e)

send-open :
    (c : ℕ) (m : Text) (h : Hub)
    → h.closed c ≡ false
    → send c m h ≡ record h { queue = set c (h.queue c ++ (m ∷ [])) h.queue }
send-open c m h e =
    ap
      (λ (x : Bool).
        if x then panic h else record h { queue = set c (h.queue c ++ (m ∷ [])) h.queue })
      e

close-open :
    (c : ℕ) (h : Hub) → h.closed c ≡ false → close c h ≡ record h { closed = set c true h.closed }
close-open c h e =
    ap (λ (x : Bool). if x then panic h else record h { closed = set c true h.closed }) e

send_or_close-open :
    (m : Text) (c : ℕ) (h : Hub)
    → h.closed c ≡ false
    → send_or_close m c h ≡ (
        if ltb (length (h.queue c)) channel_size
        then record h { queue = set c (h.queue c ++ (m ∷ [])) h.queue }
        else dropped c h)
unfolding send_or_close
send_or_close-open m c h e = rw (e, send_or_close) refl

-- What one send keeps: the order, no new panic, and the other clients.
record Sent (c : ℕ) (h h' : Hub) : Type 0 where
  ordered : Ordered h'
  calm : h'.panicked ≡ h.panicked
  others : (d : ℕ) → d ≢ c → lookup ℕ_discrete d h'.clients ≡ lookup ℕ_discrete d h.clients

send_or_close-Sent :
    (m : Text) (c : ℕ) (b : Bool) (h : Hub)
    → Ordered h
    → lookup ℕ_discrete c h.clients ≡ some b
    → Sent c h (send_or_close m c h)
send_or_close-Sent m c b h o e = rw (send_or_close-open m c h (o.open_clients c b e)) (
    if-cases (Sent c h) (ltb (length (h.queue c)) channel_size) _ _
      (λ _. record {
        ordered = record {
          open_clients = o.open_clients;
          made = o.made;
          fresh = o.fresh;
          distinct = o.distinct;
        };
        calm = refl;
        others = λ d n. refl;
      })
      (λ _. record {
        ordered = dropped-Ordered c b h o e;
        calm = refl;
        others = λ d n. lookup-erase_ne ℕ_discrete d c h.clients n;
      }))

head_found :
    (c : ℕ) (b : Bool) (rest : List (ℕ × Bool)) → lookup ℕ_discrete c ((c, b) ∷ rest) ≡ some b
unfolding lookup
head_found c b rest = ground arith

skip_head :
    (q c : ℕ) (b : Bool) (rest : List (ℕ × Bool))
    → q ≢ c
    → lookup ℕ_discrete q ((c, b) ∷ rest) ≡ lookup ℕ_discrete q rest
unfolding lookup
skip_head q c b rest n = ground arith

-- The loop over entries that are all in the map.
send_all-Ordered :
    (m : Text) (cs : List (ℕ × Bool)) (h : Hub)
    → Ordered h
    → Distinct ℕ_discrete cs
    → ((d : ℕ) (b : Bool)
        → lookup ℕ_discrete d cs ≡ some b
        → lookup ℕ_discrete d h.clients ≡ some b)
    → Ordered (send_all m cs h) × ((send_all m cs h).panicked ≡ h.panicked)
unfolding send_all
send_all-Ordered m [] h o d there = (o, refl)
send_all-Ordered m ((c, b) ∷ rest) h o (alone, d) there =
    let s = send_or_close-Sent m c b h o (there c b (head_found c b rest)) in
    let (o', calm) =
      send_all-Ordered m rest (send_or_close m c h) s.ordered d
        (λ q v l. s.others q (other q v l) ∙ there q v (tail_found q v l)) in
    (o', calm ∙ s.calm)
  where
    other : (q : ℕ) (v : Bool) → lookup ℕ_discrete q rest ≡ some v → q ≢ c
    other q v l e = ground (arith, l, e, alone)

    tail_found :
        (q : ℕ) (v : Bool)
        → lookup ℕ_discrete q rest ≡ some v
        → lookup ℕ_discrete q ((c, b) ∷ rest) ≡ some v
    tail_found q v l = skip_head q c b rest (other q v l) ∙ l

pub deliver-Ordered :
    (h : Hub) → Ordered h → Ordered (deliver h) × ((deliver h).panicked ≡ h.panicked)
unfolding deliver
deliver-Ordered h o = delivered h.broadcast
  where
    delivered :
        (ms : List Text)
        → Ordered
            (elim ms [ [] ↦ h | m ∷ rest ↦ send_all m h.clients (record h { broadcast = rest }) ])
          × ((elim ms as (λ x. Hub) [
            | [] ↦ h
            | m ∷ rest ↦ send_all m h.clients (record h { broadcast = rest })
          ]).panicked
              ≡ h.panicked)
    delivered [] = (o, refl)
    delivered (m ∷ rest) =
        send_all-Ordered m h.clients (record h { broadcast = rest })
          (record {
            open_clients = o.open_clients;
            made = o.made;
            fresh = o.fresh;
            distinct = o.distinct;
          })
          o.distinct (λ d b l. l)

pub register-Ordered : (h : Hub) → Ordered h → Ordered (register h)
unfolding register
register-Ordered h o = record {
  open_clients = λ c b l. elim (Bool-cases (c == h.next)) [
    | inl t ↦ o.fresh c (ground (arith, t))
    | inr f ↦ o.open_clients c b (older c b l (ground (arith, f)))
  ];
  made = λ c b l. elim (Bool-cases (c == h.next)) [
    | inl t ↦ ground (arith, t)
    | inr f ↦ ground (arith, o.made c b (older c b l (ground (arith, f))))
  ];
  fresh = λ c l. o.fresh c (omega (arith, l));
  distinct = Distinct-insert ℕ_discrete h.next true h.clients o.distinct;
}
  where
    older :
        (c : ℕ) (b : Bool)
        → lookup ℕ_discrete c (insert ℕ_discrete h.next true h.clients) ≡ some b
        → c ≢ h.next
        → lookup ℕ_discrete c h.clients ≡ some b
    older c b l n = sym (lookup-insert_ne ℕ_discrete c h.next true h.clients n) ∙ l

pub unregister-Ordered :
    (c : ℕ) (h : Hub)
    → Ordered h
    → Ordered (unregister c h) × ((unregister c h).panicked ≡ h.panicked)
unfolding unregister
unregister-Ordered c h o =
    option-cases_eq (λ (h' : Hub). Ordered h' × (h'.panicked ≡ h.panicked))
      (lookup ℕ_discrete c h.clients) _ _
      (λ _. (
        record {
          open_clients = o.open_clients;
          made = o.made;
          fresh = o.fresh;
          distinct = o.distinct;
        },
        refl,
      ))
      (λ b e.
        let d = dropped-Ordered c b h o e in
        rw
          (close-open c
            (record h { reading = set c false h.reading; clients = erase ℕ_discrete c h.clients })
            (o.open_clients c b e))
          (
            record {
              open_clients = d.open_clients;
              made = d.made;
              fresh = d.fresh;
              distinct = d.distinct;
            },
            refl,
          ))

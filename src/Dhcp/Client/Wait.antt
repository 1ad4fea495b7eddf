-- ===== src/Dhcp/Client/Wait.antt =====
-- kernel/dhcp.c: `dhcp_wait` ends once the clock has run past its limit, and what it has then.
use un_orion.Common.{
  ℕ, ◌≡◌, ◌≢◌, ◌⊎◌, inl, inr, refl, ap, ◌∙◌, Bool, true, false, Option, none, some, pos, minus_one,
  List, [], ◌∷◌, Bytes, length, if◌then◌else◌, Bool-cases, done, arith,
}
use un_orion.Dhcp.{offer, ack}
use un_orion.Dhcp.Client.{
  Client, Round, rx, poll, send_broadcast, elapsed, never, resend_due, same_event, is_negative,
  wait_loop, wait,
}
use un_orion.Dhcp.Client.Receive.{Received, rx-Received}

-- The phase of the exchange with the message that it waits for.
abbrev pub IsPhase : ℕ → ℕ → Type 0
IsPhase phase wanted = ((phase ≡ 1) × (wanted ≡ offer)) ⊎ ((phase ≡ 2) × (wanted ≡ ack))

-- The rounds of the clock reach the limit.
abbrev pub Expires : ℕ → ℕ → List Round → Type 0
Expires start timeout_ms [] = ⊥
Expires start timeout_ms (r ∷ rounds) =
    (elapsed r.test_ms start timeout_ms ≡ true) ⊎ Expires start timeout_ms rounds

later_round :
    (start timeout_ms : ℕ) (r : Round) (rounds : List Round)
    → elapsed r.test_ms start timeout_ms ≡ false
    → Expires start timeout_ms (r ∷ rounds)
    → Expires start timeout_ms rounds
later_round start timeout_ms r rounds h (inl over) = cc
later_round start timeout_ms r rounds h (inr more) = more

module _ (mac : Bytes) (xid phase wanted : ℕ) where
  -- The client in the loop: its event is the wanted one only if the lease that came with it is of the
  -- wanted type.
  pub record IsWaiting (c : Client) : Type 0 where
    pub mac_kept : c.mac ≡ mac
    pub xid_kept : c.xid ≡ xid
    pub phase_kept : c.phase ≡ phase
    pub event_means :
        (c.event ≡ pos 0)
        ⊎ (c.event ≡ minus_one)
        ⊎ ((c.event ≡ pos wanted) × (c.rx_lease.message_type ≡ wanted))

  pub data Waited : Option (Bool × Client) → Type 0 where
    unfinished : Waited none
    gave_up : (c : Client) → c.mac ≡ mac → Waited (some (false, c))
    got :
        (c : Client)
        → c.mac ≡ mac
        → c.xid ≡ xid
        → c.rx_lease.message_type ≡ wanted
        → Waited (some (true, c))

  module _ (six : length mac ≡ 6) (ph : IsPhase phase wanted) where
    Received-IsWaiting : {c c' : Client} → Received c c' → IsWaiting c → IsWaiting c'
    Received-IsWaiting r w = ground arith

    rx-IsWaiting :
        (c : Client) (frame : Bytes)
        → IsWaiting c
        → (c' : Client) × (rx c frame ≡ done c') × IsWaiting c'
    rx-IsWaiting c frame w =
        let (c', e, r) = rx-Received c frame (ap length w.mac_kept ∙ six) in
        (c', e, Received-IsWaiting r w)

    poll-IsWaiting :
        (c : Client) (frames : List Bytes)
        → IsWaiting c
        → (c' : Client) × (poll c frames ≡ done c') × IsWaiting c'
    unfolding poll
    poll-IsWaiting c [] w = (c, refl, w)
    poll-IsWaiting c (frame ∷ frames) w =
        let (c', e, w') = rx-IsWaiting c frame w in
        let (c'', e', w'') = poll-IsWaiting c' frames w' in (c'', rw (e, e'), w'')

    send-IsWaiting :
        (due : Bool) (frame packet : Bytes) (c : Client)
        → IsWaiting c
        → IsWaiting (if due then send_broadcast frame packet c else c)
    unfolding send_broadcast
    send-IsWaiting due frame packet c w = ground arith

    hit-wanted :
        (c : Client)
        → IsWaiting c
        → same_event c.event wanted ≡ true
        → c.rx_lease.message_type ≡ wanted
    hit-wanted c w h = ground arith

    -- After one turn: the two ways to return, or another turn.
    turn-Waited :
        (c : Client) (again : Option (Bool × Client))
        → IsWaiting c
        → Waited again
        → (r : Option (Bool × Client)) × ((if same_event c.event wanted
              then done (some (true, c))
              else if is_negative c.event
              then done (some (false, c))
              else done again)
            ≡ done r)
          × Waited r
          × (again ≢ none → r ≢ none)
    turn-Waited c again w h = elim (Bool-cases (same_event c.event wanted)) [
      | inl hit ↦
          (some (true, c), rw hit, got c w.mac_kept w.xid_kept (hit-wanted c w hit), λ live e. cc)
      | inr miss ↦ elim (Bool-cases (is_negative c.event)) [
        | inl refused ↦ (some (false, c), rw (miss, refused), gave_up c w.mac_kept, λ live e. cc)
        | inr open_ ↦ (again, rw (miss, open_), h, λ live. live)
      ]
    ]

    -- The loop of `dhcp_wait` never faults. It returns 1 only with a lease of the wanted type in
    -- `rx_lease`, and it does return if the rounds reach the limit.
    wait_loop-Waited :
        (frame packet : Bytes) (timeout_ms start last_tx : ℕ) (rounds : List Round) (c : Client)
        → IsWaiting c
        → (r : Option (Bool × Client)) × (wait_loop frame packet wanted timeout_ms start last_tx
              rounds c
            ≡ done r)
          × Waited r
          × (Expires start timeout_ms rounds → r ≢ none)
    unfolding wait_loop
    wait_loop-Waited frame packet timeout_ms start last_tx [] c w =
        (none, refl, unfinished, λ h. elim h [ ])
    wait_loop-Waited frame packet timeout_ms start last_tx (r ∷ rounds) c w =
        let due = resend_due r.now_ms last_tx in
        let last = if due then r.now_ms else last_tx in
        let (c', e, w') = poll-IsWaiting _ r.frames (send-IsWaiting due frame packet c w) in
        let (again, later, h, live) =
          wait_loop-Waited frame packet timeout_ms start last rounds c' w' in
        let (out, now, g, keep) = turn-Waited c' again w' h in
        elim (Bool-cases (elapsed r.test_ms start timeout_ms)) [
          | inl over ↦ (some (false, c), rw over, gave_up c w.mac_kept, λ x y. cc)
          | inr more ↦ (
            out,
            rw (more, e, later) now,
            g,
            λ x. keep (live (later_round start timeout_ms r rounds more x)),
          )
        ]

    -- The same for `dhcp_wait`, from any client with this address and transaction.
    pub wait-Waited :
        (frame packet : Bytes) (timeout_ms start : ℕ) (rounds : List Round) (c : Client)
        → c.mac ≡ mac
        → c.xid ≡ xid
        → (r : Option (Bool × Client)) × (wait frame packet phase wanted timeout_ms start rounds c
            ≡ done r)
          × Waited r
          × (Expires start timeout_ms rounds → r ≢ none)
    unfolding wait
    wait-Waited frame packet timeout_ms start rounds c e f =
        wait_loop-Waited frame packet timeout_ms start never rounds
          (record c { phase = phase; event = pos 0 })
          (record { mac_kept = e; xid_kept = f; phase_kept = refl; event_means = inl refl })

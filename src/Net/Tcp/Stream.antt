-- ===== src/Net/Tcp/Stream.antt =====
-- A segment keeps what the TCP client of src/kernel/net/net_tcp.c has received of the peer's stream.
use szczupak_os.Net.Tcp.Order.{
  closing, accept-InOrder, part, opening, acknowledge-InOrder, touched, IsGenuine, InOrder,
}
use szczupak_os.Net.Tcp.{
  is_ack, is_syn, open_connection, is_rst, is_fin, Sent, out_of_order, handle_segment,
  client_matches, acknowledge, accept, store_payload, send_segment, Surroundings, Segment, Client,
}
use szczupak_os.Net.Bytes.{ip_is_zero, Bytes}
use szczupak_os.Base.{
  if_cases, ℕ, ◌+◌, ◌%◌, ◌^◌, ◌<◌, ◌≡◌, refl, ap, ◌∙◌, subst, ◌⊎◌, inl, inr, Bool, true, false, not,
  ◌&&◌, ◌||◌, List, arith, ltb, ◌==◌, if◌then◌else◌, ge→ltb, ==→eq, Bool-cases, if_elim, add32,
}

not-true : (b : Bool) → not b ≡ true → b ≡ false
not-true true e = absurd (cc)
not-true false e = refl

not-false : (b : Bool) → not b ≡ false → b ≡ true
not-false true e = refl
not-false false e = absurd (cc)

-- What may arrive: segments of other connections, resets, and what the peer really sends.
abbrev pub MayArrive : (f : Bytes) (n iss : ℕ) → Segment → Client → Type 0
MayArrive f n iss seg c =
    client_matches seg.src_ip seg.src_port seg.dst_port c ≡ true
    → (is_rst seg.flags ≡ true) ⊎ IsGenuine f n iss seg

-- The stream received so far.
pub record Received (f : Bytes) (n iss : ℕ) (c : Client) : Type 0 where
  pub received : ℕ
  pub closed : Bool
  pub in_order : InOrder f n iss received closed c
  pub room : c.rx_capacity < 2 ^ 32

module _ (f : Bytes) (n iss : ℕ) (small : n + 2 < 2 ^ 32) where
  acknowledge_room :
      (e : Surroundings) (c : Client) → (acknowledge e c).2.rx_capacity ≡ c.rx_capacity
  unfolding send_segment
  acknowledge_room e c =
      elim (Bool-cases (not c.active || (not e.configured || ip_is_zero e.own_ip))) [
        | inl a ↦ rw a refl
        | inr a ↦ elim (Bool-cases (not e.sends)) [
          | inl b ↦ rw (a, b) refl
          | inr b ↦ rw (a, b) refl
        ]
      ]

  acknowledge-Received :
      (e : Surroundings) (c : Client) → Received f n iss c → Received f n iss (acknowledge e c).2
  acknowledge-Received e c h = record {
    received = h.received;
    closed = h.closed;
    in_order = acknowledge-InOrder f n iss small h.received h.closed e c h.in_order;
    room = omega (arith, acknowledge_room e c, h.room);
  }

  touched-Received :
      (c : Client) (nxt tick : ℕ)
      → Received f n iss c
      → Received f n iss (record c { snd_nxt = nxt; last_activity_tick = tick })
  touched-Received c nxt tick h = record {
    received = h.received;
    closed = h.closed;
    in_order = touched f n iss small h.received h.closed c nxt tick h.in_order;
    room = h.room;
  }

  opened-Received :
      (seg : Segment) (c : Client)
      → seg.sequence ≡ iss % 2 ^ 32
      → c.established ≡ false
      → Received f n iss c
      → Received f n iss (record c { established = true; rcv_nxt = add32 seg.sequence 1 })
  opened-Received seg c at down h =
      let (none_yet, open_yet) = h.in_order.before down in
      record {
        received = h.received;
        closed = h.closed;
        in_order = record {
          within = h.in_order.within;
          next = λ _. rw (none_yet, open_yet) (omega arith);
          before = λ e. absurd (cc);
          all = h.in_order.all;
          stored = h.in_order.stored;
          prefix = h.in_order.prefix;
          cut = h.in_order.cut;
          ended = h.in_order.ended;
          done = h.in_order.done;
        };
        room = h.room;
      }

  reset-Received :
      (c : Client)
      → Received f n iss c
      → Received f n iss (record c { reset = true; finished = true })
  reset-Received c h = record {
    received = h.received;
    closed = h.closed;
    in_order = record {
      within = h.in_order.within;
      next = h.in_order.next;
      before = h.in_order.before;
      all = h.in_order.all;
      stored = h.in_order.stored;
      prefix = h.in_order.prefix;
      cut = h.in_order.cut;
      ended = λ _. refl;
      done = λ _. inl refl;
    };
    room = h.room;
  }

  open_connection-Received :
      (e : Surroundings) (seg : Segment) (c : Client)
      → IsGenuine f n iss seg
      → c.established ≡ false
      → Received f n iss c
      → Received f n iss (open_connection e seg c).2
  open_connection-Received e seg c genuine down h =
      elim (Bool-cases (is_syn seg.flags && (is_ack seg.flags && seg.ack_number == c.snd_nxt))) [
        | inr a ↦ rw a h
        | inl a ↦
            let syn : is_syn seg.flags ≡ true = ground arith in
            let at : seg.sequence ≡ iss % 2 ^ 32 = elim genuine [
              | opening s l g ↦ s
              | part o s l d g w ↦ absurd (cc)
              | closing s l g w ↦ absurd (cc)
            ] in
            rw a (acknowledge-Received e _ (opened-Received seg c at down h))
      ]

  out_of_order-Received :
      (e : Surroundings) (seg : Segment) (c : Client)
      → Received f n iss c
      → Received f n iss (out_of_order e seg c).2
  out_of_order-Received e seg c h =
      if_elim (λ (x : Bool × List Sent × Client). Received f n iss x.2)
        (ltb 0 seg.payload_length || (is_fin seg.flags || is_syn seg.flags))
        (acknowledge-Received e c h) h

  accept_room :
      (e : Surroundings) (seg : Segment) (c : Client)
      → (accept e seg c).2.rx_capacity ≡ c.rx_capacity
  unfolding store_payload
  accept_room e seg c =
      let c1 = if ltb 0 seg.payload_length then store_payload seg c else c in
      let c2 : Client =
        if is_fin seg.flags
        then record c1 { rcv_nxt = add32 c1.rcv_nxt 1; finished = true }
        else c1 in
      let first : c1.rx_capacity ≡ c.rx_capacity =
        if_elim (λ (x : Client). x.rx_capacity ≡ c.rx_capacity) (ltb 0 seg.payload_length) refl
          refl in
      let second : c2.rx_capacity ≡ c.rx_capacity =
        if_elim (λ (x : Client). x.rx_capacity ≡ c.rx_capacity) (is_fin seg.flags) first first in
      if_elim (λ (x : Bool × List Sent × Client). x.2.rx_capacity ≡ c.rx_capacity)
        (ltb 0 seg.payload_length || is_fin seg.flags) (acknowledge_room e c2 ∙ second) second

  open-InOrder :
      (c : Client) (h : Received f n iss c) → h.closed ≡ false → InOrder f n iss h.received false c
  open-InOrder c h e = subst (λ b. InOrder f n iss h.received b c) e h.in_order

  -- The segment that comes next, of what the peer sends.
  accept-Received :
      (e : Surroundings) (seg : Segment) (c : Client)
      → IsGenuine f n iss seg
      → c.established ≡ true
      → seg.sequence ≡ c.rcv_nxt
      → Received f n iss c
      → Received f n iss (accept e seg c).2
  accept-Received e seg c (opening s l g) up at h =
      let next = h.in_order.next up in
      let within = h.in_order.within in
      elim (Bool-cases h.closed) [
        | inl y ↦ absurd (omega (arith, rw y at next))
        | inr y ↦ absurd (omega (arith, rw y at next))
      ]
  accept-Received e seg c (closing s l g w) up at h =
      rw (ge→ltb 0 seg.payload_length (omega arith), g) h
  accept-Received e seg c (part o s l same syn w) up at h =
      let next = h.in_order.next up in
      let within = h.in_order.within in
      elim (Bool-cases h.closed) [
        | inl y ↦ let whole = h.in_order.all y in absurd (omega (arith, rw y at next))
        | inr y ↦
            let next' : c.rcv_nxt ≡ (iss + 1 + h.received) % 2 ^ 32 = omega (arith, rw y at next) in
            let here : o ≡ h.received = omega arith in
            record {
              received = h.received + seg.payload_length;
              closed = is_fin seg.flags;
              in_order =
                  accept-InOrder f n iss small h.received e seg c h.room up (omega arith)
                    (λ j k. same j k ∙ ap (λ x. f (x + j)) here) (λ z. omega (arith, w z))
                    (open-InOrder c h y);
              room = omega (arith, accept_room e seg c, h.room);
            }
      ]

  pub handle_segment-Received :
      (e : Surroundings) (seg : Segment) (c : Client)
      → MayArrive f n iss seg c
      → Received f n iss c
      → Received f n iss (handle_segment e seg c).2
  unfolding handle_segment
  handle_segment-Received e seg c may h =
      let c1 = record c { last_activity_tick = e.ticks } in
      let h1 : Received f n iss c1 = touched-Received c c.snd_nxt e.ticks h in
      let P : Bool × List Sent × Client → Type 0 = λ x. Received f n iss x.2 in
      elim (Bool-cases (client_matches seg.src_ip seg.src_port seg.dst_port c)) [
        | inr a ↦ rw a h
        | inl a ↦ elim (Bool-cases (is_rst seg.flags)) [
          | inl b ↦ rw (a, b) (reset-Received c1 h1)
          | inr b ↦
              let genuine : IsGenuine f n iss seg = elim (may a) [
                | inl r ↦ absurd (cc)
                | inr g ↦ g
              ] in
              rw (a, b)
                (if_cases P (not c.established)
                  (λ d. open_connection-Received e seg c1 genuine (not-true c.established d) h1)
                  (λ d.
                    if_cases P (not (seg.sequence == c.rcv_nxt))
                      (λ k. out_of_order-Received e seg c1 h1)
                      (λ k.
                        accept-Received e seg c1 genuine (not-false c.established d)
                          (==→eq seg.sequence c.rcv_nxt (not-false (seg.sequence == c.rcv_nxt) k))
                          h1)))
        ]
      ]

  pub send_segment-Received :
      (e : Surroundings) (flags payload_length : ℕ) (c : Client)
      → Received f n iss c
      → Received f n iss (send_segment flags payload_length e c).2
  unfolding send_segment
  send_segment-Received e flags payload_length c h =
      elim (Bool-cases (not c.active || (not e.configured || ip_is_zero e.own_ip))) [
        | inl a ↦ rw a h
        | inr a ↦ elim (Bool-cases (not e.sends)) [
          | inl b ↦ rw (a, b) h
          | inr b ↦ rw (a, b) (touched-Received c _ c.last_activity_tick h)
        ]
      ]

-- ===== src/UdpNetwork/Meeting/Interleaving.antt =====
-- src/UDPNetwork.cpp: two nodes that take each other's datagrams, in whatever order they have their turns.
use kapua.Prelude.{
  ℕ, suc, ◌≤◌, ◌<◌, ◌≡◌, refl, ap, ◌∙◌, inl, inr, Bool, true, false, List, [], ◌∷◌, some, take,
  get_elem?, arith, get_elem?-take, get_elem?-take-none, ltb, lt→ltb,
}
use kapua.Prelude.Results.{ok}
use kapua.OpenSsl.{OpenSsl}
use kapua.Address.{SockaddrHashable, addr_eq_refl, htons}
use kapua.UdpNetwork.State.{System, Datagram}
use kapua.UdpNetwork.Receive.{Receiver, datagram}
use kapua.UdpNetwork.Service.{take_packet, broadcast_address}
use kapua.UdpNetwork.Meeting.{World, is_for, IsFair, turn_of, exchange}
use kapua.UdpNetwork.Meeting.Turns.{
  sent_by_a, sent_by_b, count_a, before_or_not, next_a, next_b, after, next_a-le, next_b-le,
  after-IsFair,
}

pub is_for_self : (me : SockaddrHashable) → is_for me me ≡ true
unfolding is_for
is_for_self me = rw (addr_eq_refl me) refl

pub is_for_broadcast :
    (port : ℕ) (me : SockaddrHashable)
    → me.sin_port ≡ htons port
    → is_for (broadcast_address port) me ≡ true
unfolding is_for broadcast_address
is_for_broadcast port me e = ground (arith, e)

le→ltb : (i n : ℕ) → n ≤ i → ltb i n ≡ false
le→ltb i n h = ground arith

-- A node's states, by the number of datagrams taken: what it has sent in each, and that it gets from
-- each to the next with the datagram that the other sends as that number.
pub record Track (o : OpenSsl) (me addr : SockaddrHashable) (s t : ℕ → System) (at : ℕ → Receiver)
    (theirs own : List Datagram) (count : ℕ → ℕ) (limit : ℕ) : Type 0 where
  pub sent : (i : ℕ) → i ≤ limit → (at i).net.sent ≡ take (count i) own
  pub takes :
      (i : ℕ)
      → i < limit
      → (to : SockaddrHashable) × (bytes : List ℕ) × (get_elem? theirs i ≡ some (to, bytes))
        × (is_for to me ≡ true)
        × (take_packet o (s i) (t i) (datagram addr bytes) (at i) ≡ ok (at (suc i)))

module _ (o : OpenSsl) (addr_a addr_b : SockaddrHashable) (sa ta sb tb : ℕ → System)
    (at_a at_b : ℕ → Receiver) (all_a all_b : List Datagram)
    (of_a : Track o addr_a addr_b sa ta at_a all_b all_a sent_by_a 4)
    (of_b : Track o addr_b addr_a sb tb at_b all_a all_b sent_by_b 5) where
  abbrev pub world : ℕ → ℕ → World
  world i j = record { a = at_a i; b = at_b j; taken_by_a = i; taken_by_b = j }

  turn_a :
      (i j : ℕ)
      → i ≤ 4
      → j ≤ 5
      → turn_of o addr_a addr_b sa ta sb tb false (world i j) ≡ ok (world (next_a i j) j)
  unfolding turn_of
  turn_a i j h k = elim (before_or_not i (sent_by_b j)) [
    | inl l ↦
        let (to, bytes, there, comes, takes) = of_a.takes i (omega arith) in
        let next : get_elem? (at_b j).net.sent i ≡ some (to, bytes) =
          ap (λ ds. get_elem? ds i) (of_b.sent j k)
          ∙ get_elem?-take (sent_by_b j) i all_b l
          ∙ there in
        rw (next, comes, takes, lt→ltb i (sent_by_b j) l)
    | inr l ↦
        let next =
          ap (λ ds. get_elem? ds i) (of_b.sent j k) ∙ get_elem?-take-none (sent_by_b j) i all_b l in
        rw (next, le→ltb i (sent_by_b j) l)
  ]

  turn_b :
      (i j : ℕ)
      → i ≤ 4
      → j ≤ 5
      → turn_of o addr_a addr_b sa ta sb tb true (world i j) ≡ ok (world i (next_b i j))
  unfolding turn_of
  turn_b i j h k = elim (before_or_not j (sent_by_a i)) [
    | inl l ↦
        let (to, bytes, there, comes, takes) = of_b.takes j (ground (arith, count_a i)) in
        let next : get_elem? (at_a i).net.sent j ≡ some (to, bytes) =
          ap (λ ds. get_elem? ds j) (of_a.sent i h)
          ∙ get_elem?-take (sent_by_a i) j all_a l
          ∙ there in
        rw (next, comes, takes, lt→ltb j (sent_by_a i) l)
    | inr l ↦
        let next =
          ap (λ ds. get_elem? ds j) (of_a.sent i h) ∙ get_elem?-take-none (sent_by_a i) j all_a l in
        rw (next, le→ltb j (sent_by_a i) l)
  ]

  exchange-after :
      (ts : List Bool) (i j : ℕ)
      → i ≤ 4
      → j ≤ 5
      → exchange o addr_a addr_b sa ta sb tb ts (world i j)
        ≡ ok (world (after ts i j).0 (after ts i j).1)
  unfolding exchange
  exchange-after [] i j h k = refl
  exchange-after (false ∷ ts) i j h k =
      rw (turn_a i j h k) (exchange-after ts (next_a i j) j (next_a-le i j h) k)
  exchange-after (true ∷ ts) i j h k =
      rw (turn_b i j h k) (exchange-after ts i (next_b i j) h (next_b-le i j k))

  pub exchange-IsFair :
      (ts : List Bool)
      → IsFair 9 ts
      → exchange o addr_a addr_b sa ta sb tb ts (world 0 0) ≡ ok (world 4 5)
  exchange-IsFair ts fair =
      exchange-after ts 0 0 (omega arith) (omega arith)
      ∙ ap (λ (n : ℕ × ℕ). ok (world n.0 n.1))
          (after-IsFair 9 ts 0 0 fair (omega arith) (omega arith) (omega arith))

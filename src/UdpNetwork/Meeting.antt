-- ===== src/UdpNetwork/Meeting.antt =====
-- src/UDPNetwork.cpp: two nodes on one network, each of which takes what the other has sent, datagram by
-- datagram and in the order of sending.
pub mod Carrier
pub mod Peer
pub mod Newcomer
pub mod Steps
pub mod Encrypted
pub mod Course
pub mod Offers
pub mod Turns
pub mod Interleaving
pub mod Sides
pub mod Meets
mod Sample
use kapua.Prelude.{
  ℕ, suc, Bool, true, false, List, [], ◌∷◌, ◌++◌, none, some, get_elem?, ◌≡◌, ◌||◌, ◌&&◌, ◌==◌,
}
use kapua.Prelude.Results.{Result, ok, ◌>>=◌}
use kapua.OpenSsl.{OpenSsl}
use kapua.Address.{SockaddrHashable, addr_eq, htonl}
use kapua.UdpNetwork.State.{System}
use kapua.UdpNetwork.Receive.{Receiver, datagram}
use kapua.UdpNetwork.Service.{Discovery, take_packet, discover}

-- Both nodes, and how many datagrams of the other each has taken, or passed by as they were not for it.
pub record World : Type 0 where
  pub a : Receiver
  pub b : Receiver
  pub taken_by_a : ℕ
  pub taken_by_b : ℕ

-- Whether the first or the second node has one of the turns.
abbrev pub includes : Bool → List Bool → Bool
includes b [] = false
includes false (false ∷ ts) = true
includes true (true ∷ ts) = true
includes false (true ∷ ts) = includes false ts
includes true (false ∷ ts) = includes true ts

-- Turns that begin with `n` periods, in each of which either node has one, in whatever order.
pub data IsFair : ℕ → List Bool → Type 0 where
  rest : (ts : List Bool) → IsFair 0 ts
  period :
      (n : ℕ) (ts us : List Bool)
      → includes false ts ≡ true
      → includes true ts ≡ true
      → IsFair n us
      → IsFair (suc n) (ts ++ us)

-- A datagram to an address comes to the socket at that address, and one to the broadcast address to every
-- socket at its port. (What a node broadcasts itself, `_receive` would drop by its identity.)
unfoldable pub is_for : SockaddrHashable → SockaddrHashable → Bool
is_for to me = addr_eq to me || ((to.sin_addr == htonl 0xFFFF_FFFF) && (to.sin_port == me.sin_port))

-- The system gives `sa i` to `_receive` of the first node and `ta i` to its `_process_packet` when it
-- takes the datagram `i`, and to the second `sb i` and `tb i`.
module _ (o : OpenSsl) (addr_a addr_b : SockaddrHashable) (sa ta sb tb : ℕ → System) where
  -- One round of the node whose turn it is, `false` for the first: the next datagram of the other, if
  -- that has sent one; one that is for neither address passes by.
  unfoldable pub turn_of : Bool → World → Result World
  unfolding is_for
  turn_of true w = elim (get_elem? w.a.net.sent w.taken_by_b) [
    | none ↦ ok w
    | some (to, bytes) ↦ elim (is_for to addr_b) [
      | false ↦ ok (record w { taken_by_b = suc w.taken_by_b })
      | true ↦ do
        b ← take_packet o (sb w.taken_by_b) (tb w.taken_by_b) (datagram addr_a bytes) w.b
        ok (record w { b = b; taken_by_b = suc w.taken_by_b })
    ]
  ]
  turn_of false w = elim (get_elem? w.b.net.sent w.taken_by_a) [
    | none ↦ ok w
    | some (to, bytes) ↦ elim (is_for to addr_a) [
      | false ↦ ok (record w { taken_by_a = suc w.taken_by_a })
      | true ↦ do
        a ← take_packet o (sa w.taken_by_a) (ta w.taken_by_a) (datagram addr_b bytes) w.a
        ok (record w { a = a; taken_by_a = suc w.taken_by_a })
    ]
  ]

  unfoldable pub exchange : List Bool → World → Result World
  unfolding turn_of
  exchange [] w = ok w
  exchange (t ∷ ts) w = do after ← turn_of t w; exchange ts after

  -- The first node broadcasts its discovery, if that is due, before the turns.
  unfoldable pub meeting :
      System → Discovery → ℕ → ℕ → ℕ → List Bool → Receiver → Receiver → Result World
  unfolding exchange
  meeting sys d port now last ts a b = do
    (last', net) ← discover o sys d port now last a.net
    exchange ts (record { a = record a { net = net }; b = b; taken_by_a = 0; taken_by_b = 0 })

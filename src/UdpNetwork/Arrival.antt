-- ===== src/UdpNetwork/Arrival.antt =====
-- src/UDPNetwork.cpp: `_receive` comes to its end, whatever datagram arrives.
use kapua.Prelude.{
  ℕ, ◌+◌, ◌≤◌, ◌≡◌, ◌⊎◌, refl, ap, ◌∙◌, subst, Bool, true, false, List, ◌++◌, Option, none, some,
  inl, inr, ltb, ◌==◌, length, take, drop, arith, Bool-cases, Option-cases, length-take,
  length-drop,
}
use kapua.Prelude.Bytes.{overwrite, length-overwrite}
use kapua.Prelude.Maps.{find}
use kapua.Prelude.Results.{Result, ok, IsOk}
use kapua.OpenSsl.{OpenSsl, IsBounded}
use kapua.Address.{SockaddrHashable, find_addr}
use kapua.Node.{Node, is_encrypting, new_node_at}
use kapua.Core.{Core, deref}
use kapua.Core.Registry.{added, add_node_lem, new_there}
use kapua.Protocol.{
  Packet, of_bytes, check_magic_valid, check_version_valid, header_size, max_packet_size,
  public_key_request, new_to,
}
use kapua.Rsa.{aes_key_size}
use kapua.UdpNetwork.State.{System}
use kapua.UdpNetwork.Aes.{aes_decrypt}
use kapua.UdpNetwork.Send.{send_plain-IsOk}
use kapua.UdpNetwork.Receive.{
  datagram, Receiver, recvfrom, decrypted, open_packet, node_at, greet, greet_unknown, accept,
  after_open, take_in, receive,
}
use kapua.UdpNetwork.Reception.{find_node_at_lem}
use kapua.UdpNetwork.Evolution.{Sound}

fits : (m n : ℕ) → n ≤ m → ltb m n ≡ false
fits m n h = ground (arith, h)

-- Bytes after the vector, and what may come out of them, fit the buffer: 1450 - 32 + 16 + 16.
aes_decrypt-IsOk :
    (o : OpenSsl) (key bytes : List ℕ) (size : ℕ)
    → IsBounded o
    → length bytes ≡ max_packet_size
    → header_size ≤ size
    → size ≤ max_packet_size
    → IsOk (aes_decrypt o max_packet_size key bytes size)
unfolding aes_decrypt
aes_decrypt-IsOk o key bytes size bounded l low high =
    let iv = take aes_key_size bytes in
    let text = drop aes_key_size (take size bytes) in
    let body : length text ≤ 1418 =
      omega (arith, length-drop aes_key_size (take size bytes), length-take size bytes) in
    let vector : ltb size aes_key_size ≡ false = fits _ _ (omega (arith, low)) in
    let inside : ltb (length bytes) size ≡ false = fits _ _ (omega (arith, l, high)) in
    elim (Bool-cases o.cipher_ctx_new) [
      | inr c ↦ (none, rw c refl)
      | inl c ↦ elim (Bool-cases (o.cipher_decrypt_init key iv)) [
        | inr i ↦ (none, rw (c, i) refl)
        | inl i ↦ elim (Option-cases (o.cipher_decrypt_update key iv text)) [
          | inl u ↦ (none, rw (c, i, vector, inside, u) refl)
          | inr (first, u) ↦
              let room : ltb max_packet_size (length first) ≡ false =
                fits _ _ (omega (arith, body, bounded.update_bound key iv text first u)) in
              elim (Option-cases (o.cipher_decrypt_final key iv text)) [
                | inl f ↦ (none, rw (c, i, vector, inside, u, room, f) refl)
                | inr (last, f) ↦
                    let rest : ltb max_packet_size (length first + length last) ≡ false = fits _ _ (
                      omega (
                        arith,
                        body,
                        bounded.update_bound key iv text first u,
                        bounded.final_bound key iv text last f,
                      )) in
                    (some (first ++ last), rw (c, i, vector, inside, u, room, f, rest) refl)
              ]
        ]
      ]
    ]

-- The node of a receiver lives.
abbrev pub Lives : Receiver → Type 0
Lives r = (p : ℕ) × (n : Node) × (r.node ≡ some p) × (find p r.net.core.heap ≡ some n)

-- A call that returns, with the packet's memory of its size, and with a node that lives where it
-- returns true.
abbrev pub Arrives : Result (Bool × Receiver) → Type 0
Arrives call =
    (arrived : Bool) × (r : Receiver) × (call ≡ ok (arrived, r))
    × (length r.memory ≡ max_packet_size)
    × ((arrived ≡ false) ⊎ Lives r)

live_deref : (p : ℕ) (c : Core) (n : Node) → find p c.heap ≡ some n → deref p c ≡ ok n
unfolding deref
live_deref p c n e = rw (deref, e) refl

initialised_clear :
    (n k : Node) → is_encrypting n.state ≡ false → some n ≡ some k → is_encrypting k.state ≡ false
initialised_clear n k e f =
    let same : n ≡ k = cc in subst (λ (m : Node). is_encrypting m.state ≡ false) same e

length-decrypted :
    (text : Option (List ℕ)) (memory : List ℕ) → length (decrypted text memory).1 ≡ length memory
unfolding decrypted
length-decrypted none memory = refl
length-decrypted (some text) memory = length-overwrite text memory

module _ (o : OpenSsl) (sys : System) where
  greet-Lives :
      (pkt : Packet) (r : Receiver)
      → Sound r.net.core
      → (r' : Receiver) × (greet o sys pkt r ≡ ok r') × (r'.memory ≡ r.memory) × Lives r'
  unfolding greet new_to new_node_at
  greet-Lives pkt r s =
      let c = r.net.core in
      let core = added sys.raw_node pkt.from_id r.from_addr c in
      let p = c.next_pointer in
      let n = new_node_at sys.raw_node pkt.from_id r.from_addr in
      let there = new_there sys.raw_node pkt.from_id r.from_addr c s.inv in
      let live : deref p core ≡ ok n = live_deref p core n there in
      let (sent, e) =
        send_plain-IsOk o sys (some n)
          (new_to public_key_request core.my_id pkt.from_id sys.raw_packet) r.from_addr
          (λ k f. initialised_clear n k refl f) (omega arith) in
      (
        record r { net = record { core = core; sent = r.net.sent ++ sent.1 }; node = some p },
        rw (greet, add_node_lem sys.raw_node pkt.from_id r.from_addr c s.free, live, e) refl,
        refl,
        (p, n, refl, there),
      )

  greet_unknown-Lives :
      (pkt : Packet) (r : Receiver) (node : Option ℕ)
      → Sound r.net.core
      → r.node ≡ node
      → (r.node ≡ none) ⊎ Lives r
      → (t : Receiver) × (greet_unknown o sys pkt r node ≡ ok t) × (t.memory ≡ r.memory) × Lives t
  unfolding greet_unknown
  greet_unknown-Lives pkt r none s e known = greet-Lives pkt r s
  greet_unknown-Lives pkt r (some p) s e (inl unknown) = absurd (ground (arith, e, unknown))
  greet_unknown-Lives pkt r (some p) s e (inr lives) = (r, refl, refl, lives)

  accept-Arrives :
      (r : Receiver)
      → Sound r.net.core
      → length r.memory ≡ max_packet_size
      → (r.node ≡ none) ⊎ Lives r
      → Arrives (accept o sys r)
  unfolding accept
  accept-Arrives r s room known =
      elim (Bool-cases (check_version_valid false (of_bytes r.memory))) [
        | inr v ↦ (false, r, rw (accept, v) refl, room, inl refl)
        | inl v ↦ elim (Bool-cases ((of_bytes r.memory).from_id == r.net.core.my_id)) [
          | inl f ↦ (false, r, rw (accept, v, f) refl, room, inl refl)
          | inr f ↦
              let (t, g, same, lives) =
                greet_unknown-Lives (of_bytes r.memory) r r.node s refl known in
              (true, t, rw (accept, v, f, g) refl, ap (λ m. length m) same ∙ room, inr lives)
        ]
      ]

  after_open-Arrives :
      (r : Receiver) (opened : Bool × List ℕ)
      → Sound r.net.core
      → length opened.1 ≡ max_packet_size
      → (r.node ≡ none) ⊎ Lives r
      → Arrives (after_open o sys r opened)
  unfolding after_open
  after_open-Arrives r (false, memory) s room known =
      (false, record r { memory = memory }, refl, room, inl refl)
  after_open-Arrives r (true, memory) s room known =
      accept-Arrives (record r { memory = memory }) s room known

  open_packet_returns :
      (node : Option Node) (memory : List ℕ) (size : ℕ)
      → IsBounded o
      → length memory ≡ max_packet_size
      → header_size ≤ size
      → size ≤ max_packet_size
      → (opened : Bool × List ℕ) × (open_packet o node memory size ≡ ok opened)
        × (length opened.1 ≡ max_packet_size)
  unfolding open_packet
  open_packet_returns node memory size bounded l low high =
      elim (Bool-cases (check_magic_valid (of_bytes memory))) [
        | inl m ↦ ((true, memory), rw (open_packet, m) refl, l)
        | inr m ↦ elim (Option-cases node) [
          | inl e ↦ ((true, memory), rw (open_packet, m, e) refl, l)
          | inr (n, e) ↦ elim (Bool-cases (is_encrypting n.state)) [
            | inr k ↦ ((true, memory), rw (open_packet, m, e, k) refl, l)
            | inl k ↦
                let (text, d) =
                  aes_decrypt-IsOk o n.aes_context_rx memory size bounded l low high in
                (
                  decrypted text memory,
                  rw (open_packet, m, e, k, d) refl,
                  length-decrypted text memory ∙ l,
                )
          ]
        ]
      ]

  -- The node that the registry gives for an address.
  found-Lives :
      (r : Receiver) (found : Option ℕ)
      → Sound r.net.core
      → find_addr r.from_addr r.net.core.nodes_by_addr ≡ found
      → r.node ≡ found
      → (node : Option Node) × (node_at found r.net ≡ ok node) × ((r.node ≡ none) ⊎ Lives r)
  unfolding node_at
  found-Lives r none s e same = (none, refl, inl same)
  found-Lives r (some p) s e same =
      let (n, lives, _) = s.inv.by_addr r.from_addr p e in
      (some n, rw (live_deref p r.net.core n lives) refl, inr (p, n, same, lives))

  take_in-Arrives :
      (size : ℕ) (r : Receiver)
      → IsBounded o
      → Sound r.net.core
      → length r.memory ≡ max_packet_size
      → header_size ≤ size
      → size ≤ max_packet_size
      → Arrives (take_in o sys size r)
  unfolding take_in
  take_in-Arrives size r bounded s l low high =
      let found = find_addr r.from_addr r.net.core.nodes_by_addr in
      let core = record r.net.core { nodes_locked = false } in
      let t : Receiver = record r { net = record r.net { core = core }; node = found } in
      let sound : Sound core =
        subst (λ b. Sound (record r.net.core { nodes_locked = b })) s.free s in
      let (node, at, known) = found-Lives t found sound refl refl in
      let (opened, opens, room) = open_packet_returns node r.memory size bounded l low high in
      let (arrived, r', e, still, lives) = after_open-Arrives t opened sound room known in
      (
        arrived,
        r',
        rw (take_in, find_node_at_lem r.from_addr r.net.core s.free, at, opens) e,
        still,
        lives,
      )

-- Whatever datagram arrives, `_receive` returns, without an exception and without an access past a
-- buffer, and where it returns true the node that it gives lives, and the packet's memory has its size: provided that the registry is
-- well-formed and free, the packet's memory has its size, and OpenSSL's decryption writes no more than
-- a block more than its input, and a block at the end.
pub receive-Arrives :
    (o : OpenSsl) (sys : System) (addr : SockaddrHashable) (bytes : List ℕ) (r : Receiver)
    → IsBounded o
    → Sound r.net.core
    → length r.memory ≡ max_packet_size
    → Arrives (receive o sys (datagram addr bytes) r)
unfolding receive recvfrom
receive-Arrives o sys addr bytes r bounded s l =
    let cut = take max_packet_size bytes in
    let t : Receiver = record r { memory = overwrite cut r.memory; from_addr = addr } in
    let room = length-overwrite cut r.memory ∙ l in
    elim (Bool-cases (length cut == 0)) [
      | inl z ↦ (false, t, rw (receive, z) refl, room, inl refl)
      | inr z ↦ elim (Bool-cases (ltb (length cut) header_size)) [
        | inl b ↦ (false, t, rw (receive, z, b) refl, room, inl refl)
        | inr b ↦
            let (arrived, r', e, still, lives) =
              take_in-Arrives o sys (length cut) t bounded s room (ground (arith, b))
                (omega (arith, length-take max_packet_size bytes)) in
            (arrived, r', rw (receive, z, b) e, still, lives)
      ]
    ]

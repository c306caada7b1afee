-- ===== src/UdpNetwork/Meeting/Steps.antt =====
-- src/UDPNetwork.cpp: a round of `_main_loop` at each packet of the handshake.
use mathlib.Core.List.{append-nil}
use mathlib.Core.Path.{subst₂}
use kapua.Prelude.{
  ℕ, ◌≡◌, refl, sym, ap, ◌∙◌, subst, true, false, List, [], ◌∷◌, ◌++◌, some, length, arith,
}
use kapua.Prelude.Results.{ok}
use kapua.OpenSsl.{OpenSsl, IsCbc}
use kapua.Address.{SockaddrHashable, find_addr}
use kapua.Node.{
  Node, KeyPair, key_exchange, handshake, check_encryption, connected, update_last_contact,
}
use kapua.Protocol.{
  Packet, public_key_request, public_key_reply, encryption_context, ready, discovery, type_of,
  new_to, of_bytes, max_data_size, read_public_key,
}
use kapua.Protocol.Wire.{IsWire}
use kapua.Rsa.{encrypt_aes_context, decrypt_aes_context}
use kapua.UdpNetwork.State.{System, Network, Datagram, put_node}
use kapua.UdpNetwork.Send.{counted, transmit, send, send_encrypted_false}
use kapua.UdpNetwork.Aes.{Encrypts}
use kapua.UdpNetwork.Process.{process_packet, handle, session_packet}
use kapua.UdpNetwork.Receive.{Incoming, Receiver, receive}
use kapua.UdpNetwork.Service.{take_packet}
use kapua.UdpNetwork.Transitions.{put_node-put_node}
use kapua.UdpNetwork.Orderly.{HasOwnKey}
use kapua.UdpNetwork.Round.{kept_key}
use kapua.UdpNetwork.Writes.{handed, noted, has_node, Writes, process_packet-Writes}
use kapua.UdpNetwork.Cases.{
  request_processed, reply_processed, context_processed_sending, ready_processed,
}
use kapua.UdpNetwork.Meeting.Carrier.{arrived, carrier}
use kapua.UdpNetwork.Meeting.Peer.{Peer, Received}

-- `sendto` sends every message whole.
abbrev pub IsReliable : System → Type 0
IsReliable sys =
    (addr : SockaddrHashable) (bytes : List ℕ) → sys.sendto addr bytes ≡ some (length bytes)

pub handed_whole :
    (sys : System) (addr : SockaddrHashable) (pkt : Packet)
    → IsReliable sys
    → handed sys addr pkt ≡ (addr, counted pkt) ∷ []
unfolding transmit
handed_whole sys addr pkt reliable = rw (handed, transmit, reliable addr (counted pkt)) refl

-- A round that takes a packet returns, with the other node as it is then and what has been sent by then.
abbrev pub Took :
    OpenSsl
    → System
    → System
    → Network
    → SockaddrHashable
    → Incoming
    → Receiver
    → ℕ
    → Node
    → List Datagram
    → Type 0
Took o s t base addr incoming r p n out =
    (after : Receiver) × (take_packet o s t incoming r ≡ ok after) × Peer base addr p n out after

module _ (o : OpenSsl) (s t : System) (base : Network) (addr : SockaddrHashable)
    (incoming : Incoming) (r : Receiver) (p : ℕ) (n : Node) (out : List Datagram)
    (pkt : Packet) where
  took :
      (r' : Receiver) (rest : List ℕ) (m : Node) (new sent : List Datagram)
      → receive o s incoming r ≡ ok (true, r')
      → Peer base addr p n out r'
      → r'.node ≡ some p
      → of_bytes r'.memory ≡ arrived pkt rest
      → Writes (process_packet o t (some p) (arrived pkt rest) r'.net) p m r'.net new
      → new ≡ sent
      → Took o s t base addr incoming r p m (out ++ sent)
  unfolding take_packet put_node
  took r' rest m new sent receives peer node reads (after, processes, has, sends) same =
      let done : process_packet o t r'.node (of_bytes r'.memory) r'.net ≡ ok after =
        subst₂ (λ x q. process_packet o t x q r'.net ≡ ok after) (sym node) (sym reads) processes in
      (
        record r' { net = after },
        rw (receives, done, take_packet) refl,
        record {
          free = ap (λ c. c.nodes_locked) has ∙ peer.free;
          listed = ap (λ c. find_addr addr c.nodes_by_addr) has ∙ peer.listed;
          lives = has_node after p m r'.net has;
          keys = ap (λ c. c.keys) has ∙ peer.keys;
          my_id = ap (λ c. c.my_id) has ∙ peer.my_id;
          sent = sends ∙ (λ i. peer.sent i ++ same i);
          room = peer.room;
        },
      )

  pub request_taken :
      (own : HasOwnKey o base)
      → IsReliable t
      → Received o s base addr incoming r p n out pkt
      → type_of pkt.type_id ≡ public_key_request
      → Took o s t base addr incoming r p
          (record (noted t n) { state = key_exchange })
          (out
            ++ (
              n.addr,
              counted (carrier public_key_reply base.core.my_id n.id t.raw_packet own.der),
            )
              ∷ [])
  unfolding kept_key new_to
  request_taken own reliable (r', rest, receives, peer, node, reads, room) e =
      let mine = kept_key o base r'.net peer.keys own in
      took r' rest _ _ _ receives peer node reads
        (request_processed o t p n r'.net (arrived pkt rest) peer.lives mine e)
        (ap (λ id. handed t n.addr (carrier public_key_reply id n.id t.raw_packet own.der))
            peer.my_id
          ∙ handed_whole t n.addr _ reliable)

  pub reply_taken :
      (public : ℕ) (secret : List ℕ)
      → n.state ≡ key_exchange
      → IsReliable t
      → Received o s base addr incoming r p n out pkt
      → type_of pkt.type_id ≡ public_key_reply
      → ((rest : List ℕ)
          → length rest ≡ max_data_size
          → read_public_key o (arrived pkt rest) ≡ ok public)
      → encrypt_aes_context o t.seed t.session_key (some public) max_data_size ≡ ok (some secret)
      → Took o s t base addr incoming r p
          (record (noted t n) {
            keys = record n.keys { public_key = some public };
            aes_context_tx = t.session_key;
            state = handshake;
          })
          (out
            ++ (
              n.addr,
              counted (carrier encryption_context base.core.my_id n.id t.raw_packet secret),
            )
              ∷ [])
  unfolding session_packet new_to
  reply_taken public secret waits reliable (r', rest, receives, peer, node, reads, room) e legible
        encrypts =
      took r' rest _ _ _ receives peer node reads
        (reply_processed o t p n r'.net (arrived pkt rest) peer.lives public secret waits e
          (legible rest room) encrypts)
        (ap (λ id. handed t n.addr (carrier encryption_context id n.id t.raw_packet secret))
            peer.my_id
          ∙ handed_whole t n.addr _ reliable)

  pub ready_taken :
      n.state ≡ check_encryption
      → Received o s base addr incoming r p n out pkt
      → type_of pkt.type_id ≡ ready
      → Took o s t base addr incoming r p (record (noted t n) { state = connected }) (out ++ [])
  ready_taken waits (r', rest, receives, peer, node, reads, room) e =
      took r' rest _ _ _ receives peer node reads
        (ready_processed o t p n r'.net (arrived pkt rest) peer.lives waits e) refl

  pub discovery_taken :
      Received o s base addr incoming r p n out pkt
      → type_of pkt.type_id ≡ discovery
      → Took o s t base addr incoming r p (noted t n) (out ++ [])
  unfolding handle
  discovery_taken (r', rest, receives, peer, node, reads, room) e =
      took r' rest (noted t n) [] [] receives peer node reads
        (process_packet-Writes o t discovery p n (noted t n) (arrived pkt rest) r'.net [] peer.lives
          e
          (
            put_node p (noted t n) r'.net,
            refl,
            sym (put_node-put_node p (noted t n) (noted t n) r'.net),
            sym (append-nil _),
          ))
        refl

  -- The encrypted Ready that is sent when the other's session key has come.
  pub context_taken :
      (key update final : List ℕ)
      → IsCbc o
      → n.state ≡ handshake
      → IsReliable t
      → IsWire (new_to ready base.core.my_id n.id t.raw_packet)
      → length t.iv ≡ 32
      → Encrypts o n.aes_context_tx t.iv
          (counted (new_to ready base.core.my_id n.id t.raw_packet))
          update
          final
      → Received o s base addr incoming r p n out pkt
      → type_of pkt.type_id ≡ encryption_context
      → ((rest : List ℕ)
          → length rest ≡ max_data_size
          → decrypt_aes_context o n.aes_context_rx base.core.keys.private_key t.raw_len
              (arrived pkt rest).bytes
              pkt.size
            ≡ ok (true, key))
      → Took o s t base addr incoming r p
          (record (noted t n) { aes_context_rx = key; state = check_encryption })
          (out ++ (n.addr, t.iv ++ (update ++ final)) ∷ [])
  unfolding new_to update_last_contact
  context_taken key update final cbc waits reliable wire vector encrypts
        (r', rest, receives, peer, node, reads, room) e opens =
      let k = record (noted t n) { aes_context_rx = key; state = check_encryption } in
      let sends =
        send_encrypted_false o t k (new_to ready base.core.my_id n.id t.raw_packet) n.addr update
          final _ cbc (λ addr' bytes j h. whole addr' bytes j h) wire refl (omega arith) vector
          encrypts (reliable n.addr (t.iv ++ (update ++ final))) in
      let out_goes : List Datagram = (n.addr, t.iv ++ (update ++ final)) ∷ [] in
      let sends' =
        subst
          (λ id.
            send o t (some k) (new_to ready id n.id t.raw_packet) n.addr ≡ ok (false, out_goes))
          (sym peer.my_id) sends in
      let opens' =
        subst
          (λ (keys : KeyPair).
            decrypt_aes_context o n.aes_context_rx keys.private_key t.raw_len
              (arrived pkt rest).bytes pkt.size
            ≡ ok (true, key))
          (sym peer.keys) (opens rest room) in
      took r' rest k out_goes out_goes receives peer node reads
        (context_processed_sending o t p n r'.net (arrived pkt rest) peer.lives key
          (false, out_goes) waits e opens' sends')
        refl
    where
      whole :
          (addr' : SockaddrHashable) (bytes : List ℕ) (j : ℕ)
          → t.sendto addr' bytes ≡ some j
          → j ≡ length bytes
      whole addr' bytes j h = cc (reliable addr' bytes)

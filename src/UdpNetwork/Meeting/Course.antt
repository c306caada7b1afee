-- ===== src/UdpNetwork/Meeting/Course.antt =====
-- src/UDPNetwork.cpp: one side of the handshake, over the datagrams that the other side sends.
use mathlib.Core.List.{append-nil}
use kapua.Prelude.{
  ℕ, ◌≤◌, ◌<◌, ◌^◌, ◌≡◌, refl, ◌∙◌, true, false, List, [], ◌∷◌, ◌++◌, some, length, take, arith,
}
use kapua.Prelude.Maps.{find}
use kapua.Prelude.Results.{ok}
use kapua.OpenSsl.{OpenSsl, IsCbc, Inverts}
use kapua.Address.{SockaddrHashable, find_addr}
use kapua.Node.{Node, key_exchange, handshake, check_encryption, connected, update_last_contact}
use kapua.Protocol.{
  Packet, public_key_request, public_key_reply, encryption_context, ready, type_of, new_to,
  magic_number, same_bytes, max_data_size, read_public_key,
}
use kapua.Protocol.Wire.{IsWire}
use kapua.Rsa.{aes_key_size, encrypt_aes_context, decrypt_aes_context}
use kapua.UdpNetwork.State.{System, Network, Datagram}
use kapua.UdpNetwork.Aes.{Encrypts}
use kapua.UdpNetwork.Send.{counted}
use kapua.UdpNetwork.Receive.{Incoming, datagram, Receiver}
use kapua.UdpNetwork.Service.{take_packet}
use kapua.UdpNetwork.Orderly.{HasOwnKey}
use kapua.UdpNetwork.Meeting.Carrier.{Proper, arrived, carrier, new_to-IsWire}
use kapua.UdpNetwork.Meeting.Peer.{Received, clear_comes}
use kapua.UdpNetwork.Meeting.Encrypted.{encrypted_comes}
use kapua.UdpNetwork.Meeting.Steps.{
  IsReliable, request_taken, reply_taken, context_taken, ready_taken,
}

-- What the system gives at any time: memory for a packet and a node, a `sendto` that sends every message
-- whole, session keys of 32 bytes, and vectors of 32 that do not begin like a packet.
pub record Serves (sys : System) : Type 0 where
  pub wire : IsWire sys.raw_packet
  pub reliable : IsReliable sys
  pub vector : length sys.iv ≡ 32
  pub hidden : same_bytes (take 5 sys.iv) magic_number ≡ false
  pub key_size : length sys.session_key ≡ aes_key_size
  pub room : length sys.raw_node.aes_context_rx ≡ aes_key_size

-- The four packets of the other side: whose public key, which session key in them, and the vector and the
-- blocks of the last, which is encrypted.
pub record Offer (o : OpenSsl) (base : Network) (public : ℕ) (key : List ℕ) : Type 0 where
  pub request : Packet
  pub reply : Packet
  pub context : Packet
  pub confirmation : Packet
  pub iv : List ℕ
  pub update : List ℕ
  pub final : List ℕ
  pub request_type : type_of request.type_id ≡ public_key_request
  pub reply_type : type_of reply.type_id ≡ public_key_reply
  pub context_type : type_of context.type_id ≡ encryption_context
  pub confirmation_type : type_of confirmation.type_id ≡ ready
  pub request_proper : Proper base.core.my_id request
  pub reply_proper : Proper base.core.my_id reply
  pub context_proper : Proper base.core.my_id context
  pub confirmation_proper : Proper base.core.my_id confirmation
  pub short : confirmation.size ≤ 1361
  pub legible :
      (rest : List ℕ)
      → length rest ≡ max_data_size
      → read_public_key o (arrived reply rest) ≡ ok public
  pub least : ℕ
  pub opens :
      (old rest : List ℕ) (raw_len : ℕ)
      → least ≤ raw_len
      → length old ≡ aes_key_size
      → length rest ≡ max_data_size
      → decrypt_aes_context o old base.core.keys.private_key raw_len
          (arrived context rest).bytes
          context.size
        ≡ ok (true, key)
  pub encrypts : Encrypts o key iv (counted confirmation) update final
  pub vector : length iv ≡ 32
  pub hidden : same_bytes (take 5 iv) magic_number ≡ false

module _ (o : OpenSsl) (base : Network) (addr : SockaddrHashable) (s t : ℕ → System)
    (own : HasOwnKey o base) (public : ℕ) (key : List ℕ) (offer : Offer o base public key) (p : ℕ)
    (n : Node) (out : List Datagram) (r : Receiver) (incoming : Incoming)
    (secret update final : List ℕ) where
  -- What this side has sent after each packet.
  abbrev pub after_request : List Datagram
  after_request =
      out
      ++ (n.addr, counted (carrier public_key_reply base.core.my_id n.id (t 0).raw_packet own.der))
        ∷ []

  abbrev pub after_reply : List Datagram
  after_reply =
      after_request
      ++ (n.addr, counted (carrier encryption_context base.core.my_id n.id (t 1).raw_packet secret))
        ∷ []

  abbrev pub after_context : List Datagram
  after_context = after_reply ++ (n.addr, (t 2).iv ++ (update ++ final)) ∷ []

  -- The rounds in which this side takes the four packets.
  pub record Course : Type 0 where
    pub r1 : Receiver
    pub r2 : Receiver
    pub r3 : Receiver
    pub r4 : Receiver
    pub node : Node
    pub takes_request : take_packet o (s 0) (t 0) incoming r ≡ ok r1
    pub takes_reply : take_packet o (s 1) (t 1) (datagram addr (counted offer.reply)) r1 ≡ ok r2
    pub takes_context : take_packet o (s 2) (t 2) (datagram addr (counted offer.context)) r2 ≡ ok r3
    pub takes_confirmation :
        take_packet o (s 3) (t 3) (datagram addr (offer.iv ++ (offer.update ++ offer.final))) r3
        ≡ ok r4
    pub sent1 : r1.net.sent ≡ after_request
    pub sent2 : r2.net.sent ≡ after_reply
    pub sent3 : r3.net.sent ≡ after_context
    pub sent4 : r4.net.sent ≡ after_context
    pub listed : find_addr addr r4.net.core.nodes_by_addr ≡ some p
    pub there : find p r4.net.core.heap ≡ some node
    pub connects : node.state ≡ connected
    pub sends_with : node.aes_context_tx ≡ (t 1).session_key
    pub receives_with : node.aes_context_rx ≡ key

  pub course :
      IsCbc o
      → Inverts o
      → ((i : ℕ) → Serves (t i))
      → offer.least ≤ (t 2).raw_len
      → base.core.my_id < 256 ^ 8
      → n.id < 256 ^ 8
      → length n.aes_context_rx ≡ aes_key_size
      → encrypt_aes_context o (t 1).seed (t 1).session_key (some public) max_data_size
        ≡ ok (some secret)
      → Encrypts o
          (t 1).session_key
          (t 2).iv
          (counted (new_to ready base.core.my_id n.id (t 2).raw_packet))
          update
          final
      → Received o (s 0) base addr incoming r p n out offer.request
      → Course
  unfolding update_last_contact
  course cbc inverts serves told from to room wraps encrypts received =
      let (r1, e1, p1) =
        request_taken o (s 0) (t 0) base addr incoming r p n out offer.request own
          (serves 0).reliable received offer.request_type in
      let n1 = record n { state = key_exchange; last_contact_time = (t 0).now } in
      let (r2, e2, p2) =
        reply_taken o (s 1) (t 1) base addr _ r1 p n1 after_request offer.reply public secret refl
          (serves 1).reliable
          (clear_comes o (s 1) base addr offer.reply p n1 after_request r1 offer.reply_proper p1)
          offer.reply_type offer.legible wraps in
      let n2 = record n1 {
        keys = record n1.keys { public_key = some public };
        aes_context_tx = (t 1).session_key;
        state = handshake;
        last_contact_time = (t 1).now;
      } in
      let (r3, e3, p3) =
        context_taken o (s 2) (t 2) base addr _ r2 p n2 after_reply offer.context key update final
          cbc refl (serves 2).reliable
          (new_to-IsWire ready base.core.my_id n.id (t 2).raw_packet (serves 2).wire (omega arith)
            from to)
          (serves 2).vector encrypts
          (clear_comes o (s 2) base addr offer.context p n2 after_reply r2 offer.context_proper p2)
          offer.context_type
          (λ rest h. offer.opens n.aes_context_rx rest (t 2).raw_len told room h) in
      let n3 = record n2 {
        aes_context_rx = key;
        state = check_encryption;
        last_contact_time = (t 2).now;
      } in
      let (r4, e4, p4) =
        ready_taken o (s 3) (t 3) base addr _ r3 p n3 after_context offer.confirmation refl
          (encrypted_comes o (s 3) base addr key offer.iv offer.update offer.final
            offer.confirmation p n3 after_context r3 cbc inverts offer.encrypts offer.vector
            offer.hidden offer.confirmation_proper offer.short refl refl p3)
          offer.confirmation_type in
      record {
        r1 = r1;
        r2 = r2;
        r3 = r3;
        r4 = r4;
        node = record n3 { state = connected; last_contact_time = (t 3).now };
        takes_request = e1;
        takes_reply = e2;
        takes_context = e3;
        takes_confirmation = e4;
        sent1 = p1.sent;
        sent2 = p2.sent;
        sent3 = p3.sent;
        sent4 = p4.sent ∙ append-nil after_context;
        listed = p4.listed;
        there = p4.lives;
        connects = refl;
        sends_with = refl;
        receives_with = refl;
      }

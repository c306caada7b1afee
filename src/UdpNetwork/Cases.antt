-- ===== src/UdpNetwork/Cases.antt =====
-- src/UDPNetwork.cpp: `_process_packet` at the four packets of the handshake, where it goes on.
use kapua.Prelude.{ℕ, ◌≡◌, refl, Bool, true, List, [], some}
use kapua.Prelude.Maps.{find}
use kapua.Prelude.Results.{ok}
use kapua.OpenSsl.{OpenSsl, IsCbc}
use kapua.Node.{Node, key_exchange, handshake, check_encryption, connected, update_last_contact}
use kapua.Protocol.{
  Packet, public_key_request, public_key_reply, encryption_context, ready, type_of, read_public_key,
  max_data_size,
}
use kapua.Rsa.{encrypt_aes_context, decrypt_aes_context}
use kapua.UdpNetwork.State.{System, Network, Datagram, put_node}
use kapua.UdpNetwork.Process.{session_packet, handle, process_packet}
use kapua.UdpNetwork.Orderly.{HasOwnKey}
use kapua.UdpNetwork.Round.{kept_key}
use kapua.UdpNetwork.Writes.{
  handed, noted, process_packet-Writes, request-Writes, reply-Writes, context-Writes, ready-Writes,
}
use kapua.UdpNetwork.Send.{send}
use kapua.UdpNetwork.Writes.{key_reply, Writes, confirming, confirmation, context_sends-Writes}

module _ (o : OpenSsl) (sys : System) (p : ℕ) (n : Node) (net : Network) (pkt : Packet)
    (lives : find p net.core.heap ≡ some n) where
  pub request_processed :
      (own : HasOwnKey o net)
      → type_of pkt.type_id ≡ public_key_request
      → Writes
          (process_packet o sys (some p) pkt net)
          p
          (record (noted sys n) { state = key_exchange })
          net
          (handed sys n.addr (key_reply o sys p n net own))
  unfolding handle put_node update_last_contact kept_key
  request_processed own e = process_packet-Writes o sys public_key_request p n _ pkt net _ lives e (
      request-Writes o sys p (noted sys n) (put_node p (noted sys n) net)
        (kept_key o net (put_node p (noted sys n) net) refl own))

  pub reply_processed :
      (public : ℕ) (secret : List ℕ)
      → n.state ≡ key_exchange
      → type_of pkt.type_id ≡ public_key_reply
      → read_public_key o pkt ≡ ok public
      → encrypt_aes_context o sys.seed sys.session_key (some public) max_data_size
        ≡ ok (some secret)
      → Writes
          (process_packet o sys (some p) pkt net)
          p
          (record (noted sys n) {
            keys = record n.keys { public_key = some public };
            aes_context_tx = sys.session_key;
            state = handshake;
          })
          net
          (handed sys n.addr (session_packet sys net.core.my_id n.id secret))
  unfolding handle put_node update_last_contact session_packet
  reply_processed public secret waits e readable encrypts =
      process_packet-Writes o sys public_key_reply p n _ pkt net _ lives e (
        reply-Writes o sys p (noted sys n) (put_node p (noted sys n) net) pkt public secret waits
          readable encrypts)

  pub context_processed :
      (key : List ℕ)
      → IsCbc o
      → n.state ≡ handshake
      → type_of pkt.type_id ≡ encryption_context
      → decrypt_aes_context o n.aes_context_rx net.core.keys.private_key sys.raw_len pkt.bytes
          pkt.size
        ≡ ok (true, key)
      → (out : List Datagram) × Writes
          (process_packet o sys (some p) pkt net)
          p
          (record (noted sys n) { aes_context_rx = key; state = check_encryption })
          net
          out
  unfolding handle put_node update_last_contact
  context_processed key cbc waits e opens =
      let (out, confirmed) =
        context-Writes o sys p (noted sys n) (put_node p (noted sys n) net) pkt key cbc waits
          opens in
      (out, process_packet-Writes o sys encryption_context p n _ pkt net out lives e confirmed)

  -- The same, where it is known what sending the confirmation comes to.
  pub context_processed_sending :
      (key : List ℕ) (r : Bool × List Datagram)
      → n.state ≡ handshake
      → type_of pkt.type_id ≡ encryption_context
      → decrypt_aes_context o n.aes_context_rx net.core.keys.private_key sys.raw_len pkt.bytes
          pkt.size
        ≡ ok (true, key)
      → send o sys
          (some (confirming o sys p (noted sys n) net key))
          (confirmation o sys p n net)
          n.addr
        ≡ ok r
      → Writes
          (process_packet o sys (some p) pkt net)
          p
          (confirming o sys p (noted sys n) net key)
          net
          r.1
  unfolding handle put_node update_last_contact
  context_processed_sending key r waits e opens sends =
      process_packet-Writes o sys encryption_context p n _ pkt net _ lives e (
        context_sends-Writes o sys p (noted sys n) (put_node p (noted sys n) net) pkt key r waits
          opens sends)

  pub ready_processed :
      n.state ≡ check_encryption
      → type_of pkt.type_id ≡ ready
      → Writes
          (process_packet o sys (some p) pkt net)
          p
          (record (noted sys n) { state = connected })
          net
          []
  unfolding handle put_node update_last_contact
  ready_processed waits e =
      process_packet-Writes o sys ready p n _ pkt net _ lives e
        (ready-Writes o sys p (noted sys n) (put_node p (noted sys n) net) waits)

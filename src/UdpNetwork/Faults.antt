-- ===== src/UdpNetwork/Faults.antt =====
-- src/UDPNetwork.cpp: where a packet makes `_process_packet` throw or leave its memory.
use kapua.Prelude.{ℕ, ◌≤◌, ◌<◌, ◌≡◌, true, false, List, none, some, ltb, length, take, arith}
use kapua.Prelude.Maps.{find}
use kapua.Prelude.Results.{ok, throws, undefined, runtime_error, past_end}
use kapua.OpenSsl.{OpenSsl}
use kapua.Node.{Node, key_exchange, handshake, update_last_contact}
use kapua.Core.{deref}
use kapua.Protocol.{
  Packet, public_key_reply, encryption_context, type_of, max_data_size, read_public_key,
}
use kapua.Rsa.{aes_key_size, decrypt_aes_context}
use kapua.UdpNetwork.State.{System, Network, put_node}
use kapua.UdpNetwork.Process.{on_public_key_reply, on_encryption_context, handle, process_packet}

module _ (o : OpenSsl) (sys : System) (p : ℕ) (pkt : Packet) (net : Network) (n : Node) where
  -- The packet comes from a node that lives.
  live_deref : find p net.core.heap ≡ some n → deref p net.core ≡ ok n
  unfolding deref
  live_deref lives = rw (lives, deref)

  -- A PublicKeyReply from a node in KeyExchange whose data is no public key makes `_process_packet`
  -- throw.
  pub malformed_reply_throws :
      find p net.core.heap ≡ some n
      → n.state ≡ key_exchange
      → type_of pkt.type_id ≡ public_key_reply
      → pkt.size ≤ max_data_size
      → o.d2i (take pkt.size pkt.bytes) ≡ none
      → process_packet o sys (some p) pkt net ≡ throws runtime_error
  unfolding process_packet handle on_public_key_reply read_public_key update_last_contact
  malformed_reply_throws lives state type short malformed =
      let fits : ltb max_data_size pkt.size ≡ false = ground (arith, short) in
      rw (live_deref lives, type, state, fits, malformed)

  -- The key in a PublicKeyReply from a node in KeyExchange, whose length field is greater than the 1404
  -- bytes of the data array, is read past the end of the packet.
  pub oversized_reply_overflow :
      find p net.core.heap ≡ some n
      → max_data_size < pkt.size
      → n.state ≡ key_exchange
      → type_of pkt.type_id ≡ public_key_reply
      → process_packet o sys (some p) pkt net ≡ undefined past_end
  unfolding process_packet handle on_public_key_reply read_public_key update_last_contact
  oversized_reply_overflow lives long state type =
      let over : ltb max_data_size pkt.size ≡ true = ground (arith, long) in
      rw (live_deref lives, type, state, over)

  -- An EncryptionContext from a node in Handshake that decrypts to more than 32 bytes, where OpenSSL
  -- takes the size that it is told for enough, is written past the end of the node's session key.
  pub long_session_key_overflow :
      (key : ℕ) (text : List ℕ)
      → find p net.core.heap ≡ some n
      → n.state ≡ handshake
      → type_of pkt.type_id ≡ encryption_context
      → pkt.size ≤ length pkt.bytes
      → net.core.keys.private_key ≡ some key
      → o.pkey_ctx_new key ≡ true
      → o.pkey_decrypt_init key ≡ true
      → o.pkey_decrypt key sys.raw_len (take pkt.size pkt.bytes) ≡ some text
      → aes_key_size < length text
      → process_packet o sys (some p) pkt net ≡ undefined past_end
  unfolding process_packet handle on_encryption_context update_last_contact put_node
      decrypt_aes_context
  long_session_key_overflow key text lives state type short has context init opens long =
      let fits : ltb (length pkt.bytes) pkt.size ≡ false = ground (arith, short) in
      let over : ltb aes_key_size (length text) ≡ true = ground (arith, long) in
      let overflow : decrypt_aes_context o n.aes_context_rx (some key) sys.raw_len pkt.bytes
            pkt.size
          ≡ undefined past_end =
        rw (context, init, fits, opens, over, decrypt_aes_context) in
      rw (live_deref lives, type, state, has, overflow)

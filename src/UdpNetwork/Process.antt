-- ===== src/UdpNetwork/Process.antt =====
-- src/UDPNetwork.cpp: `_process_packet`, the handshake by which two nodes agree on session keys.
use kapua.Prelude.{
  ℕ, Bool, true, false, not, List, ◌++◌, Option, none, some, ◌==◌, if◌then◌else◌, length,
}
use kapua.Prelude.Bytes.{overwrite}
use kapua.Prelude.Results.{Result, ok, ◌>>=◌}
use kapua.OpenSsl.{OpenSsl}
use kapua.Node.{
  Node, State, key_exchange, handshake, check_encryption, connected, rank, update_last_contact,
}
use kapua.Core.{deref}
use kapua.Protocol.{
  Packet, PacketType, public_key_request, public_key_reply, encryption_context, ready, type_of,
  new_to, max_data_size, write_public_key, read_public_key,
}
use kapua.Rsa.{encrypt_aes_context, decrypt_aes_context}
use kapua.UdpNetwork.State.{System, Network, put_node}
use kapua.UdpNetwork.Send.{send}

-- `node->state == state`
abbrev pub is_in : State → State → Bool
is_in a b = rank a == rank b

-- `_send(node, reply, node->addr)` with its result dropped, after the node was changed to `n`.
unfoldable pub answer : OpenSsl → System → ℕ → Node → Packet → Network → Result Network
unfolding put_node
answer o sys p n reply net = do
  (done, out) ← send o sys (some n) reply n.addr
  let after = put_node p n net
  ok (record after { sent = net.sent ++ out })

-- `case Packet::PublicKeyRequest`
unfoldable pub on_public_key_request : OpenSsl → System → ℕ → Node → Network → Result Network
on_public_key_request o sys p n net = do
  reply ←
      write_public_key o net.core.keys.public_key
        (new_to public_key_reply net.core.my_id n.id sys.raw_packet)
  answer o sys p (record n { state = key_exchange }) reply net

-- The packet that carries a session key, with what was encrypted in its data.
unfoldable pub session_packet : System → ℕ → ℕ → List ℕ → Packet
session_packet sys from to bytes =
    let reply = new_to encryption_context from to sys.raw_packet in
    record reply { bytes = overwrite bytes reply.bytes; size = length bytes }

-- The end of `case Packet::PublicKeyReply`, after the session key was encrypted or not.
unfoldable pub send_session_key :
    OpenSsl → System → ℕ → Node → Option (List ℕ) → Network → Result Network
unfolding session_packet put_node
send_session_key o sys p n none net = ok (put_node p n net)
send_session_key o sys p n (some bytes) net =
    answer o sys p (record n { state = handshake }) (session_packet sys net.core.my_id n.id bytes)
      net

-- `case Packet::PublicKeyReply`
unfoldable pub on_public_key_reply : OpenSsl → System → ℕ → Node → Packet → Network → Result Network
on_public_key_reply o sys p n pkt net = if not (is_in n.state key_exchange) then ok net else do
  key ← read_public_key o pkt
  let known = record n {
    keys = record n.keys { public_key = some key };
    aes_context_tx = sys.session_key;
  }
  bytes ← encrypt_aes_context o sys.seed sys.session_key (some key) max_data_size
  send_session_key o sys p known bytes net

-- The end of `case Packet::EncryptionContext`, after the session key was decrypted or not.
unfoldable pub confirm_session_key :
    OpenSsl → System → ℕ → Node → Bool × List ℕ → Network → Result Network
unfolding put_node
confirm_session_key o sys p n (false, rx) net =
    ok (put_node p (record n { aes_context_rx = rx }) net)
confirm_session_key o sys p n (true, rx) net =
    answer o sys p (record n { aes_context_rx = rx; state = check_encryption })
      (record (new_to ready net.core.my_id n.id sys.raw_packet) { size = 0 }) net

-- `case Packet::EncryptionContext`
unfoldable pub on_encryption_context :
    OpenSsl → System → ℕ → Node → Packet → Network → Result Network
on_encryption_context o sys p n pkt net = if not (is_in n.state handshake) then ok net else do
  opened ←
      decrypt_aes_context o n.aes_context_rx net.core.keys.private_key sys.raw_len pkt.bytes
        pkt.size
  confirm_session_key o sys p n opened net

-- `case Packet::Ready`
unfoldable pub on_ready : ℕ → Node → Network → Result Network
unfolding put_node
on_ready p n net =
    if not (is_in n.state check_encryption)
    then ok net
    else ok (put_node p (record n { state = connected }) net)

-- The `switch`, with a node.
unfoldable pub handle : OpenSsl → System → PacketType → ℕ → Node → Packet → Network → Result Network
handle o sys public_key_request p n pkt net = on_public_key_request o sys p n net
handle o sys public_key_reply p n pkt net = on_public_key_reply o sys p n pkt net
handle o sys encryption_context p n pkt net = on_encryption_context o sys p n pkt net
handle o sys ready p n pkt net = on_ready p n net
handle o sys _ p n pkt net = ok net

-- Without a node every case warns at most, and breaks.
unfoldable pub process_packet : OpenSsl → System → Option ℕ → Packet → Network → Result Network
unfolding put_node
process_packet o sys none pkt net = ok net
process_packet o sys (some p) pkt net = do
  node ← deref p net.core
  let n = update_last_contact sys.now node
  handle o sys (type_of pkt.type_id) p n pkt (put_node p n net)

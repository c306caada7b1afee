-- ===== src/UdpNetwork/Tests.antt =====
-- src/UDPNetwork.cpp: the theorems on the network, at two nodes and the packets between them.
use kapua.Prelude.{
  ℕ, ◌≡◌, refl, false, List, [], ◌∷◌, ◌++◌, none, some, replicate, length, take, drop, arith,
}
use kapua.Prelude.Bytes.{le_bytes}
use kapua.Prelude.Maps.{find}
use kapua.Prelude.Results.{ok, IsOk}
use kapua.OpenSsl.Toy.{toy, toy-IsCbc, toy-Inverts, toy_pair}
use kapua.Address.Tests.{local_host}
use kapua.Node.{Node, key_exchange, handshake, check_encryption, connected}
use kapua.Protocol.{
  Packet, to_bytes, fields_then, public_key_reply, encryption_context, read_public_key,
}
use kapua.Protocol.Tests.{sample, sample-IsWire}
use kapua.Rsa.{encrypt_aes_context}
use kapua.Rsa.Tests.{session_key}
use kapua.Core.Tests.{raw, one}
use kapua.UdpNetwork.State.{System, Network}
use kapua.UdpNetwork.Aes.{
  aes_encrypt, aes_decrypt, Encrypts, aes_encrypt_fits, aes_decrypt-aes_encrypt,
}
use kapua.UdpNetwork.Send.{send, transmit, counted, send_plain, send-IsOk, send_encrypted_false}
use kapua.UdpNetwork.Process.{session_packet, handle}
use kapua.UdpNetwork.Agreement.{Exchange, session_key_agreement}

abbrev pub sys : System
sys = record {
  iv = 1 ∷ replicate 31 0;
  session_key = session_key;
  seed = 5;
  now = 1000;
  raw_packet = sample;
  raw_node = raw;
  raw_len = 256;
  sendto = λ addr bytes. some (length bytes);
}

abbrev pub net : Network
net = record { core = one; sent = [] }

-- The peer in the states of the handshake.
abbrev pub waiting : Node
waiting = record raw { state = key_exchange }

abbrev pub keyless : Node
keyless = record raw { state = handshake }

-- The peer's public key, 11.
abbrev pub key_reply : Packet
key_reply = record sample { type_id = 2; size = 1; bytes = 11 ∷ replicate 1403 0 }

key_arrives : read_public_key toy key_reply ≡ ok 11
unfolding read_public_key
key_arrives = refl

key_encrypted : encrypt_aes_context toy 5 session_key (some 11) 1404 ≡ ok (some session_key)
unfolding encrypt_aes_context
key_encrypted = refl

abbrev exchange : Exchange toy sys waiting keyless key_reply
exchange = record {
  public = 11;
  private = 12;
  secret = session_key;
  pair = toy_pair 11 12;
  near_waits = refl;
  far_waits = refl;
  key_arrives = key_arrives;
  encrypts = key_encrypted;
  key_size = refl;
  far_size = refl;
  data_size = sample-IsWire.bytes;
}

session_key_agreement_run :
    (a' : Network) × (b' : Network) × (m : Node) × (k : Node) × (handle toy sys public_key_reply 1
        waiting key_reply net
      ≡ ok a')
    × (handle toy sys encryption_context 1 keyless (session_packet sys 7 0 exchange.secret) net
        ≡ ok b')
    × (find 1 a'.core.heap ≡ some m)
    × (find 1 b'.core.heap ≡ some k)
    × (m.aes_context_tx ≡ k.aes_context_rx)
    × (m.state ≡ handshake)
    × (k.state ≡ check_encryption)
session_key_agreement_run =
    session_key_agreement toy sys sys waiting keyless key_reply 1 1 net net exchange toy-IsCbc
      (omega arith) refl

-- A node to which packets go encrypted.
abbrev pub secure : Node
secure = record raw {
  state = connected;
  aes_context_tx = session_key;
  aes_context_rx = session_key;
}

abbrev text : List ℕ
text = 5 ∷ 6 ∷ replicate 20 7

abbrev update : List ℕ
update = 10 ∷ replicate 9 0 ++ (5 ∷ 6 ∷ replicate 4 7)

text_Encrypts : Encrypts toy session_key sys.iv text update (replicate 16 7)
text_Encrypts = record { context = refl; initialised = refl; updated = refl; finished = refl }

aes_encrypt_fits_example :
    aes_encrypt toy 1450 session_key sys.iv text ≡ ok (some (sys.iv ++ (update ++ replicate 16 7)))
aes_encrypt_fits_example =
    (aes_encrypt_fits toy session_key sys.iv text update (replicate 16 7) toy-IsCbc text_Encrypts
      refl).1

aes_decrypt-aes_encrypt_example :
    aes_decrypt toy 1450 session_key ((sys.iv ++ (update ++ replicate 16 7)) ++ (1 ∷ 2 ∷ [])) 64
    ≡ ok (some text)
aes_decrypt-aes_encrypt_example =
    aes_decrypt-aes_encrypt toy session_key sys.iv text update (replicate 16 7)
      ((sys.iv ++ (update ++ replicate 16 7)) ++ (1 ∷ 2 ∷ [])) toy-IsCbc toy-Inverts text_Encrypts
      refl (omega arith) (omega arith) refl

-- A packet of three bytes in the clear, to nobody in particular and to a peer in KeyExchange.
send_plain_run :
    send toy sys none sample local_host
    ≡ ok (transmit sys local_host 49 (take 49 (to_bytes sample)))
send_plain_run = send_plain toy sys none sample local_host λ n e. absurd (ground arith)

send-IsOk_example : IsOk (send toy sys (some secure) sample local_host)
send-IsOk_example = send-IsOk toy sys (some secure) sample local_host toy-IsCbc (omega arith)

abbrev pub sent_update : List ℕ
sent_update = 15 ∷ replicate 14 0 ++ take 33 (counted sample)

abbrev pub sent_final : List ℕ
sent_final = drop 33 (counted sample)

pub sample_Encrypts : Encrypts toy session_key sys.iv (counted sample) sent_update sent_final
unfolding to_bytes fields_then le_bytes
sample_Encrypts = record { context = refl; initialised = refl; updated = refl; finished = refl }

send_encrypted_false_run :
    send toy sys (some secure) sample local_host
    ≡ ok (false, (local_host, sys.iv ++ (sent_update ++ sent_final)) ∷ [])
unfolding to_bytes fields_then le_bytes
send_encrypted_false_run =
    send_encrypted_false toy sys secure sample local_host sent_update sent_final 96 toy-IsCbc
      (λ addr bytes n e. cc) sample-IsWire refl (omega arith) refl sample_Encrypts refl

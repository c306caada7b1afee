-- ===== src/UdpNetwork/Runs.antt =====
-- src/UDPNetwork.cpp: runs of `_process_packet`, and the theorems on them there.
use kapua.Prelude.{
  ℕ, ◌≡◌, refl, List, [], ◌∷◌, ◌++◌, some, replicate, length, arith, length-replicate,
  length-append, ap,
}
use kapua.Prelude.Bytes.{le_bytes}
use kapua.Prelude.Maps.{find, assign}
use kapua.Prelude.Results.{Result, ok, throws, undefined, runtime_error, past_end, IsOk}
use kapua.OpenSsl.Toy.{toy, toy-IsCbc, toy-IsSized}
use kapua.Node.{Node, connected, update_last_contact}
use kapua.Protocol.{
  Packet, public_key_request, new_to, new_broadcast, new_packet, type_of, to_bytes, fields_then,
  ready, encryption_context, write_public_key,
}
use kapua.Protocol.Tests.{sample}
use kapua.Rsa.{decrypt_aes_context}
use kapua.Rsa.Tests.{session_key}
use kapua.Core.{deref}
use kapua.Core.Tests.{raw, one}
use kapua.UdpNetwork.State.{System, Network, put_node}
use kapua.UdpNetwork.Aes.{aes_encrypt}
use kapua.UdpNetwork.Send.{send, transmit}
use kapua.UdpNetwork.Process.{
  handle, process_packet, answer, on_public_key_request, on_encryption_context, confirm_session_key,
  on_ready,
}
use kapua.UdpNetwork.Transitions.{Step}
use kapua.UdpNetwork.Handshake.{process_all, process_packet-Step, types, Within, connected_needs}
use kapua.UdpNetwork.Orderly.{HasOwnKey, Orderly}
use kapua.UdpNetwork.Progress.{process_packet-IsOk}
use kapua.UdpNetwork.Faults.{malformed_reply_throws, long_session_key_overflow}
use kapua.UdpNetwork.Tests.{sys, net, waiting, keyless, key_reply, secure}

-- The network with the peer as given.
abbrev pub with_peer : Node → Network
with_peer n = record net { core = record one { heap = (1, n) ∷ [] } }

abbrev session : Packet
session = record sample { type_id = 3; size = 32; bytes = session_key ++ replicate 1372 0 }

abbrev last_two : List (System × Packet)
last_two = (sys, session) ∷ (sys, sample) ∷ []

-- What a run leaves, or `other`.
abbrev pub result_or {ℓ} : {A : Type ℓ} → A → Result A → A
result_or other (ok a) = a
result_or other _ = other

abbrev both_joined : Network
both_joined = result_or net (process_all toy 1 last_two (with_peer keyless))

both_joined_lem :
    (process_all toy 1 last_two (with_peer keyless) ≡ ok both_joined)
    × (find 1 both_joined.core.heap
        ≡ some (record raw {
          state = connected;
          aes_context_rx = session_key;
          last_contact_time = 1000;
        }))
unfolding process_all process_packet handle on_encryption_context confirm_session_key on_ready
    answer put_node decrypt_aes_context send transmit type_of new_to new_broadcast new_packet deref
    find assign update_last_contact to_bytes fields_then le_bytes aes_encrypt
both_joined_lem = (refl, refl)

connected_needs_example : Within (encryption_context ∷ ready ∷ []) (types last_two)
unfolding find
connected_needs_example =
    connected_needs toy 1 last_two (with_peer keyless) both_joined keyless
      (record raw { state = connected; aes_context_rx = session_key; last_contact_time = 1000 })
      both_joined_lem.0 refl both_joined_lem.1 refl

-- A connected peer that asks for the public key.
abbrev request : Packet
request = record sample { type_id = 1 }

abbrev asked : Network
asked = result_or net (process_packet toy sys (some 1) request (with_peer secure))

asked_lem : process_packet toy sys (some 1) request (with_peer secure) ≡ ok asked
unfolding process_packet handle on_public_key_request write_public_key answer put_node send transmit
    type_of new_to new_broadcast new_packet deref find assign update_last_contact to_bytes
    fields_then le_bytes
asked_lem = refl

process_packet-Step_example :
    (n : Node) × (m : Node) × (find 1 (with_peer secure).core.heap ≡ some n)
    × Step public_key_request n.state m.state
    × (m.id ≡ n.id)
    × (m.addr ≡ n.addr)
    × (asked.core ≡ record one { heap = assign 1 m ((1, secure) ∷ []) })
unfolding type_of
process_packet-Step_example =
    process_packet-Step toy sys 1 request (with_peer secure) asked asked_lem

malformed_reply_throws_run :
    process_packet toy sys (some 1) (record key_reply { size = 2 }) (with_peer waiting)
    ≡ throws runtime_error
unfolding find type_of
malformed_reply_throws_run =
    malformed_reply_throws toy sys 1 (record key_reply { size = 2 }) (with_peer waiting) waiting
      refl refl refl (omega arith) refl

long_session_key_overflow_run :
    process_packet toy sys (some 1) (record session { size = 33 }) (with_peer keyless)
    ≡ undefined past_end
unfolding find type_of
long_session_key_overflow_run =
    long_session_key_overflow toy sys 1 (record session { size = 33 }) (with_peer keyless) keyless
      12 (session_key ++ (0 ∷ [])) refl refl refl (omega arith) refl refl refl refl (omega arith)

own_key : HasOwnKey toy (with_peer keyless)
own_key = record {
  public = 11;
  der = 11 ∷ [];
  key = refl;
  sized = refl;
  encoded = refl;
  encodes = omega arith;
  fits = omega arith;
}

session-Orderly : Orderly toy sys session
unfolding type_of
session-Orderly = record {
  array =
      omega (arith, length-append session_key (replicate 1372 0), length-replicate {A = ℕ} 1372 0);
  counted = omega arith;
  readable = λ e. ground arith;
  no_longer = λ key text e. let whole : session_key ≡ text = cc in omega (arith, ap length whole);
}

process_packet-IsOk_example : IsOk (process_packet toy sys (some 1) session (with_peer keyless))
unfolding find
process_packet-IsOk_example =
    process_packet-IsOk toy sys 1 keyless session (with_peer keyless) toy-IsCbc toy-IsSized own_key
      session-Orderly refl refl

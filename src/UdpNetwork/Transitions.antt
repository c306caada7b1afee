-- ===== src/UdpNetwork/Transitions.antt =====
-- src/UDPNetwork.cpp: how `_process_packet` moves a node from state to state, and what it leaves alone.
use kapua.Prelude.{
  ℕ, ◌≡◌, refl, ap, ◌∙◌, Bool, true, false, List, Option, none, some, arith, Bool-cases, inl, inr,
}
use kapua.Prelude.Maps.{assign-assign}
use kapua.Prelude.Results.{ok, ran_both}
use kapua.OpenSsl.{OpenSsl}
use kapua.Node.{Node, State, key_exchange, handshake, check_encryption, connected}
use kapua.Protocol.{
  write_public_key, read_public_key, Packet, PacketType, ping, public_key_request, public_key_reply,
  encryption_context, ready, discovery, other,
}
use kapua.UdpNetwork.State.{System, Network, put_node}
use kapua.Rsa.{encrypt_aes_context, decrypt_aes_context}
use kapua.UdpNetwork.Send.{send}
use kapua.UdpNetwork.Process.{
  is_in, answer, on_public_key_request, send_session_key, on_public_key_reply, confirm_session_key,
  on_encryption_context, on_ready, handle,
}

-- What a packet of a type can do to the state of the node that it comes from.
pub data Step : PacketType → State → State → Type 0 where
  stay : {t : PacketType} {s : State} → Step t s s
  requested : {s : State} → Step public_key_request s key_exchange
  replied : Step public_key_reply key_exchange handshake
  keyed : Step encryption_context handshake check_encryption
  confirmed : Step ready check_encryption connected

-- The core after a packet from the node at `p`: that node alone is changed, by a step for the packet's
-- type, and keeps its identity and its address.
pub record Moved (t : PacketType) (p : ℕ) (n : Node) (net after : Network) : Type 0 where
  pub node : Node
  pub core : after.core ≡ (put_node p node net).core
  pub step : Step t n.state node.state
  pub id : node.id ≡ n.id
  pub addr : node.addr ≡ n.addr

pub put_node-put_node :
    (p : ℕ) (n m : Node) (net : Network)
    → (put_node p m (put_node p n net)).core ≡ (put_node p m net).core
unfolding put_node
put_node-put_node p n m net =
    ap (λ h. record net.core { heap = h }) (assign-assign p n m net.core.heap)

pub answer-core :
    (o : OpenSsl) (sys : System) (p : ℕ) (n : Node) (reply : Packet) (net after : Network)
    → answer o sys p n reply net ≡ ok after
    → after.core ≡ (put_node p n net).core
unfolding answer
answer-core o sys p n reply net after h =
    let (_, _, e) = ran_both _ (send o sys (some n) reply n.addr) h in ground (arith, e)

-- `is_in` tells the states apart.
pub in_lem : (s t : State) → is_in s t ≡ true → s ≡ t
in_lem s t e = ground arith

module _ (o : OpenSsl) (sys : System) (p : ℕ) (n : Node) (pkt : Packet) (net after : Network) where
  on_public_key_request-Moved :
      on_public_key_request o sys p n (put_node p n net) ≡ ok after
      → Moved public_key_request p n net after
  unfolding on_public_key_request
  on_public_key_request-Moved h =
      let (reply, _, e) = ran_both _ (write_public_key o _ _) h in
      record {
        node = record n { state = key_exchange };
        core =
            answer-core o sys p (record n { state = key_exchange }) reply (put_node p n net) after e
            ∙ put_node-put_node p n _ net;
        step = requested;
        id = refl;
        addr = refl;
      }

  send_session_key-Moved :
      (m : Node) (bytes : Option (List ℕ))
      → n.state ≡ key_exchange
      → m.state ≡ key_exchange
      → m.id ≡ n.id
      → m.addr ≡ n.addr
      → send_session_key o sys p m bytes (put_node p n net) ≡ ok after
      → Moved public_key_reply p n net after
  unfolding send_session_key
  send_session_key-Moved m none s t i a h = record {
    node = m;
    core = ground (arith, put_node-put_node p n m net);
    step = rw (s, t) stay;
    id = i;
    addr = a;
  }
  send_session_key-Moved m (some bytes) s t i a h = record {
    node = record m { state = handshake };
    core =
        answer-core o sys p (record m { state = handshake }) _ (put_node p n net) after h
        ∙ put_node-put_node p n _ net;
    step = rw s replied;
    id = i;
    addr = a;
  }

  -- Nothing but the time of the last contact changes.
  unmoved : {t : PacketType} → ok (put_node p n net) ≡ ok after → Moved t p n net after
  unmoved h = record { node = n; core = ground arith; step = stay; id = refl; addr = refl }

  on_public_key_reply-Moved :
      on_public_key_reply o sys p n pkt (put_node p n net) ≡ ok after
      → Moved public_key_reply p n net after
  unfolding on_public_key_reply
  on_public_key_reply-Moved h = elim (Bool-cases (is_in n.state key_exchange)) [
    | inr e ↦ unmoved (ground (arith, e, h))
    | inl e ↦
        let (key, _, h1) = ran_both _ (read_public_key o pkt) (rw (e, on_public_key_reply) at h) in
        let (bytes, _, h2) = ran_both _ (encrypt_aes_context o _ _ _ _) h1 in
        send_session_key-Moved _ bytes (in_lem n.state key_exchange e)
          (in_lem n.state key_exchange e) refl refl h2
  ]

  confirm_session_key-Moved :
      (opened : Bool × List ℕ)
      → n.state ≡ handshake
      → confirm_session_key o sys p n opened (put_node p n net) ≡ ok after
      → Moved encryption_context p n net after
  unfolding confirm_session_key
  confirm_session_key-Moved (false, rx) s h = record {
    node = record n { aes_context_rx = rx };
    core = ground (arith, put_node-put_node p n (record n { aes_context_rx = rx }) net);
    step = stay;
    id = refl;
    addr = refl;
  }
  confirm_session_key-Moved (true, rx) s h =
      let m = record n { aes_context_rx = rx; state = check_encryption } in
      record {
        node = m;
        core = answer-core o sys p m _ (put_node p n net) after h ∙ put_node-put_node p n m net;
        step = rw s keyed;
        id = refl;
        addr = refl;
      }

  on_encryption_context-Moved :
      on_encryption_context o sys p n pkt (put_node p n net) ≡ ok after
      → Moved encryption_context p n net after
  unfolding on_encryption_context
  on_encryption_context-Moved h = elim (Bool-cases (is_in n.state handshake)) [
    | inr e ↦ unmoved (ground (arith, e, h))
    | inl e ↦
        let (opened, _, h1) =
          ran_both _ (decrypt_aes_context o _ _ _ _ _) (rw (e, on_encryption_context) at h) in
        confirm_session_key-Moved opened (in_lem n.state handshake e) h1
  ]

  on_ready-Moved : on_ready p n (put_node p n net) ≡ ok after → Moved ready p n net after
  unfolding on_ready
  on_ready-Moved h = elim (Bool-cases (is_in n.state check_encryption)) [
    | inr e ↦ unmoved (ground (arith, e, h))
    | inl e ↦ record {
      node = record n { state = connected };
      core = ground (arith, e, h, put_node-put_node p n (record n { state = connected }) net);
      step = rw (in_lem n.state check_encryption e) confirmed;
      id = refl;
      addr = refl;
    }
  ]

  pub handle-Moved :
      (t : PacketType)
      → handle o sys t p n pkt (put_node p n net) ≡ ok after
      → Moved t p n net after
  unfolding handle
  handle-Moved public_key_request h = on_public_key_request-Moved h
  handle-Moved public_key_reply h = on_public_key_reply-Moved h
  handle-Moved encryption_context h = on_encryption_context-Moved h
  handle-Moved ready h = on_ready-Moved h
  handle-Moved ping h = unmoved h
  handle-Moved discovery h = unmoved h
  handle-Moved (other k) h = unmoved h

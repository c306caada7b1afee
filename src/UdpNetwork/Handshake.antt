-- ===== src/UdpNetwork/Handshake.antt =====
-- src/UDPNetwork.cpp: the handshake as a state machine: one packet is one step, and a node is
-- connected only after the four packets of the handshake, in their order.
use kapua.Prelude.{ℕ, ◌≡◌, ap, ◌∙◌, List, [], ◌∷◌, some, arith}
use kapua.Prelude.Maps.{find, assign, find-assign}
use kapua.Prelude.Results.{Result, ok, ◌>>=◌, ran_both}
use kapua.OpenSsl.{OpenSsl}
use kapua.Node.{
  Node, State, initialised, key_exchange, handshake, check_encryption, connected,
  update_last_contact,
}
use kapua.Core.{Core, deref}
use kapua.Protocol.{
  Packet, PacketType, public_key_request, public_key_reply, encryption_context, ready, type_of,
}
use kapua.UdpNetwork.State.{System, Network}
use kapua.UdpNetwork.Process.{process_packet}
use kapua.UdpNetwork.Transitions.{Step, stay, requested, replied, keyed, confirmed, handle-Moved}

deref_live : (p : ℕ) (c : Core) (n : Node) → deref p c ≡ ok n → find p c.heap ≡ some n
unfolding deref
deref_live p c n e = ground arith

-- Processing a packet from a node that returns normally has found that node, and changes it alone: by
-- a step that its type allows (a request leads to KeyExchange from any state, a reply from KeyExchange
-- to Handshake, an encryption context from Handshake to CheckEncryption, Ready from CheckEncryption to
-- Connected, and any packet may leave the state as it is), keeping identity and address. The rest of
-- the core, the registry included, stays.
pub process_packet-Step :
    (o : OpenSsl) (sys : System) (p : ℕ) (pkt : Packet) (net after : Network)
    → process_packet o sys (some p) pkt net ≡ ok after
    → (n : Node) × (m : Node) × (find p net.core.heap ≡ some n)
      × Step (type_of pkt.type_id) n.state m.state
      × (m.id ≡ n.id)
      × (m.addr ≡ n.addr)
      × (after.core ≡ record net.core { heap = assign p m net.core.heap })
unfolding process_packet update_last_contact
process_packet-Step o sys p pkt net after h =
    let (n, e, h1) = ran_both _ (deref p net.core) h in
    let moved =
      handle-Moved o sys p (update_last_contact sys.now n) pkt net after (type_of pkt.type_id) h1 in
    (n, moved.node, deref_live p net.core n e, moved.step, moved.id, moved.addr, moved.core)

-- Packets from one node, one after another, each with what the system gave at that time.
unfoldable pub process_all : OpenSsl → ℕ → List (System × Packet) → Network → Result Network
process_all o p [] net = ok net
process_all o p ((sys, pkt) ∷ rest) net = do
  after ← process_packet o sys (some p) pkt net
  process_all o p rest after

abbrev pub types : List (System × Packet) → List PacketType
types [] = []
types ((sys, pkt) ∷ rest) = type_of pkt.type_id ∷ types rest

-- The first list can be had from the second by leaving elements out.
pub data Within : List PacketType → List PacketType → Type 0 where
  done : {ts : List PacketType} → Within [] ts
  take : {t : PacketType} {us ts : List PacketType} → Within us ts → Within (t ∷ us) (t ∷ ts)
  skip : {t : PacketType} {us ts : List PacketType} → Within us ts → Within us (t ∷ ts)

-- The packets that a node in a state has yet to send before it is connected.
abbrev pub needed : State → List PacketType
needed initialised = public_key_request ∷ public_key_reply ∷ encryption_context ∷ ready ∷ []
needed key_exchange = public_key_reply ∷ encryption_context ∷ ready ∷ []
needed handshake = encryption_context ∷ ready ∷ []
needed check_encryption = ready ∷ []
needed connected = []

Within_rest : {t : PacketType} (us ts : List PacketType) → Within (t ∷ us) ts → Within us ts
Within_rest us ts (take w) = skip w
Within_rest us ts (skip w) = skip (Within_rest _ _ w)

requested-Within :
    (s : State) (ts : List PacketType)
    → Within (needed key_exchange) ts
    → Within (needed s) (public_key_request ∷ ts)
requested-Within initialised ts w = take w
requested-Within key_exchange ts w = skip w
requested-Within handshake ts w = skip (Within_rest _ _ w)
requested-Within check_encryption ts w = skip (Within_rest _ _ (Within_rest _ _ w))
requested-Within connected ts w = done

needed_step :
    {t : PacketType} {s u : State} (ts : List PacketType)
    → Step t s u
    → Within (needed u) ts
    → Within (needed s) (t ∷ ts)
needed_step ts stay w = skip w
needed_step ts (requested {s}) w = requested-Within s ts w
needed_step ts replied w = take w
needed_step ts keyed w = take w
needed_step ts confirmed w = take w

-- A node that is not connected, and is connected after packets from it were processed, has sent among
-- them, in this order, those of the four packets PublicKeyRequest, PublicKeyReply, EncryptionContext
-- and Ready that its state still wanted: all four, if it was Initialised.
pub connected_needs :
    (o : OpenSsl) (p : ℕ) (packets : List (System × Packet)) (net after : Network) (n m : Node)
    → process_all o p packets net ≡ ok after
    → find p net.core.heap ≡ some n
    → find p after.core.heap ≡ some m
    → m.state ≡ connected
    → Within (needed n.state) (types packets)
unfolding process_all
connected_needs o p [] net after n m h s e c =
    let same : n.state ≡ connected = ground arith in rw same done
connected_needs o p ((sys, pkt) ∷ rest) net after n m h s e c =
    let (between, h1, h2) = ran_both _ (process_packet o sys (some p) pkt net) h in
    let (n', k, found, step, _, _, core) = process_packet-Step o sys p pkt net between h1 in
    let there : find p between.core.heap ≡ some k =
      ap (λ (d : Core). find p d.heap) core ∙ ground (arith, find-assign p p k net.core.heap) in
    let same : n'.state ≡ n.state = ground arith in
    rw same at
      (needed_step (types rest) step (connected_needs o p rest between after k m h2 there e c))

-- ===== src/Node.antt =====
-- src/Node.hpp, and the key types of src/RSA.hpp.
use kapua.Prelude.{ℕ, List, Option, Bool, leb}
use kapua.Address.{SockaddrHashable, any_address}

pub data State : Type 0 where
  initialised key_exchange handshake check_encryption connected : State

-- The place of a state in the enumeration, by which `>=` compares.
abbrev pub rank : State → ℕ
rank initialised = 0
rank key_exchange = 1
rank handshake = 2
rank check_encryption = 3
rank connected = 4

-- `state >= Node::State::CheckEncryption`
abbrev pub is_encrypting : State → Bool
is_encrypting s = leb (rank check_encryption) (rank s)

-- A key is null or a handle.
pub record KeyPair : Type 0 where
  pub public_key : Option ℕ
  pub private_key : Option ℕ

pub record Node : Type 0 where
  pub addr : SockaddrHashable
  pub id : ℕ
  pub state : State
  pub keys : KeyPair
  pub aes_context_tx : List ℕ
  pub aes_context_rx : List ℕ
  pub last_contact_time : ℕ

-- The constructors; keys and times hold what the memory held, the argument `raw`.
unfoldable pub new_node : Node → ℕ → Node
unfolding any_address
new_node raw pid = record raw { id = pid; addr = any_address; state = initialised }

unfoldable pub new_node_at : Node → ℕ → SockaddrHashable → Node
new_node_at raw pid paddr = record raw { id = pid; addr = paddr; state = initialised }

unfoldable pub update_last_contact : ℕ → Node → Node
update_last_contact now n = record n { last_contact_time = now }

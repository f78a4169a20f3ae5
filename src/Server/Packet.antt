-- ===== src/Server/Packet.antt =====
-- server_prot.h: the packets between client and server. The three members of the union share
-- their storage: the sequence number of a request is that of the response in the same place.
use threaded_network_adder.Base.{ℤ}

-- `other` is any value that is no enumerator.
pub data PacketType : Type 0 where
  desc desc_ack desc_server req req_ack other : PacketType

pub record RequestData : Type 0 where
  pub seqn : ℤ  -- long long
  pub value : ℤ  -- int

pub record ResponseData : Type 0 where
  pub seqn : ℤ  -- long long
  pub value : ℤ  -- int
  pub status : ℤ  -- int

-- A packet that asks, and one that answers.
pub record RequestPacket : Type 0 where
  pub type : PacketType
  pub req : RequestData

pub record ResponsePacket : Type 0 where
  pub type : PacketType
  pub resp : ResponseData

-- What recvfrom gives: an error, too few bytes, or a whole packet.
pub data Arrival {ℓ} (P : Type ℓ) : Type ℓ where
  failed short : Arrival P
  whole : P → Arrival P

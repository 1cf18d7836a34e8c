-- ===== src/Server/Accepted.antt =====
-- src/core/server/data_chunk.c: what an accepted request was read from.
use muc_opcua.Common.{
  ℕ, ◌-◌, ◌≡◌, refl, List, Option, none, some, Bool, true, false, not, arith, slice, length,
  if◌then◌else◌,
}
use muc_opcua.Status.{good}
use muc_opcua.Encoding.State.{Outcome, done, fail}
use muc_opcua.Encoding.Types.{NodeId}
use muc_opcua.Encoding.Reader.{Reader, reader_init}
use muc_opcua.Encoding.NodeIds.{read_nodeid}
use muc_opcua.Core.Sequence.{validate}
use muc_opcua.Services.SecureChannel.{SecureChannel}
use muc_opcua.Server.{Crypto, Unwrapped}
use muc_opcua.Server.DataChunk.{
  ChunkHeader, accept_inbound_chunk, Request, Inbound, dropped, aborted, accepted, with_type,
  accept_header,
}
use muc_opcua.Server.Secure.{secure_unwrap_msg, accept_unwrapped}

-- The channel's ids, and its next number.
pub record IsBound (channel : SecureChannel) (channel_id token_id number : ℕ) : Type 0 where
  pub same_channel : channel_id ≡ channel.channel_id
  pub same_token : token_id ≡ channel.token_id
  pub next : (validate channel.sequence number).0 ≡ good

accept-IsBound :
    (channel : SecureChannel) (c t n : ℕ)
    → (accept_inbound_chunk channel false c t n).0 ≡ true
    → IsBound channel c t n
unfolding accept_inbound_chunk
accept-IsBound channel c t n h = record {
  same_channel = ground arith;
  same_token = ground arith;
  next = ground arith;
}

-- A request comes of a test that was passed.
passed :
    (b : Bool) (c : SecureChannel) (i : Inbound) (channel : SecureChannel) (request : Request)
    → (if not b then aborted c else i) ≡ accepted channel request
    → (b ≡ true) × (i ≡ accepted channel request)
passed true c i channel request e = (refl, e)
passed false c i channel request e = cc

-- And of a body that begins with a type.
abbrev pub HasType : List ℕ → Request → Outcome Reader NodeId → Type 0
HasType msg request (fail e r) = ⊥
HasType msg request (done id r) =
    (request.request_type ≡ id) × (request.body ≡ slice msg r.position (length msg - r.position))

typed :
    (c : SecureChannel) (id : ℕ) (msg : List ℕ) (o : Outcome Reader NodeId)
    (channel : SecureChannel) (request : Request)
    → with_type c false id none msg (length msg) o ≡ accepted channel request
    → HasType msg request o × (request.request_id ≡ id)
typed c id msg (fail e r) channel request h = cc
typed c id msg (done type r) channel request h = ((cc, cc), cc)

-- A chunk header that was read, and that the channel asks for.
abbrev pub HasHeader : SecureChannel → List ℕ → Request → Outcome Reader ChunkHeader → Type 0
HasHeader channel msg request (fail e r) = ⊥
HasHeader channel msg request (done header r) =
    IsBound channel header.channel_id header.token_id header.sequence_number
    × (request.request_id ≡ header.request_id)
    × HasType msg request (read_nodeid r)

pub plain :
    (c : SecureChannel) (msg : List ℕ) (o : Outcome Reader ChunkHeader) (channel : SecureChannel)
    (request : Request)
    → accept_header c false msg (length msg) o ≡ accepted channel request
    → HasHeader c msg request o
unfolding accept_header
plain c msg (fail e r) channel request h = cc
plain c msg (done header r) channel request h =
    let (b, i) = passed _ _ _ channel request h in
    let (type, id) = typed _ header.request_id msg (read_nodeid r) channel request i in
    (accept-IsBound c header.channel_id header.token_id header.sequence_number b, id, type)

abbrev pub HasParts : Crypto → SecureChannel → List ℕ → Request → Type 0
HasParts crypto channel msg request =
    (parts : Unwrapped) × (channel.keys_valid ≡ true)
    × (crypto.unwrap_msg channel msg ≡ some parts)
    × IsBound channel parts.channel_id parts.token_id parts.sequence_number
    × (request.request_id ≡ parts.request_id)
    × HasType parts.body request (read_nodeid (reader_init (some parts.body) (length parts.body)))

-- What becomes of an unwrapping.
abbrev taken : SecureChannel → Option Unwrapped → Inbound
taken channel o = elim o [
  | none ↦ dropped channel
  | some parts ↦ accept_unwrapped channel false none parts
]

with_keys :
    (b : Bool) (o : Option Unwrapped) (parts : Unwrapped)
    → (if b then o else none) ≡ some parts
    → (b ≡ true) × (o ≡ some parts)
with_keys true o parts e = (refl, e)
with_keys false o parts e = cc

pub secured :
    (crypto : Crypto) (c : SecureChannel) (msg : List ℕ) (o : Option Unwrapped)
    (channel : SecureChannel) (request : Request)
    → secure_unwrap_msg crypto c msg ≡ o
    → taken c o ≡ accepted channel request
    → HasParts crypto c msg request
unfolding secure_unwrap_msg accept_unwrapped
secured crypto c msg none channel request e h = cc
secured crypto c msg (some parts) channel request e h =
    let (keys, unwrapped) = with_keys c.keys_valid (crypto.unwrap_msg c msg) parts e in
    let (b, i) = passed _ _ _ channel request h in
    let (type, id) = typed _ parts.request_id parts.body _ channel request i in
    (
      parts,
      keys,
      unwrapped,
      accept-IsBound c parts.channel_id parts.token_id parts.sequence_number b,
      id,
      type,
    )

-- ===== src/DnsForwarder/Wire.antt =====
-- src/services/dns_forwarder/worker.rs: messages as bytes. `Packet` has the fields of
-- hickory's `Message` that the code reads; the parser and the encoder of hickory are a record that
-- the code is parametrised by.
use trimrouter.Prelude.{
  ℕ, zero, suc, ◌+◌, ◌*◌, ◌/◌, ◌%◌, ◌≤◌, ◌≡◌, Bool, false, Option, none, some, List, [], ◌∷◌, arith,
  if◌then◌else◌, leb, ltb, nat_eq, length,
}
use trimrouter.Net.{Ipv4Addr}

abbrev pub Bytes : Type 0
Bytes = List ℕ

abbrev pub dns_header_size : ℕ
dns_header_size = 12

abbrev pub rfc1035_max_udp_payload : ℕ
rfc1035_max_udp_payload = 512

abbrev pub max_edns_payload_size : ℕ
max_edns_payload_size = 4096

pub data ResponseCode : Type 0 where
  no_error nx_domain serv_fail refused other_code : ResponseCode

pub data RecordType : Type 0 where
  a_record ptr_record other_record : RecordType

-- A question: its name as `to_ascii` and `to_utf8` print it, the address that `parse_arpa_name`
-- finds in it as a /32 network, its type, and type and class as `{:?}` prints them.
pub record Question : Type 0 where
  pub name : Bytes
  pub name_utf8 : Bytes
  pub arpa_host : Option Ipv4Addr
  pub query_type : RecordType
  pub type_text : Bytes
  pub class_text : Bytes

-- A record of the authority section: its TTL, and the minimum of its SOA data.
pub record Authority : Type 0 where
  pub ttl : ℕ
  pub soa_minimum : Option ℕ

pub record Packet : Type 0 where
  pub is_response : Bool
  pub is_query_op : Bool
  pub truncation : Bool
  pub response_code : ResponseCode
  pub queries : List Question
  pub answer_ttls : List ℕ
  pub authorities : List Authority
  pub edns_max_payload : Option ℕ

-- The data of the one record that a local answer can carry.
pub data Answer : Type 0 where
  address : Ipv4Addr → Answer
  pointer : Bytes → Answer

-- What the code calls of `hickory_proto`: the parser, the bytes of a truncated message, the test
-- that a text is a name, and the encoder of `build_authoritative_response`, by the parsed query,
-- the response code and the answer.
pub record DnsLib : Type 0 where
  pub from_bytes : Bytes → Option Packet
  pub emit_truncated : Bytes → Option Bytes
  pub is_name : Bytes → Bool
  pub emit_authoritative : Packet → ResponseCode → Option Answer → Bytes

-- `u16::from_be_bytes([b[0], b[1]])`, of a message that has a header.
unfoldable pub message_id : Bytes → ℕ
message_id (hi ∷ lo ∷ rest) = hi * 256 + lo
message_id _ = 0

-- `b[0] = id[0]; b[1] = id[1]`, where `b` has two bytes: the callers that do not check it have a panic for
-- a shorter one.
unfoldable pub with_id : ℕ → Bytes → Bytes
with_id id (hi ∷ lo ∷ rest) = id / 256 ∷ id % 256 ∷ rest
with_id id short = short

-- `b[2] & 0x02 != 0`
unfoldable pub is_truncated : Bytes → Bool
is_truncated (hi ∷ lo ∷ flags ∷ rest) = nat_eq (flags / 2 % 2) 1
is_truncated _ = false

-- `b[2] |= 0x02; b.truncate(12)`
unfoldable pub take : ℕ → Bytes → Bytes
take zero bs = []
take (suc n) [] = []
take (suc n) (b ∷ bs) = b ∷ take n bs

unfoldable pub set_truncated : Bytes → Bytes
set_truncated (hi ∷ lo ∷ flags ∷ rest) =
    hi ∷ lo ∷ (if nat_eq (flags / 2 % 2) 1 then flags else flags + 2) ∷ rest
set_truncated short = short

-- `clamp(RFC1035_MAX_UDP_PAYLOAD, MAX_EDNS_PAYLOAD_SIZE)`
abbrev pub clamp : ℕ → ℕ → ℕ → ℕ
clamp lo hi n = if ltb n lo then lo else if ltb hi n then hi else n

abbrev payload_of : Option ℕ → ℕ
payload_of none = rfc1035_max_udp_payload
payload_of (some n) = clamp rfc1035_max_udp_payload max_edns_payload_size n

abbrev packet_payload : Option Packet → ℕ
packet_payload none = rfc1035_max_udp_payload
packet_payload (some p) = payload_of p.edns_max_payload

-- The `if let` that tries to truncate the message by the library.
abbrev truncated_by_lib : Option Bytes → ℕ → Option Bytes
truncated_by_lib none max_payload = none
truncated_by_lib (some buf) max_payload = if leb (length buf) max_payload then some buf else none

abbrev or_header : Option Bytes → Bytes → Bytes
or_header (some buf) response = buf
or_header none response =
    if leb dns_header_size (length response)
    then take dns_header_size (set_truncated response)
    else response

module _ (lib : DnsLib) where
  unfoldable pub extract_client_max_payload : Bytes → ℕ
  extract_client_max_payload query = packet_payload (lib.from_bytes query)

  unfoldable pub prepare_client_response : Bytes → ℕ → Bytes
  prepare_client_response response max_payload =
      if leb (length response) max_payload
      then response
      else or_header (truncated_by_lib (lib.emit_truncated response) max_payload) response

length-take-le : (n : ℕ) (bs : Bytes) → length (take n bs) ≤ n
unfolding take
length-take-le zero bs = omega arith
length-take-le (suc n) [] = omega arith
length-take-le (suc n) (b ∷ bs) = omega (arith, length-take-le n bs)

-- The payload that the code assumes of a client is between 512 and 4096 bytes.
pub extract_client_max_payload_bounds :
    (lib : DnsLib) (query : Bytes)
    → (512 ≤ extract_client_max_payload lib query) × (extract_client_max_payload lib query ≤ 4096)
unfolding extract_client_max_payload
extract_client_max_payload_bounds lib query = ground arith

-- What is sent over UDP fits the payload that the client takes, if that has room for a header.
pub length-prepare_client_response :
    (lib : DnsLib) (response : Bytes) (max_payload : ℕ)
    → dns_header_size ≤ max_payload
    → length (prepare_client_response lib response max_payload) ≤ max_payload
unfolding prepare_client_response
length-prepare_client_response lib response max_payload h =
    ground (arith, length-take-le dns_header_size (set_truncated response))

-- A message read after its id was written shows that id, and the id of a query comes back.
pub message_id-with_id : (id : ℕ) (b : Bytes) → 2 ≤ length b → message_id (with_id id b) ≡ id
unfolding message_id with_id
message_id-with_id id [] h = absurd (omega arith)
message_id-with_id id (hi ∷ []) h = absurd (omega arith)
message_id-with_id id (hi ∷ lo ∷ rest) h = omega arith

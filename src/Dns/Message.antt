-- ===== src/Dns/Message.antt =====
-- Messages as github.com/miekg/dns decodes them, with the fields that the resolver reads.
use offveil.Prelude.{ℕ, Bool, true, false, List, [], ◌∷◌, Option, Text}

-- A value of a SVCB record: an IPv6 hint, or another one with its key.
pub data SvcbValue : Type 0 where
  ipv6_hint : SvcbValue
  other_value : ℕ → SvcbValue

-- The type of a record: an A record with the address that To4 gives, SVCB and HTTPS with their
-- values, the pseudo record OPT, or another one with its number.
pub data RrData : Type 0 where
  a_data : Option ℕ → RrData
  svcb_data : List SvcbValue → RrData
  opt_data : RrData
  other_data : ℕ → RrData

pub record Rr : Type 0 where
  pub name : Text
  pub ttl : ℕ
  pub rdata : RrData

pub record Question : Type 0 where
  pub name : Text
  pub qtype : ℕ
  pub qclass : ℕ

pub record Msg : Type 0 where
  pub id : ℕ
  pub is_response : Bool
  pub truncated : Bool
  pub recursion_available : Bool
  pub opcode : ℕ
  pub rcode : ℕ
  pub signed : Bool
  pub questions : List Question
  pub answer : List Rr
  pub ns : List Rr
  pub extra : List Rr

abbrev pub type_aaaa : ℕ
type_aaaa = 28

abbrev pub rcode_success : ℕ
rcode_success = 0

abbrev pub rcode_server_failure : ℕ
rcode_server_failure = 2

abbrev pub rcode_refused : ℕ
rcode_refused = 5

abbrev pub opcode_query : ℕ
opcode_query = 0

abbrev first_question : List Question → List Question
first_question [] = []
first_question (q ∷ qs) = q ∷ []

-- SetReply followed by a response code, which is the library's SetRcode.
abbrev pub set_rcode : Msg → ℕ → Msg
set_rcode r code = record {
  id = r.id;
  is_response = true;
  truncated = false;
  recursion_available = false;
  opcode = r.opcode;
  rcode = code;
  signed = false;
  questions = first_question r.questions;
  answer = [];
  ns = [];
  extra = [];
}

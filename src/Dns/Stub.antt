-- ===== src/Dns/Stub.antt =====
-- The local stub: offveil-core/internal/dns/stub.go, handle and stripIPv6Hints. The two upstreams
-- are arguments, an answer or none on an error.
pub mod Answers
mod Tests
use offveil.Prelude.{
  ℕ, suc, ◌+◌, Bool, true, false, not, ◌&&◌, List, [], ◌∷◌, Option, none, some, Text, codes,
  is_empty, map, ◌≡◌, if◌then◌else◌, ◌==◌, to_lower, trim_suffix,
}
use offveil.Dns.Message.{
  SvcbValue, ipv6_hint, other_value, RrData, svcb_data, Rr, Question, Msg, type_aaaa, rcode_success,
  rcode_server_failure, rcode_refused, set_rcode,
}
use offveil.Dns.Poison.{PoisonSet, Filtered, filter_poison_answers}

unfoldable pub drop_hints : List SvcbValue → List SvcbValue
drop_hints [] = []
drop_hints (ipv6_hint ∷ values) = drop_hints values
drop_hints (other_value k ∷ values) = other_value k ∷ drop_hints values

abbrev pub strip_data : RrData → RrData
strip_data (svcb_data values) = svcb_data (drop_hints values)
strip_data d = d

abbrev pub strip_record : Rr → Rr
strip_record rr = record rr { rdata = strip_data rr.rdata }

-- stripIPv6Hints.
unfoldable pub strip_ipv6_hints : List Rr → List Rr
strip_ipv6_hints answer = map strip_record answer

-- The counters of the stub and the last fingerprint with its name.
pub record Stub : Type 0 where
  pub poison : PoisonSet
  pub ipv4_only : Bool
  pub queries : ℕ
  pub fallbacks : ℕ
  pub last_poison : Option (Text × Text)

-- How a query was answered: from the stub itself, by DoH, or by plain UDP.
pub data Via : Type 0 where
  by_stub by_doh by_plain : Via

abbrev pub hints_if : Bool → List Rr → List Rr
hints_if on answer = if on then strip_ipv6_hints answer else answer

abbrev note_poison : Question → Text → Stub → Stub
note_poison q id s = record s { last_poison = some (id, q.name) }

abbrev pub finish_reply : Question → Msg → List Rr → Option Text → Stub → Stub × Msg
finish_reply q out clean none s = (s, record out { answer = hints_if s.ipv4_only clean })
finish_reply q out clean (some id) s =
    (note_poison q id s, record out { rcode = rcode_server_failure; answer = [] })

-- The part of handle after an upstream answered.
unfoldable pub relay : Question → Msg → Msg → Stub → Stub × Msg
unfolding strip_ipv6_hints
relay q r resp s =
    let out = record resp { id = r.id; is_response = true; recursion_available = true } in
    let filtered = filter_poison_answers s.poison resp.answer in
    finish_reply q out filtered.clean filtered.poison_id s

abbrev pub answer_plain : Question → Msg → Option Msg → Stub → Stub × Msg × Via
answer_plain q r none s = (s, set_rcode r rcode_server_failure, by_plain)
answer_plain q r (some resp) s = let (s', out) = relay q r resp s in (s', out, by_plain)

abbrev pub answer_upstream : Question → Msg → Option Msg → Option Msg → Stub → Stub × Msg × Via
answer_upstream q r none plain s = answer_plain q r plain (record s { fallbacks = suc s.fallbacks })
answer_upstream q r (some resp) plain s = let (s', out) = relay q r resp s in (s', out, by_doh)

abbrev pub is_nodata : Stub → Question → Bool
is_nodata s q = q.qtype == type_aaaa && s.ipv4_only

abbrev pub answer_question :
    (Question → Option Msg)
    → (Question → Option Msg)
    → Msg
    → List Question
    → Stub
    → Stub × Msg × Via
answer_question doh plain r [] s = (s, set_rcode r rcode_refused, by_stub)
answer_question doh plain r (q ∷ qs) s =
    if is_nodata s q
    then (s, record (set_rcode r rcode_success) { recursion_available = true }, by_stub)
    else answer_upstream q r (doh q) (plain q) s

-- handle.
unfoldable pub handle :
    (Question → Option Msg) → (Question → Option Msg) → Msg → Stub → Stub × Msg × Via
unfolding relay
handle doh plain r s =
    answer_question doh plain r r.questions (record s { queries = suc s.queries })

abbrev observed_name : Text → Option Text
observed_name host = if is_empty host then none else some host

-- The host that handle passes to the observer.
unfoldable pub observed : List Question → Option Text
unfolding trim_suffix to_lower
observed [] = none
observed (q ∷ qs) = observed_name (trim_suffix (to_lower q.name) (codes "."))

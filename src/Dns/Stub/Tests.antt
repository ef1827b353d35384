-- ===== src/Dns/Stub/Tests.antt =====
-- A query whose DoH answer is a censorship page.
use offveil.Prelude.{ℕ, ◌≡◌, refl, true, false, none, some, [], ◌∷◌, codes}
use offveil.Dns.Message.{a_data, Question, Msg, rcode_server_failure}
use offveil.Dns.Poison.{match_poison, filter_poison_answers, judge}
use offveil.Dns.Stub.{Stub, handle, relay}
use offveil.Dns.Stub.Answers.{Guarded, used, handle-Guarded}

-- 195.175.254.2.
abbrev page : ℕ
page = 3283091970

abbrev question : Question
question = record { name = codes "chat.net."; qtype = 1; qclass = 1 }

abbrev query : Msg
query = record {
  id = 77;
  is_response = false;
  truncated = false;
  recursion_available = false;
  opcode = 0;
  rcode = 0;
  signed = false;
  questions = question ∷ [];
  answer = [];
  ns = [];
  extra = [];
}

abbrev censored : Msg
censored = record query {
  is_response = true;
  answer = record { name = codes "chat.net."; ttl = 30; rdata = a_data (some page) } ∷ [];
}

abbrev stub : Stub
stub = record {
  poison = (page, codes "ooni.tr_6") ∷ [];
  ipv4_only = true;
  queries = 0;
  fallbacks = 0;
  last_poison = none;
}

fails_closed : (handle (λ q. some censored) (λ q. none) query stub).1.rcode ≡ rcode_server_failure
unfolding handle relay filter_poison_answers judge match_poison
fails_closed = refl

handle-Guarded_example :
    Guarded stub.poison
      (used (λ q. some censored) (λ q. none) query.questions stub)
      (handle (λ q. some censored) (λ q. none) query stub).1
handle-Guarded_example = handle-Guarded (λ q. some censored) (λ q. none) query stub

-- ===== src/Dns/Stub/Answers.antt =====
-- What the stub lets through.
use offveil.Prelude.{
  ℕ, ◌==◌, ==_iff, true-not_false, suc, ◌≡◌, refl, Bool, true, false, List, [], ◌∷◌, Option, none,
  some, Text, if◌then◌else◌, Bool-cases, inl, inr, ◌⊎◌, In, All, ap, subst, sym, ◌∙◌,
}
use offveil.Dns.Message.{
  RrData, a_data, svcb_data, opt_data, other_data, Rr, Question, Msg, rcode_server_failure,
  rcode_success, rcode_refused, set_rcode,
}
use offveil.Dns.Poison.{
  PoisonSet, Verdict, stays, goes, poisons, judge, judge_data, Filtered, keep_record, later_or,
  match_poison, poisoned_or, filter_poison_answers,
}
use offveil.Dns.Stub.{
  Stub, strip_record, strip_data, strip_ipv6_hints, finish_reply, hints_if, relay, answer_upstream,
  answer_question, is_nodata, handle,
}

-- An address record with the address of a fingerprint in the set.
abbrev pub IsPoison : PoisonSet → Rr → Type 0
IsPoison ips rr = (addr : ℕ) × (id : Text) × (rr.rdata ≡ a_data (some addr)) × In (addr, id) ips

abbrev pub IsClean : PoisonSet → Rr → Type 0
IsClean ips rr = IsPoison ips rr → ⊥

match-found :
    (ips : PoisonSet) (addr : ℕ) (id : Text)
    → In (addr, id) ips
    → (first : Text) × (match_poison ips addr ≡ some first)
unfolding match_poison
match-found [] addr id i = absurd i
match-found ((a, x) ∷ ips) addr id i = elim (Bool-cases (a == addr)) [
  | inl e ↦ (x, rw e refl)
  | inr e ↦ elim i [
    | inl h ↦
        let same : addr ≡ a = ap (λ y. y.0) h in
        absurd (true-not_false (sym ((==_iff a addr).1 (sym same)) ∙ e))
    | inr j ↦ let (first, m) = match-found ips addr id j in (first, rw e m)
  ]
]

-- The verdict on it.
poison-judged :
    (ips : PoisonSet) (rr : Rr) → IsPoison ips rr → (first : Text) × (judge ips rr ≡ poisons first)
unfolding judge
poison-judged ips rr (addr, id, e, i) =
    let (first, m) = match-found ips addr id i in (first, ap (judge_data ips) e ∙ ap poisoned_or m)

stays-IsClean : (ips : PoisonSet) (rr : Rr) → judge ips rr ≡ stays → IsClean ips rr
stays-IsClean ips rr e p =
    let (first, j) = poison-judged ips rr p in
    let clash : Path Verdict stays (poisons first) = sym e ∙ j in cc

keep-clean :
    (ips : PoisonSet) (rr : Rr) (rest : Filtered) (v : Verdict)
    → judge ips rr ≡ v
    → All (IsClean ips) rest.clean
    → All (IsClean ips) (keep_record v rr rest).clean
keep-clean ips rr rest stays e h = (stays-IsClean ips rr e, h)
keep-clean ips rr rest goes e h = h
keep-clean ips rr rest (poisons id) e h = h

filter-clean :
    (ips : PoisonSet) (rrs : List Rr) → All (IsClean ips) (filter_poison_answers ips rrs).clean
unfolding filter_poison_answers
filter-clean ips [] = tt
filter-clean ips (rr ∷ rrs) =
    keep-clean ips rr (filter_poison_answers ips rrs) (judge ips rr) refl (filter-clean ips rrs)

strip-clean : (ips : PoisonSet) (rr : Rr) → IsClean ips rr → IsClean ips (strip_record rr)
strip-clean ips rr clean (addr, id, e, i) = clean (addr, id, stripped rr.rdata e, i)
  where
    stripped : (d : RrData) → strip_data d ≡ a_data (some addr) → d ≡ a_data (some addr)
    stripped (a_data a) e = e
    stripped (svcb_data values) e = cc e
    stripped opt_data e = e
    stripped (other_data k) e = e

strip-IsClean :
    (ips : PoisonSet) (rrs : List Rr)
    → All (IsClean ips) rrs
    → All (IsClean ips) (strip_ipv6_hints rrs)
unfolding strip_ipv6_hints
strip-IsClean ips [] h = tt
strip-IsClean ips (rr ∷ rrs) h = (strip-clean ips rr h.0, strip-IsClean ips rrs h.1)

hints-IsClean :
    (ips : PoisonSet) (on : Bool) (rrs : List Rr)
    → All (IsClean ips) rrs
    → All (IsClean ips) (hints_if on rrs)
hints-IsClean ips true rrs h = strip-IsClean ips rrs h
hints-IsClean ips false rrs h = h

finish-IsClean :
    (q : Question) (out : Msg) (clean : List Rr) (id : Option Text) (s : Stub)
    → All (IsClean s.poison) clean
    → All (IsClean s.poison) (finish_reply q out clean id s).1.answer
finish-IsClean q out clean none s h = hints-IsClean s.poison s.ipv4_only clean h
finish-IsClean q out clean (some id) s h = tt

relay-IsClean :
    (q : Question) (r resp : Msg) (s : Stub) → All (IsClean s.poison) (relay q r resp s).1.answer
unfolding relay
relay-IsClean q r resp s =
    let filtered = filter_poison_answers s.poison resp.answer in
    finish-IsClean q (record resp { id = r.id; is_response = true; recursion_available = true })
      filtered.clean filtered.poison_id s (filter-clean s.poison resp.answer)

-- A poisoned record leaves its id.
some_id : (o : Option Text) (id : Text) → (last : Text) × (later_or o id ≡ some last)
some_id none id = (id, refl)
some_id (some last) id = (last, refl)

keep-id :
    (v : Verdict) (rr : Rr) (rest : Filtered) (id : Text)
    → (v ≡ poisons id) ⊎ ((last : Text) × (rest.poison_id ≡ some last))
    → (last : Text) × ((keep_record v rr rest).poison_id ≡ some last)
keep-id stays rr rest id (inl e) = cc e
keep-id stays rr rest id (inr h) = h
keep-id goes rr rest id (inl e) = cc e
keep-id goes rr rest id (inr h) = h
keep-id (poisons first) rr rest id h = some_id rest.poison_id first

filter-id :
    (ips : PoisonSet) (rrs : List Rr) (rr : Rr) (id : Text)
    → In rr rrs
    → judge ips rr ≡ poisons id
    → (last : Text) × ((filter_poison_answers ips rrs).poison_id ≡ some last)
unfolding filter_poison_answers
filter-id ips [] rr id i h = absurd i
filter-id ips (x ∷ rrs) rr id (inl e) h =
    keep-id (judge ips x) x (filter_poison_answers ips rrs) id (inl (ap (judge ips) (sym e) ∙ h))
filter-id ips (x ∷ rrs) rr id (inr i) h =
    keep-id (judge ips x) x (filter_poison_answers ips rrs) id (inr (filter-id ips rrs rr id i h))

relay-blocked :
    (q : Question) (r resp : Msg) (s : Stub) (rr : Rr)
    → In rr resp.answer
    → IsPoison s.poison rr
    → ((relay q r resp s).1.rcode ≡ rcode_server_failure) × ((relay q r resp s).1.answer ≡ [])
unfolding relay
relay-blocked q r resp s rr i p =
    let (id, h) = poison-judged s.poison rr p in
    let (last, e) = filter-id s.poison resp.answer rr id i h in (rw e, rw e)

-- What one reply promises: no poisoned record in its answer section, and, where the upstream that was used
-- sent one there, a failure with an empty answer section.
pub record Guarded (ips : PoisonSet) (resp : Option Msg) (out : Msg) : Type 0 where
  pub clean : All (IsClean ips) out.answer
  pub blocked :
      (m : Msg) (rr : Rr)
      → resp ≡ some m
      → In rr m.answer
      → IsPoison ips rr
      → (out.rcode ≡ rcode_server_failure) × (out.answer ≡ [])

relayed : (q : Question) (r m : Msg) (s : Stub) → Guarded s.poison (some m) (relay q r m s).1
relayed q r m s = record {
  clean = relay-IsClean q r m s;
  blocked = λ m' rr e i p.
      let same : m ≡ m' = cc e in
      relay-blocked q r m s rr (subst (λ x. In rr x.answer) (sym same) i) p;
}

silent : (ips : PoisonSet) (out : Msg) → out.answer ≡ [] → Guarded ips none out
silent ips out h = record {
  clean = subst (All (IsClean ips)) (sym h) tt;
  blocked = λ m rr e i p. cc e;
}

-- The upstream answer that a query is answered from: the one of DoH if there is one, otherwise that
-- of plain UDP, and none for an IPv6 address that the stub withholds or a query without a question.
abbrev pub used :
    (Question → Option Msg) → (Question → Option Msg) → List Question → Stub → Option Msg
used doh plain [] s = none
used doh plain (q ∷ qs) s =
    if is_nodata s q then none else elim (doh q) [ some m ↦ some m | none ↦ plain q ]

upstream-Guarded :
    (q : Question) (r : Msg) (doh plain : Option Msg) (s : Stub)
    → Guarded s.poison
        (elim doh [ some m ↦ some m | none ↦ plain ])
        (answer_upstream q r doh plain s).1
upstream-Guarded q r (some m) plain s = relayed q r m s
upstream-Guarded q r none (some m) s = relayed q r m (record s { fallbacks = suc s.fallbacks })
upstream-Guarded q r none none s = silent s.poison (set_rcode r rcode_server_failure) refl

-- Whatever the upstreams answer, by DoH or by plain UDP, the answer section of the reply to the system has
-- no IPv4 address record with an address of a known fingerprint, and if the answer section of the message that
-- was used had one, the reply is a server failure with an empty answer section.
pub handle-Guarded :
    (doh plain : Question → Option Msg) (r : Msg) (s : Stub)
    → Guarded s.poison (used doh plain r.questions s) (handle doh plain r s).1
unfolding handle
handle-Guarded doh plain r s = guarded r.questions
  where
    guarded :
        (qs : List Question)
        → Guarded s.poison
            (used doh plain qs s)
            (answer_question doh plain r qs (record s { queries = suc s.queries })).1
    guarded [] = silent s.poison (set_rcode r rcode_refused) refl
    guarded (q ∷ qs) = elim (Bool-cases (is_nodata s q)) [
      | inl h ↦
          simp h (
            silent s.poison (record (set_rcode r rcode_success) { recursion_available = true })
              refl)
      | inr h ↦
          simp h (upstream-Guarded q r (doh q) (plain q) (record s { queries = suc s.queries }))
    ]

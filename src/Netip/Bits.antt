-- ===== src/Netip/Bits.antt =====
-- Prefixes as sets of addresses: prefixes that do not overlap share none.
use offveil.Prelude.{ℕ, zero, suc, ◌+◌, ◌-◌, ◌*◌, ◌/◌, ◌≡◌, refl, true, arith, ap, ◌∙◌, ◌≤◌, sym}
use offveil.Netip.{Addr}
use offveil.Netip.Prefix.{Prefix, shr, shl, width, value, agree, contains_addr, overlaps, min_of}

pub shr_add : (n j k : ℕ) → shr n (j + k) ≡ shr (shr n j) k
shr_add n zero k = let e : 0 + k ≡ k = omega arith in ap (shr n) e
shr_add n (suc j) k =
    let e : suc j + k ≡ suc (j + k) = omega arith in ap (shr n) e ∙ shr_add (n / 2) j k

pub shr-shl : (n k : ℕ) → shr (shl n k) k ≡ n
shr-shl n zero = refl
shr-shl n (suc k) =
    let e : shl n k * 2 / 2 ≡ shl n k = omega arith in ap (λ m. shr m k) e ∙ shr-shl n k

-- Addresses of one family that have their first bits in common.
abbrev Agree : ℕ → Addr → Addr → Type 0
Agree m a b = (width a ≡ width b) × (shr (value a) (width a - m) ≡ shr (value b) (width a - m))

agree→Agree : (m : ℕ) (a b : Addr) → agree m a b ≡ true → Agree m a b
unfolding agree
agree→Agree m a b h = (ground arith, ground arith)

Agree→agree : (m : ℕ) (a b : Addr) → Agree m a b → agree m a b ≡ true
unfolding agree
Agree→agree m a b (w, e) = ground arith

-- Two addresses that agree in their first bits agree in fewer.
Agree-fewer : (m n : ℕ) (a b : Addr) → m ≤ n → n ≤ width a → Agree n a b → Agree m a b
Agree-fewer m n a b l v (w, h) =
    let e : width a - m ≡ (width a - n) + (n - m) = omega arith in
    (
      w,
      rw e (
          rw (shr_add (value a) (width a - n) (n - m), shr_add (value b) (width a - n) (n - m))
            (ap (λ x. shr x (n - m)) h)),
    )

Agree-swap : (m : ℕ) (a b : Addr) → Agree m a b → Agree m b a
Agree-swap m a b (w, h) = (sym w, rw (← w) (sym h))

Agree-trans : (m : ℕ) (a b c : Addr) → Agree m a b → Agree m b c → Agree m a c
Agree-trans m a b c (w, h) (v, k) = (w ∙ v, h ∙ rw (w) k)

-- Prefixes with an address in common overlap.
pub shared-overlaps :
    (p q : Prefix) (a : Addr)
    → contains_addr p a ≡ true
    → contains_addr q a ≡ true
    → overlaps p q ≡ true
unfolding overlaps
shared-overlaps p q a h k =
    let pv : p.bits ≤ width p.addr = ground arith in
    let qv : q.bits ≤ width q.addr = ground arith in
    let pa = agree→Agree p.bits p.addr a (ground arith) in
    let qa = agree→Agree q.bits q.addr a (ground arith) in
    let m : min_of p.bits q.bits ≤ p.bits = ground arith in
    let n : min_of p.bits q.bits ≤ q.bits = ground arith in
    let both = Agree→agree (min_of p.bits q.bits) p.addr q.addr (
      Agree-trans _ _ _ _ (Agree-fewer _ p.bits _ _ m pv pa)
        (Agree-swap _ _ _ (Agree-fewer _ q.bits _ _ n qv qa))) in
    ground (arith, both)

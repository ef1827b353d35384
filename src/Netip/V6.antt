-- ===== src/Netip/V6.antt =====
-- IPv6 literals as net/netip parses them, without zones.
use offveil.Prelude.{
  ℕ, ◌+◌, ◌-◌, ◌*◌, ◌^◌, Bool, true, false, ◌&&◌, ◌||◌, Option, none, some, List, [], ◌∷◌, ◌≡◌,
  refl, Text, codes, is_empty, length, leb, ltb, ◌==◌, if◌then◌else◌, split, contains, ◌/◌, ◌%◌,
}
use offveil.Netip.{Addr, v4, v6, is_digit, parse_ipv4}

unfoldable pub hex_value : ℕ → Option ℕ
unfolding is_digit
hex_value c =
    if is_digit c
    then some (c - b'0')
    else if leb b'a' c && leb c b'f'
    then some (c - b'a' + 10)
    else if leb b'A' c && leb c b'F'
    then some (c - b'A' + 10)
    else none

abbrev next_hex : ℕ → Option ℕ → Option ℕ
next_hex acc none = none
next_hex acc (some d) = some (acc * 16 + d)

unfoldable hex_from : Option ℕ → Text → Option ℕ
hex_from acc [] = acc
hex_from none (c ∷ s) = none
hex_from (some acc) (c ∷ s) = hex_from (next_hex acc (hex_value c)) s

-- One field: one to four hexadecimal digits.
unfoldable pub hextet : Text → Option ℕ
unfolding hex_from hex_value
hextet s = if is_empty s || ltb 4 (length s) then none else hex_from (some 0) s

-- Fields in front of a run of zeros that is written `::`, and those behind it.
pub record Groups : Type 0 where
  pub before : List ℕ
  pub after : List ℕ
  pub gap : Bool

abbrev lead : Option ℕ → Option Groups → Option Groups
lead (some v) (some g) = some (record g { before = v ∷ g.before })
lead _ _ = none

abbrev open_gap : Option Groups → Option Groups
open_gap none = none
open_gap (some g) =
    if g.gap then none else some (record { before = []; after = g.before; gap = true })

-- The last field, which may be an IPv4 literal.
abbrev of_ipv4 : Option ℕ → Option Groups
of_ipv4 none = none
of_ipv4 (some a) = some (record { before = a / 65536 ∷ a % 65536 ∷ []; after = []; gap = false })

unfoldable gather : List Text → Option Groups
unfolding hextet parse_ipv4 contains
gather [] = some (record { before = []; after = []; gap = false })
gather (f ∷ []) =
    if is_empty f
    then some (record { before = []; after = []; gap = true })
    else if contains b'.' f
    then of_ipv4 (parse_ipv4 f)
    else lead (hextet f) (some (record { before = []; after = []; gap = false }))
gather (f ∷ g ∷ fs) =
    let rest = gather (g ∷ fs) in if is_empty f then open_gap rest else lead (hextet f) rest

-- A leading and a trailing colon are only those of a gap.
abbrev trim_front : List Text → Option (List Text)
trim_front (f ∷ g ∷ fs) =
    if is_empty f then (if is_empty g then some (g ∷ fs) else none) else some (f ∷ g ∷ fs)
trim_front _ = none

abbrev cons_to : Text → Option (List Text) → Option (List Text)
cons_to f none = none
cons_to f (some fs) = some (f ∷ fs)

unfoldable trim_back : List Text → Option (List Text)
trim_back [] = none
trim_back (f ∷ []) = if is_empty f then none else some (f ∷ [])
trim_back (f ∷ g ∷ []) =
    if is_empty g then (if is_empty f then some (f ∷ []) else none) else some (f ∷ g ∷ [])
trim_back (f ∷ g ∷ h ∷ fs) = cons_to f (trim_back (g ∷ h ∷ fs))

abbrev number : ℕ → List ℕ → ℕ
number acc [] = acc
number acc (v ∷ vs) = number (acc * 65536 + v) vs

abbrev joined : Option Groups → Option ℕ
joined none = none
joined (some g) =
    if g.gap
    then (if ltb (length g.before + length g.after) 8
        then some (number 0 g.before * 65536 ^ (8 - length g.before) + number 0 g.after)
        else none)
    else (if length g.before == 8 then some (number 0 g.before) else none)

abbrev gathered : Option (List Text) → Option Groups
gathered none = none
gathered (some fs) = gather fs

abbrev trimmed : Option (List Text) → Option (List Text)
trimmed none = none
trimmed (some fs) = trim_back fs

-- ParseAddr on a text whose first special byte is a colon.
unfoldable pub parse_ipv6 : Text → Option ℕ
unfolding gather trim_back split
parse_ipv6 s =
    let fields = split b':' s in
    if ltb (length fields) 3 then none else joined (gathered (trimmed (trim_front fields)))

abbrev as_v4 : Option ℕ → Option Addr
as_v4 none = none
as_v4 (some n) = some (v4 n)

abbrev as_v6 : Option ℕ → Option Addr
as_v6 none = none
as_v6 (some n) = some (v6 n)

-- ParseAddr: the first dot or colon decides.
unfoldable pub parse_addr_as : Text → Text → Option Addr
unfolding parse_ipv4 parse_ipv6
parse_addr_as whole [] = none
parse_addr_as whole (c ∷ s) =
    let later = parse_addr_as whole s in
    if c == b'.'
    then as_v4 (parse_ipv4 whole)
    else if c == b':'
    then as_v6 (parse_ipv6 whole)
    else if c == b'%'
    then none
    else later

unfoldable pub parse_addr : Text → Option Addr
unfolding parse_addr_as
parse_addr s = parse_addr_as s s

parse_any : parse_addr (codes "::") ≡ some (v6 0)
unfolding parse_addr parse_ipv6 gather trim_back hextet hex_from hex_value parse_ipv4 split
parse_any = refl

parse_resolver :
    parse_addr (codes "2001:db8::8:A") ≡ some (v6 42540766411282592856903984951654350858)
unfolding parse_addr parse_ipv6 gather trim_back hextet hex_from hex_value parse_ipv4 split
parse_resolver = refl

parse_mapped : parse_addr (codes "::ffff:1.2.3.4") ≡ some (v6 281470698652420)
unfolding parse_addr parse_ipv6 gather trim_back hextet hex_from hex_value parse_ipv4 split
parse_mapped = refl

parse_two_gaps : parse_addr (codes "1::2::3") ≡ none
unfolding parse_addr parse_ipv6 gather trim_back hextet hex_from hex_value parse_ipv4 split
parse_two_gaps = refl

parse_colon : parse_addr (codes "1:2:3:4:5:6:7:") ≡ none
unfolding parse_addr parse_ipv6 gather trim_back hextet hex_from hex_value parse_ipv4 split
parse_colon = refl

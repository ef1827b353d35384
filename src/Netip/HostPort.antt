-- ===== src/Netip/HostPort.antt =====
-- SplitHostPort of Go's net, and the numbers that strconv.Atoi accepts.
use offveil.Prelude.{
  ℕ, ◌-◌, Bool, true, false, not, ◌&&◌, ◌||◌, Option, none, some, [], ◌∷◌, ◌++◌, ◌≡◌, refl, Text,
  codes, length, leb, ltb, ◌==◌, if◌then◌else◌, contains, take, drop, last_or,
}
use offveil.Netip.Prefix.{decimal}

-- The text before the last `sep`, the text behind it, and whether it is there.
unfoldable pub cut_last : ℕ → Text → Text × Text × Bool
cut_last sep [] = ([], [], false)
cut_last sep (c ∷ s) =
    let (before, after, found) = cut_last sep s in
    if found
    then (c ∷ before, after, true)
    else if c == sep
    then ([], s, true)
    else (c ∷ s, [], false)

abbrev pub first_or : ℕ → Text → ℕ
first_or d [] = d
first_or d (c ∷ s) = c

abbrev bracketed : Text → Bool
bracketed s = ltb 1 (length s) && first_or 0 s == b'[' && last_or 0 s == b']'

abbrev inner : Text → Text
inner s = take (length s - 2) (drop 1 s)

abbrev has_bracket : Text → Bool
has_bracket s = contains b'[' s || contains b']' s

-- SplitHostPort.
unfoldable pub split_host_port : Text → Option (Text × Text)
unfolding cut_last contains
split_host_port s =
    let (before, after, found) = cut_last b':' s in
    if not found
    then none
    else if first_or 0 s == b'['
    then (if bracketed before && not (has_bracket (inner before)) && not (has_bracket after)
        then some (inner before, after)
        else none)
    else if contains b':' before || has_bracket s
    then none
    else some (before, after)

-- JoinHostPort.
unfoldable pub join_host_port : Text → Text → Text
unfolding contains
join_host_port host port =
    if contains b':' host || contains b'%' host
    then (b'[' ∷ host) ++ (b']' ∷ b':' ∷ port)
    else host ++ (b':' ∷ port)

abbrev unsigned : Text → Text
unsigned [] = []
unsigned (c ∷ s) = if c == b'+' || c == b'-' then s else c ∷ s

abbrev in_range : Text → Option ℕ → Bool
in_range s none = false
in_range s (some n) =
    leb n 9223372036854775807 || (first_or 0 s == b'-' && n == 9223372036854775808)

-- Whether Atoi returns no error.
unfoldable pub is_int : Text → Bool
unfolding decimal
is_int s = in_range s (decimal (unsigned s))

split_v4 : split_host_port (codes "162.159.192.1:2408") ≡ some (codes "162.159.192.1", codes "2408")
unfolding split_host_port
split_v4 = refl

split_v6 : split_host_port (codes "[2606:4700::1]:500") ≡ some (codes "2606:4700::1", codes "500")
unfolding split_host_port
split_v6 = refl

split_bare_v6 : split_host_port (codes "2606:4700::1") ≡ none
unfolding split_host_port
split_bare_v6 = refl

split_no_port : split_host_port (codes "[::1]") ≡ none
unfolding split_host_port
split_no_port = refl

joined_v6 : join_host_port (codes "::1") (codes "53") ≡ codes "[::1]:53"
unfolding join_host_port
joined_v6 = refl

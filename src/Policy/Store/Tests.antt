-- ===== src/Policy/Store/Tests.antt =====
-- A decision that is trusted for a while, and a network that changes.
use offveil.Prelude.{◌≡◌, refl, true, [], none, Text, codes, text_eq, arith, hour, second}
use offveil.Netinfo.{Network, normalize_asn}
use offveil.Policy.Store.{
  Store, new_store, observe_network, put, put_locked, look_up, entry_of, path_tunnel, is_changed,
}
use offveil.Policy.Store.Refinement.{
  Decisions, History, new, puts, observes, decide, forget_if, trusted, look_up-Refines,
}

abbrev home : Network
home = record { asn = codes "AS9121"; isp_hint = codes "TR"; fingerprint = codes "aa" }

abbrev cafe : Network
cafe = record { asn = codes "AS9121"; isp_hint = []; fingerprint = codes "bb" }

abbrev chat : Text
chat = codes "chat.net"

abbrev at_home : Store
at_home =
    put chat path_tunnel (codes "ip_drop") (codes "warp") second (observe_network home new_store).0

abbrev decided : Decisions
decided =
    decide chat (entry_of chat path_tunnel (codes "ip_drop") (codes "warp") second 0 second)
      (forget_if (observe_network home new_store).1 (λ d. none))

abbrev past : History at_home decided second
past =
    puts chat path_tunnel (codes "ip_drop") (codes "warp") second 0 second (omega arith)
      (observes home new)

look_up-Refines_example : (look_up chat hour at_home).1 ≡ trusted hour (decided chat)
look_up-Refines_example = look_up-Refines chat hour past (omega arith)

roams : (observe_network cafe at_home).1 ≡ true
unfolding observe_network is_changed text_eq put_locked normalize_asn
roams = refl

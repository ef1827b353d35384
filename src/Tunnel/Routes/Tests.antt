-- ===== src/Tunnel/Routes/Tests.antt =====
-- Routes that are kept and routes that are not.
use offveil.Prelude.{◌≡◌, refl, none, [], ◌∷◌, codes}
use offveil.Netip.{v4}
use offveil.Tunnel.Routes.{filter_route_cidrs}

kept_routes :
    filter_route_cidrs
      (codes "10.0.0.0/8"
        ∷ codes " 8.8.8.8 "
        ∷ codes "5.6.7.8/24"
        ∷ codes "5.6.7.0/24"
        ∷ codes "128.0.0.0/1"
        ∷ [])
      []
      none
      []
    ≡ record { addr = v4 84281088; bits = 24 } ∷ record { addr = v4 2147483648; bits = 1 } ∷ []
unfolding filter_route_cidrs
kept_routes = refl

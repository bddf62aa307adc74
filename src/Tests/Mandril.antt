-- ===== src/Tests/Mandril.antt =====
-- The plugin mandril at concrete inputs.
use monkey.Prelude.{◌+◌, ◌*◌, ◌^◌, ◌≡◌, refl, ◌⊎◌, true, false, [], ◌∷◌}
use monkey.Libc.{codes}
use monkey.Types.{SessionRequest, request_init, literal}
use monkey.Session.{new_session}
use monkey.Serve.Plugins.{close_conx, keep_on}
use monkey.Serve.Errors.{set_status}
use monkey.Mandril.{
  Rules, subnet_of, is_denied, htonl, net_netmask, net_network, net_broadcast, net_hostmin,
  net_hostmax, stage_20,
}
use monkey.Mandril.Urls.{HoldsOne, stage_20-HoldsOne}

-- In the denied network 10.0.0.0/16 the address 10.0.5.1 is denied, and 10.0.5.0 is not.
denied_test :
    (is_denied (10 + 5 * 2 ^ 16 + 2 ^ 24) (subnet_of 10 16) ≡ true)
    × (is_denied (10 + 5 * 2 ^ 16) (subnet_of 10 16) ≡ false)
unfolding is_denied htonl net_netmask net_network net_broadcast net_hostmin net_hostmax
denied_test = (refl, refl)

abbrev denying : Rules
denying = record { secure_ip = []; secure_url = codes "/private" ∷ [] }

abbrev asked : SessionRequest
asked = record request_init { uri = literal (codes "/a/Private/b") 12 }

stage_20-HoldsOne_example :
    (HoldsOne (codes "/a/Private/b") 12 denying.secure_url
      × (stage_20 denying (new_session 3 100) asked
          ≡ record { answer = close_conx; request = set_status asked 403; log = [] }))
    ⊎ ((HoldsOne (codes "/a/Private/b") 12 denying.secure_url → ⊥)
        × (stage_20 denying (new_session 3 100) asked
            ≡ record { answer = keep_on; request = asked; log = [] }))
stage_20-HoldsOne_example = stage_20-HoldsOne denying (new_session 3 100) asked 11 refl

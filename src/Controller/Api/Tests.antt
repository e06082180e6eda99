-- ===== src/Controller/Api/Tests.antt =====
-- An identifier with a slash, and a name with a space.
use strom.Prelude.{◌≡◌, Text, codes, [], ◌∷◌, arith}
use strom.Controller.Api.{
  fetch_node, fetch_ups_history, fetch_node_health, fetch_ups_detail, run_ups_command,
  update_ups_metadata, adopt_node, forget_node, update_node,
}
use strom.Controller.Api.Routes.{route, path_of, node_route, ups_route, request-route}

abbrev odd_id : Text
odd_id = codes "a/b%"

abbrev odd_name : Text
odd_name = codes "ups 1"

request-route_example :
    (route (fetch_node odd_id).path ≡ node_route odd_id [])
    × (route (forget_node odd_id).path ≡ node_route odd_id [])
    × (route (update_node odd_id []).path ≡ node_route odd_id [])
    × (route (fetch_node_health odd_id).path ≡ node_route odd_id (codes "health" ∷ []))
    × (route (adopt_node odd_id).path ≡ node_route odd_id (codes "adopt" ∷ []))
    × (route (fetch_ups_detail odd_id odd_name).path ≡ ups_route odd_id odd_name [])
    × (route (run_ups_command odd_id odd_name (codes "beeper.off")).path
        ≡ ups_route odd_id odd_name (codes "command" ∷ []))
    × (route (update_ups_metadata odd_id odd_name []).path
        ≡ ups_route odd_id odd_name (codes "metadata" ∷ []))
    × (route (path_of (fetch_ups_history odd_id odd_name (codes "ups.load") 24 100).path)
        ≡ ups_route odd_id odd_name (codes "history" ∷ []))
unfolding codes
request-route_example =
    request-route odd_id odd_name (codes "beeper.off") (codes "ups.load") 24 100 []
      (omega arith, (omega arith, (omega arith, (omega arith, tt))))
      (omega arith, (omega arith, (omega arith, (omega arith, (omega arith, tt)))))

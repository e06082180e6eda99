-- ===== src/Controller/Api/Routes.antt =====
-- The paths of the requests as a server reads them.
use strom.Prelude.{
  ◌⊎◌, ℕ, ◌+◌, ◌-◌, ◌*◌, ◌/◌, ◌%◌, ◌<◌, ◌≡◌, refl, ap, ◌∙◌, Text, codes, Bool, true, false, List,
  [], ◌∷◌, ◌++◌, append-nil, map, ltb, ◌==◌, All, All-append, arith, if◌then◌else◌,
}
use strom.Controller.Api.Uri.{
  utf8, utf8_all, hex_digit, is_unreserved, percent_byte, percent_bytes, encode_uri_component,
}
use strom.Controller.Api.{
  Field, node_path, ups_path, fetch_node, fetch_node_health, fetch_ups_detail, run_ups_command,
  update_ups_metadata, adopt_node, forget_node, update_node, fetch_ups_history,
}

abbrev in_front : ℕ → List Text → List Text
in_front c [] = (c ∷ []) ∷ []
in_front c (s ∷ segments) = (c ∷ s) ∷ segments

-- The parts of a path between its slashes.
unfoldable pub split_path : Text → List Text
split_path [] = [] ∷ []
split_path (c ∷ t) = let rest = split_path t in if c == b'/' then [] ∷ rest else in_front c rest

abbrev hex_value : ℕ → ℕ
hex_value c = if ltb c 58 then c - 48 else c - 55

-- The bytes that a part of a path stands for.
unfoldable pub percent_decode : Text → List ℕ
percent_decode [] = []
percent_decode (c ∷ []) = c ∷ []
percent_decode (c ∷ a ∷ []) = c ∷ a ∷ []
percent_decode (c ∷ a ∷ b ∷ t) =
    let skipped = percent_decode t in
    let next = percent_decode (a ∷ b ∷ t) in
    if c == b'%' then (16 * hex_value a + hex_value b) ∷ skipped else c ∷ next

-- The parts of a path, decoded.
unfoldable pub route : Text → List (List ℕ)
unfolding split_path percent_decode
route path = map percent_decode (split_path path)

decode-plain :
    (c : ℕ) (t : Text) → (c == b'%') ≡ false → percent_decode (c ∷ t) ≡ c ∷ percent_decode t
unfolding percent_decode
decode-plain c [] e = refl
decode-plain c (a ∷ []) e = refl
decode-plain c (a ∷ b ∷ t) e = rw e

hex_value-digit : (d : ℕ) → d < 16 → hex_value (hex_digit d) ≡ d
hex_value-digit d lt = ground arith

unreserved-plain : (b : ℕ) → is_unreserved b ≡ true → (b == b'%') ≡ false
unfolding is_unreserved
unreserved-plain b e = ground arith

decode-escaped :
    (b : ℕ) (t : Text)
    → b < 256
    → percent_decode (37 ∷ hex_digit (b / 16) ∷ hex_digit (b % 16) ∷ t) ≡ b ∷ percent_decode t
unfolding percent_decode
decode-escaped b t lt =
    rw (hex_value-digit (b / 16) (omega arith), hex_value-digit (b % 16) (omega arith))
      (ap (λ c. c ∷ percent_decode t) (omega arith))

decode-percent_byte :
    (b : ℕ) (t : Text) → b < 256 → percent_decode (percent_byte b ++ t) ≡ b ∷ percent_decode t
unfolding percent_byte
decode-percent_byte b t lt = go (is_unreserved b) refl
  where
    go :
        (u : Bool)
        → is_unreserved b ≡ u
        → percent_decode (percent_byte b ++ t) ≡ b ∷ percent_decode t
    go true e = rw e (decode-plain b t (unreserved-plain b e))
    go false e = rw e (decode-escaped b t lt)

decode-percent_bytes :
    (bytes : List ℕ) → All (λ b. b < 256) bytes → percent_decode (percent_bytes bytes) ≡ bytes
unfolding percent_bytes percent_decode
decode-percent_bytes [] h = refl
decode-percent_bytes (b ∷ bytes) (lt, h) =
    decode-percent_byte b (percent_bytes bytes) lt ∙ ap (b ∷◌) (decode-percent_bytes bytes h)

-- The code points of a text without a lone surrogate.
abbrev pub IsScalar : ℕ → Type 0
IsScalar c = (c < 1114112) × ((c < 55296) ⊎ (57343 < c))

abbrev pub IsText : Text → Type 0
IsText t = All IsScalar t

utf8-bytes : (c : ℕ) → c < 1114112 → All (λ b. b < 256) (utf8 c)
unfolding utf8
utf8-bytes c lt = ground arith

utf8_all-bytes : (t : Text) → IsText t → All (λ b. b < 256) (utf8_all t)
unfolding utf8_all
utf8_all-bytes [] h = tt
utf8_all-bytes (c ∷ t) (lt, h) =
    All-append (λ b. b < 256) (utf8 c) (utf8_all t) (utf8-bytes c lt.0) (utf8_all-bytes t h)

-- A character that ends neither a part of a path nor the path.
abbrev IsInner : ℕ → Type 0
IsInner c = ((c == b'/') ≡ false) × ((c == b'?') ≡ false)

abbrev IsPlain : Text → Type 0
IsPlain t = All IsInner t

percent_byte-IsPlain : (b : ℕ) → b < 256 → IsPlain (percent_byte b)
unfolding percent_byte is_unreserved
percent_byte-IsPlain b lt = ground arith

percent_bytes-IsPlain : (bytes : List ℕ) → All (λ b. b < 256) bytes → IsPlain (percent_bytes bytes)
unfolding percent_bytes
percent_bytes-IsPlain [] h = tt
percent_bytes-IsPlain (b ∷ bytes) (lt, h) =
    All-append IsInner (percent_byte b) (percent_bytes bytes) (percent_byte-IsPlain b lt)
      (percent_bytes-IsPlain bytes h)

split-segment : (s t : Text) → IsPlain s → split_path (s ++ b'/' ∷ t) ≡ s ∷ split_path t
unfolding split_path
split-segment [] t h = refl
split-segment (c ∷ s) t (e, h) = rw (e.0, split-segment s t h)

split-last : (s : Text) → IsPlain s → split_path s ≡ s ∷ []
unfolding split_path
split-last [] h = refl
split-last (c ∷ s) (e, h) = rw (e.0, split-last s h)

decode-encode : (t : Text) → IsText t → percent_decode (encode_uri_component t) ≡ utf8_all t
unfolding encode_uri_component
decode-encode t h = decode-percent_bytes (utf8_all t) (utf8_all-bytes t h)

encode-IsPlain : (t : Text) → IsText t → IsPlain (encode_uri_component t)
unfolding encode_uri_component
encode-IsPlain t h = percent_bytes-IsPlain (utf8_all t) (utf8_all-bytes t h)

-- A part of a path that is written by `encodeURIComponent`, before a slash and at the end.
route-part :
    (t rest : Text)
    → IsText t
    → route (encode_uri_component t ++ b'/' ∷ rest) ≡ utf8_all t ∷ route rest
unfolding route
route-part t rest h =
    rw (split-segment (encode_uri_component t) rest (encode-IsPlain t h), decode-encode t h)

route-end : (t : Text) → IsText t → route (encode_uri_component t ++ []) ≡ utf8_all t ∷ []
unfolding route
route-end t h = rw (
  append-nil (encode_uri_component t),
  split-last (encode_uri_component t) (encode-IsPlain t h),
  decode-encode t h,
)

abbrev pub node_route : Text → List (List ℕ) → List (List ℕ)
node_route id rest = [] ∷ codes "api" ∷ codes "nodes" ∷ utf8_all id ∷ rest

abbrev pub ups_route : Text → Text → List (List ℕ) → List (List ℕ)
ups_route id name rest = node_route id (codes "ups" ∷ utf8_all name ∷ rest)

route-start :
    (rest : Text)
    → route (codes "/api/nodes/" ++ rest) ≡ [] ∷ codes "api" ∷ codes "nodes" ∷ route rest
unfolding route split_path percent_decode codes
route-start rest = refl

route-ups : (rest : Text) → route (codes "ups/" ++ rest) ≡ codes "ups" ∷ route rest
unfolding route split_path percent_decode codes
route-ups rest = refl

route-word :
    (route (codes "health") ≡ codes "health" ∷ [])
    × (route (codes "adopt") ≡ codes "adopt" ∷ [])
    × (route (codes "command") ≡ codes "command" ∷ [])
    × (route (codes "metadata") ≡ codes "metadata" ∷ [])
    × (route (codes "history") ≡ codes "history" ∷ [])
unfolding route split_path percent_decode codes
route-word = (refl, refl, refl, refl, refl)

route-node_path : (id : Text) → IsText id → route (node_path id []) ≡ node_route id []
route-node_path id h =
    route-start (encode_uri_component id ++ [])
    ∙ ap (λ r. [] ∷ codes "api" ∷ codes "nodes" ∷ r) (route-end id h)

route-node_path-under :
    (id rest : Text) → IsText id → route (node_path id (b'/' ∷ rest)) ≡ node_route id (route rest)
route-node_path-under id rest h =
    route-start (encode_uri_component id ++ b'/' ∷ rest)
    ∙ ap (λ r. [] ∷ codes "api" ∷ codes "nodes" ∷ r) (route-part id rest h)

route-ups_path :
    (id name : Text) → IsText id → IsText name → route (ups_path id name []) ≡ ups_route id name []
unfolding codes
route-ups_path id name h k =
    route-node_path-under id (codes "ups/" ++ (encode_uri_component name ++ [])) h
    ∙ ap (node_route id)
        (route-ups (encode_uri_component name ++ []) ∙ ap (codes "ups" ∷◌) (route-end name k))

route-ups_path-under :
    (id name rest : Text)
    → IsText id
    → IsText name
    → route (ups_path id name (b'/' ∷ rest)) ≡ ups_route id name (route rest)
unfolding codes
route-ups_path-under id name rest h k =
    route-node_path-under id (codes "ups/" ++ (encode_uri_component name ++ b'/' ∷ rest)) h
    ∙ ap (node_route id) (
        route-ups (encode_uri_component name ++ b'/' ∷ rest)
        ∙ ap (codes "ups" ∷◌) (route-part name rest k))

-- An address up to its query.
unfoldable pub path_of : Text → Text
path_of [] = []
path_of (c ∷ t) = let rest = path_of t in if c == b'?' then [] else c ∷ rest

path_of-append : (s t : Text) → IsPlain s → path_of (s ++ t) ≡ s ++ path_of t
unfolding path_of
path_of-append [] t h = refl
path_of-append (c ∷ s) t (e, h) = rw (e.1, path_of-append s t h)

path_of-history :
    (id name query : Text)
    → IsText id
    → IsText name
    → path_of (ups_path id name (codes "/history?var=" ++ query))
      ≡ ups_path id name (codes "/history")
unfolding path_of codes
path_of-history id name query h k =
    ap (λ t. codes "/api/nodes/" ++ t)
      (path_of-append (encode_uri_component id) _ (encode-IsPlain id h)
        ∙ ap (λ t. encode_uri_component id ++ (codes "/ups/" ++ t))
            (path_of-append (encode_uri_component name) _ (encode-IsPlain name k)))

-- Whatever characters but lone surrogates the identifier of a node and the name of a UPS have, slashes
-- and percent signs included: split at its slashes and decoded, the path that each request about a
-- node or a UPS gives to `fetch`, that for the history up to its question mark, has the words of its
-- endpoint and, as one part each, the UTF-8 bytes of the identifier and of the name.
pub request-route :
    (id name command variable : Text) (hours limit : ℕ) (fields : List Field)
    → IsText id
    → IsText name
    → (route (fetch_node id).path ≡ node_route id [])
      × (route (forget_node id).path ≡ node_route id [])
      × (route (update_node id fields).path ≡ node_route id [])
      × (route (fetch_node_health id).path ≡ node_route id (codes "health" ∷ []))
      × (route (adopt_node id).path ≡ node_route id (codes "adopt" ∷ []))
      × (route (fetch_ups_detail id name).path ≡ ups_route id name [])
      × (route (run_ups_command id name command).path ≡ ups_route id name (codes "command" ∷ []))
      × (route (update_ups_metadata id name fields).path
          ≡ ups_route id name (codes "metadata" ∷ []))
      × (route (path_of (fetch_ups_history id name variable hours limit).path)
          ≡ ups_route id name (codes "history" ∷ []))
unfolding fetch_node forget_node update_node fetch_node_health adopt_node fetch_ups_detail
    run_ups_command update_ups_metadata fetch_ups_history codes
request-route id name command variable hours limit fields h k =
    let (health, adopt, run, metadata, history) = route-word in
    (
      route-node_path id h,
      route-node_path id h,
      route-node_path id h,
      route-node_path-under id (codes "health") h ∙ ap (node_route id) health,
      route-node_path-under id (codes "adopt") h ∙ ap (node_route id) adopt,
      route-ups_path id name h k,
      route-ups_path-under id name (codes "command") h k ∙ ap (ups_route id name) run,
      route-ups_path-under id name (codes "metadata") h k ∙ ap (ups_route id name) metadata,
      ap route (path_of-history id name _ h k)
          ∙ route-ups_path-under id name (codes "history") h k
          ∙ ap (ups_route id name) history,
    )

-- ===== src/Tests/Routing.antt =====
-- Virtual host routing, with two locations of one host and a wildcard host.
use frp.Prelude.{ℕ, ◌≡◌, refl, some, [], ◌∷◌, All}
use frp.Routing.{Bytes, Routers, new_routers, or_nil, add_router, get_router, get_vhost}
use frp.Routing.Sorted.{adding, perform, Reach, fresh, call, Answers, get_router-Answers}
use frp.Routing.Search.{first_under, candidates, wildcards, HasTwoLabels, get_vhost-first_under}

abbrev root : Bytes
root = b'/' ∷ []

abbrev deep : Bytes
deep = b'/' ∷ b'a' ∷ []

abbrev path : Bytes
path = b'/' ∷ b'a' ∷ b'b' ∷ []

abbrev table : Routers ℕ
table =
    perform (adding "*.frp.io" root "" 3) (
      perform (adding "www.frp.io" deep "" 2) (perform (adding "www.frp.io" root "" 1) new_routers))

table-Reach : Reach table
table-Reach =
    call (adding "*.frp.io" root "" 3)
      (call (adding "www.frp.io" deep "" 2) (call (adding "www.frp.io" root "" 1) fresh))

longest_wins :
    get_router "www.frp.io" path "" table
    ≡ some (record { domain = "www.frp.io"; location = deep; http_user = ""; payload = 2 })
unfolding get_router add_router
longest_wins = refl

wildcard_found :
    get_vhost ("api" ∷ "frp" ∷ "io" ∷ []) path "joe" table
    ≡ some (record { domain = "*.frp.io"; location = root; http_user = ""; payload = 3 })
unfolding get_vhost add_router
wildcard_found = refl

get_router-Answers_example :
    Answers path
      (or_nil (table.index_by_domain "www.frp.io" ""))
      (get_router "www.frp.io" path "" table)
get_router-Answers_example = get_router-Answers "www.frp.io" path "" table-Reach

get_vhost-first_under_example :
    (get_vhost ("api" ∷ "frp" ∷ "io" ∷ []) path "joe" table
      ≡ first_under path "joe" table (candidates ("api" ∷ "frp" ∷ "io" ∷ [])))
    × All HasTwoLabels (wildcards ("api" ∷ "frp" ∷ "io" ∷ []))
get_vhost-first_under_example = get_vhost-first_under path "joe" table ("api" ∷ "frp" ∷ "io" ∷ [])

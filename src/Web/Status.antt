-- ===== src/Web/Status.antt =====
-- The status page of frpc: web/frpc/src/utils/status.js and web/frpc/src/components/Overview.vue.
use frp.Prelude.{
  ap, List, [], ◌∷◌, ◌++◌, Option, none, some, String, ◌≡◌, sym, ◌∙◌, append-nil, append_assoc,
}
use frp.Web.Json.{Field, Reply, body, rejected}
use frp.Web.Tables.{Cell}

-- ProxyStatus, an entry of the reply to api/status; the class copies the keys of its argument.
pub record ProxyStatus : Type 0 where
  pub name : Field
  pub type : Field
  pub status : Field
  pub err : Field
  pub local_addr : Field
  pub plugin : Field
  pub remote_addr : Field

-- The reply to api/status; `none` is a list that is missing or null.
pub record StatusReply : Type 0 where
  pub tcp : Option (List ProxyStatus)
  pub udp : Option (List ProxyStatus)
  pub http : Option (List ProxyStatus)
  pub https : Option (List ProxyStatus)
  pub stcp : Option (List ProxyStatus)
  pub sudp : Option (List ProxyStatus)
  pub xtcp : Option (List ProxyStatus)

pub data Notice : Type 0 where
  warning : String → Notice

-- `for (let s of json.key) { this.status.push(s) }`
unfoldable pub push_all : List ProxyStatus → List ProxyStatus → List ProxyStatus
push_all rows [] = rows
push_all rows (s ∷ group) = push_all (rows ++ s ∷ []) group

-- The loops one after another: the first list that is missing throws, and `catch` shows the notice.
unfoldable pub push_groups :
    List (Option (List ProxyStatus)) → List ProxyStatus → List ProxyStatus × List Notice
unfolding push_all
push_groups [] rows = (rows, [])
push_groups (none ∷ groups) rows = (rows, warning "Get status info from frpc failed!" ∷ [])
push_groups (some group ∷ groups) rows = push_groups groups (push_all rows group)

abbrev pub groups_of : StatusReply → List (Option (List ProxyStatus))
groups_of json =
    json.tcp ∷ json.udp ∷ json.http ∷ json.https ∷ json.stcp ∷ json.sudp ∷ json.xtcp ∷ []

-- `fetchData`, from its reply on: the rows of the table and the notices shown.
unfoldable pub on_status : Reply StatusReply → List ProxyStatus → List ProxyStatus × List Notice
unfolding push_groups
on_status rejected status = (status, warning "Get status info from frpc failed!" ∷ [])
on_status (body json) status = push_groups (groups_of json) []

-- The template: the columns of a row.
unfoldable pub status_columns : ProxyStatus → List Cell
status_columns row =
    record { label = "name"; value = row.name }
    ∷ record { label = "type"; value = row.type }
    ∷ record { label = "local address"; value = row.local_addr }
    ∷ record { label = "plugin"; value = row.plugin }
    ∷ record { label = "remote address"; value = row.remote_addr }
    ∷ record { label = "status"; value = row.status }
    ∷ record { label = "info"; value = row.err }
    ∷ []

push_all-append : (rows group : List ProxyStatus) → push_all rows group ≡ rows ++ group
unfolding push_all
push_all-append rows [] = sym (append-nil rows)
push_all-append rows (s ∷ group) =
    push_all-append (rows ++ s ∷ []) group ∙ append_assoc rows (s ∷ []) group

-- The lists before the first one that is missing, joined, and whether one is missing.
abbrev pub present : List (Option (List ProxyStatus)) → List ProxyStatus
present [] = []
present (none ∷ groups) = []
present (some group ∷ groups) = group ++ present groups

abbrev pub notices : List (Option (List ProxyStatus)) → List Notice
notices [] = []
notices (none ∷ groups) = warning "Get status info from frpc failed!" ∷ []
notices (some group ∷ groups) = notices groups

push_groups-present :
    (groups : List (Option (List ProxyStatus))) (rows : List ProxyStatus)
    → push_groups groups rows ≡ (rows ++ present groups, notices groups)
unfolding push_groups
push_groups-present [] rows = λ i. (sym (append-nil rows) i, [])
push_groups-present (none ∷ groups) rows = λ i. (sym (append-nil rows) i, notices (none ∷ groups))
push_groups-present (some group ∷ groups) rows =
    push_groups-present groups (push_all rows group)
    ∙ ap (λ shown. (shown, notices groups))
        (ap (λ l. l ++ present groups) (push_all-append rows group)
          ∙ append_assoc rows group (present groups))

-- The page shows the proxies of all types up to the first list that is missing, in the order tcp, udp,
-- http, https, stcp, sudp, xtcp, whatever it showed before; it warns exactly if a list is missing.
pub on_status-present :
    (json : StatusReply) (before : List ProxyStatus)
    → on_status (body json) before ≡ (present (groups_of json), notices (groups_of json))
unfolding on_status
on_status-present json before = push_groups-present (groups_of json) []

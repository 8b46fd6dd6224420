-- ===== src/Web/Tables.antt =====
-- The templates of ProxiesTcp.vue, ProxiesUdp.vue, ProxiesHttp.vue, ProxiesHttps.vue, ProxiesStcp.vue and
-- ProxiesSudp.vue in web/frps/src/components: what they show of a row. `file_size` is Humanize.fileSize,
-- a third-party function. Styles and the sorting of columns are left out.
pub mod Closed
use frp.Prelude.{String, str_eq, Bool, true, false, if◌then◌else◌, List, [], ◌∷◌}
use frp.Web.Json.{Field, text, undefined, null, bool, num, texts}
use frp.Web.Proxy.{BaseProxy, PortProxy, HttpProxy, HttpsProxy, PlainProxy}

pub record Cell : Type 0 where
  pub label : String
  pub value : Field

pub data Tag : Type 0 where
  success danger : Tag

-- `scope.row.status === 'online'`
abbrev pub status_tag : Field → Tag
status_tag (text s) = if str_eq s "online" then success else danger
status_tag _ = danger

-- A row: the name passed to its chart, the items of its expanded form, its columns, and the tag of its
-- status.
pub record RowView : Type 0 where
  pub proxy_name : Field
  pub details : List Cell
  pub columns : List Cell
  pub tag : Tag

module _ (file_size : Field → String) where
  -- The columns from the connections on, which all six tables have.
  unfoldable pub last_columns : BaseProxy → List Cell
  last_columns row =
      record { label = "Connections"; value = row.conns }
      ∷ record { label = "Traffic In"; value = text (file_size row.traffic_in) }
      ∷ record { label = "Traffic Out"; value = text (file_size row.traffic_out) }
      ∷ record { label = "status"; value = row.status }
      ∷ []

  -- The items of the form from the encryption on.
  unfoldable pub last_details : BaseProxy → List Cell
  last_details row =
      record { label = "Encryption"; value = row.encryption }
      ∷ record { label = "Compression"; value = row.compression }
      ∷ record { label = "Last Start"; value = row.last_start_time }
      ∷ record { label = "Last Close"; value = row.last_close_time }
      ∷ []

  unfoldable pub tcp_view : PortProxy → RowView
  unfolding last_columns last_details
  tcp_view row = record {
    proxy_name = row.base.name;
    details =
        record { label = "Name"; value = row.base.name }
        ∷ record { label = "Type"; value = text row.kind }
        ∷ record { label = "Addr"; value = row.addr }
        ∷ last_details row.base;
    columns =
        record { label = "Name"; value = row.base.name }
        ∷ record { label = "Port"; value = row.port }
        ∷ last_columns row.base;
    tag = status_tag row.base.status;
  }

  unfoldable pub udp_view : PortProxy → RowView
  unfolding last_columns last_details
  udp_view row = record {
    proxy_name = row.base.name;
    details =
        record { label = "Name"; value = row.base.name }
        ∷ record { label = "Type"; value = text row.kind }
        ∷ record { label = "Addr"; value = row.addr }
        ∷ last_details row.base;
    columns =
        record { label = "Name"; value = row.base.name }
        ∷ record { label = "Port"; value = row.port }
        ∷ last_columns row.base;
    tag = status_tag row.base.status;
  }

  unfoldable pub http_view : HttpProxy → RowView
  unfolding last_columns last_details
  http_view row = record {
    proxy_name = row.base.name;
    details =
        record { label = "Name"; value = row.base.name }
        ∷ record { label = "Type"; value = text row.kind }
        ∷ record { label = "Domains"; value = row.custom_domains }
        ∷ record { label = "SubDomain"; value = row.subdomain }
        ∷ record { label = "locations"; value = row.locations }
        ∷ record { label = "HostRewrite"; value = row.host_header_rewrite }
        ∷ last_details row.base;
    columns =
        record { label = "Name"; value = row.base.name }
        ∷ record { label = "Port"; value = row.port }
        ∷ last_columns row.base;
    tag = status_tag row.base.status;
  }

  unfoldable pub https_view : HttpsProxy → RowView
  unfolding last_columns last_details
  https_view row = record {
    proxy_name = row.base.name;
    details =
        record { label = "Name"; value = row.base.name }
        ∷ record { label = "Type"; value = text row.kind }
        ∷ record { label = "Domains"; value = row.custom_domains }
        ∷ record { label = "SubDomain"; value = row.subdomain }
        ∷ last_details row.base;
    columns =
        record { label = "Name"; value = row.base.name }
        ∷ record { label = "Port"; value = row.port }
        ∷ last_columns row.base;
    tag = status_tag row.base.status;
  }

  unfoldable pub stcp_view : PlainProxy → RowView
  unfolding last_columns last_details
  stcp_view row = record {
    proxy_name = row.base.name;
    details =
        record { label = "Name"; value = row.base.name }
        ∷ record { label = "Type"; value = text row.kind }
        ∷ last_details row.base;
    columns = record { label = "Name"; value = row.base.name } ∷ last_columns row.base;
    tag = status_tag row.base.status;
  }

  unfoldable pub sudp_view : PlainProxy → RowView
  unfolding last_columns last_details
  sudp_view row = record {
    proxy_name = row.base.name;
    details =
        record { label = "Name"; value = row.base.name }
        ∷ record { label = "Type"; value = text row.kind }
        ∷ last_details row.base;
    columns = record { label = "Name"; value = row.base.name } ∷ last_columns row.base;
    tag = status_tag row.base.status;
  }

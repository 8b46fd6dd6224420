-- ===== src/Tests/Forms.antt =====
-- The pages of frpc's admin UI.
use frp.Prelude.{[], ◌∷◌, none, some, ◌≡◌, refl, map, String, str_eq_iff, arith, true}
use frp.Web.Json.{text, body}
use frp.Web.Status.{ProxyStatus, StatusReply, warning, status_columns, on_status, on_status-present}
use frp.Web.Configure.{request, message, get, put, success, response, failure, upload_config}
use frp.Web.Configure.Laws.{
  requests, messages, successes, requests-upload_config, messages-upload_config,
  success_despite_errors,
}

abbrev status_of : String → ProxyStatus
status_of name = record {
  name = text name;
  type = text "tcp";
  status = text "running";
  err = text "";
  local_addr = text "127.0.0.1:22";
  plugin = text "";
  remote_addr = text "0.0.0.0:6000";
}

abbrev reply : StatusReply
reply = record {
  tcp = some (status_of "ssh" ∷ []);
  udp = some [];
  http = some (status_of "web" ∷ []);
  https = none;
  stcp = some (status_of "lost" ∷ []);
  sudp = some [];
  xtcp = some [];
}

on_status-present_example :
    on_status (body reply) []
    ≡ (status_of "ssh" ∷ status_of "web" ∷ [], warning "Get status info from frpc failed!" ∷ [])
on_status-present_example = on_status-present reply []

requests-upload_config_example :
    requests (upload_config "[common]" true (response 200 "") (failure "gone"))
    ≡ request put "/api/config" "[common]" ∷ request get "/api/reload" "" ∷ []
requests-upload_config_example =
    requests-upload_config "[common]" true (response 200 "") (failure "gone")

messages-upload_config_example :
    (messages (upload_config "[common]" true (response 200 "") (failure "gone")) ≡ 1)
    × (successes (upload_config "[common]" true (response 200 "") (failure "gone")) ≡ 0)
messages-upload_config_example =
    messages-upload_config "[common]" true (response 200 "") (failure "gone")

success_despite_errors_example :
    upload_config "x" true (response 400 "body can't be empty") (response 500 "")
    ≡ request put "/api/config" "x" ∷ request get "/api/reload" "" ∷ message success "Success" ∷ []
success_despite_errors_example =
    success_despite_errors "x" "body can't be empty" "" 400 500 (ground (arith, str_eq_iff "x" ""))

status_row :
    map (λ c. c.value) (status_columns (status_of "ssh"))
    ≡ text "ssh"
      ∷ text "tcp"
      ∷ text "127.0.0.1:22"
      ∷ text ""
      ∷ text "0.0.0.0:6000"
      ∷ text "running"
      ∷ text ""
      ∷ []
unfolding status_columns
status_row = refl

-- ===== src/Web/Configure/Laws.antt =====
-- What an upload sends and what it tells the user.
use frp.Prelude.{
  if◌then◌else◌, suc, ℕ, String, str_eq, List, [], ◌∷◌, Bool, true, false, not, ◌&&◌, ◌≡◌, ◌≢◌,
  arith, str_eq_iff,
}
use frp.Web.Configure.{
  Fetched, response, failure, Effect, request, message, get, put, success, info, warning,
  upload_config,
}

abbrev pub arrived : Fetched → Bool
arrived (response status text) = true
arrived (failure err) = false

-- The requests among the effects.
abbrev pub requests : List Effect → List Effect
requests [] = []
requests (request m url sent ∷ es) = request m url sent ∷ requests es
requests (message k text ∷ es) = requests es

abbrev pub successes : List Effect → ℕ
successes [] = 0
successes (request m url sent ∷ es) = successes es
successes (message success text ∷ es) = suc (successes es)
successes (message info text ∷ es) = successes es
successes (message warning text ∷ es) = successes es

abbrev pub messages : List Effect → ℕ
messages [] = 0
messages (request m url sent ∷ es) = messages es
messages (message k text ∷ es) = suc (messages es)

-- The requests of an upload: none unless it is confirmed and the text is not empty; then the text is
-- put, and the reload is asked for exactly if the put got a response, whatever its HTTP status.
pub requests-upload_config :
    (textarea : String) (confirmed : Bool) (put_end reload_end : Fetched)
    → requests (upload_config textarea confirmed put_end reload_end) ≡ (
        if confirmed && not (str_eq textarea "")
        then request put "/api/config" textarea
          ∷ (if arrived put_end then request get "/api/reload" "" ∷ [] else [])
        else [])
unfolding upload_config
requests-upload_config textarea confirmed put_end reload_end = ground arith

-- An upload ends with exactly one message. It is the message of success exactly if the upload was
-- confirmed, the text is not empty and both requests got a response.
pub messages-upload_config :
    (textarea : String) (confirmed : Bool) (put_end reload_end : Fetched)
    → (messages (upload_config textarea confirmed put_end reload_end) ≡ 1)
      × (successes (upload_config textarea confirmed put_end reload_end) ≡ (
          if confirmed && not (str_eq textarea "") && arrived put_end && arrived reload_end
          then 1
          else 0))
unfolding upload_config
messages-upload_config textarea confirmed put_end reload_end = ground arith

-- Two responses that report an error of the server are shown as a success, whatever their HTTP
-- statuses and their texts.
pub success_despite_errors :
    (textarea why_put why_reload : String) (put_status reload_status : ℕ)
    → textarea ≢ ""
    → upload_config textarea true (response put_status why_put) (response reload_status why_reload)
      ≡ request put "/api/config" textarea
        ∷ request get "/api/reload" ""
        ∷ message success "Success"
        ∷ []
unfolding upload_config
success_despite_errors textarea why_put why_reload put_status reload_status h =
    ground (arith, str_eq_iff textarea "")

-- ===== src/Web/Configure.antt =====
-- web/frpc/src/components/Configure.vue: the page that edits the configuration of frpc.
pub mod Laws
use frp.Prelude.{ℕ, String, ◌⋅◌, str_eq, List, [], ◌∷◌, ◌++◌, Bool, true, false, if◌then◌else◌}

-- How a `fetch` ends: any HTTP status fulfils it, with the text of the body; only a failure to connect
-- rejects it.
pub data Fetched : Type 0 where
  response : ℕ → String → Fetched
  failure : String → Fetched

pub data Kind : Type 0 where
  info success warning : Kind

pub data Method : Type 0 where
  get put : Method

-- What the page does to the world, in order.
pub data Effect : Type 0 where
  request : Method → String → String → Effect
  message : Kind → String → Effect

-- `fetchData`, from its reply on: the new text of the editor and the messages.
unfoldable pub on_config : Fetched → String → String × List Effect
on_config (response status text) textarea = (text, [])
on_config (failure err) textarea =
    (textarea, message warning "Get configure content from frpc failed!" ∷ [])

-- The handlers of the request api/reload.
unfoldable pub on_reload : Fetched → List Effect
on_reload (response status text) = message success "Success" ∷ []
on_reload (failure err) = message warning ("Reload frpc configure file error, " ⋅ err) ∷ []

-- The handlers of the request that puts the configuration.
unfoldable pub on_put : Fetched → Fetched → List Effect
unfolding on_reload
on_put (response status text) reload = request get "/api/reload" "" ∷ on_reload reload
on_put (failure err) reload = message warning "Put config to frpc and hot reload failed!" ∷ []

-- `uploadConfig`: the user's answer, and how the two requests end if they are made.
unfoldable pub upload_config : String → Bool → Fetched → Fetched → List Effect
unfolding on_put
upload_config textarea false put_end reload_end = message info "Canceled" ∷ []
upload_config textarea true put_end reload_end =
    if str_eq textarea ""
    then message warning "Configure content can not be empty!" ∷ []
    else request put "/api/config" textarea ∷ on_put put_end reload_end

-- ===== src/Logins.antt =====
-- Logins of frpc at frps: ControlManager of server/control.go, and handleConnection, RegisterControl and
-- RegisterWorkConn of server/service.go. A control is a number, and its part here is a session. The
-- random run id, none if the system has no randomness, is an argument. RegisterControl is in two steps,
-- since it waits for the control that it replaces to end. What happens to proxies in between is in
-- Control, and the length of its pool of connections, at which NewControl may panic, in WorkConns.
pub mod Listed
pub mod Accepted
use frp.Prelude.{
  ℕ, ◌+◌, String, str_eq, Bool, true, false, not, ◌==◌, if◌then◌else◌, Option, none, some, List,
  Outcome, ok, err, ◌>>=◌, update, update_name,
}
use frp.Auth.{TokenAuth, Signed, AuthError, verify_login, verify_new_work_conn}
use frp.Plugins
use frp.Plugins.{PluginError, on_login, on_new_work_conn}
use frp.Version.{compat}

-- Login, as far as frps reads it before the control is made.
pub record Login : Type 0 where
  pub run_id : String
  pub version : List ℕ
  pub signed : Signed

-- NewWorkConn
pub record NewWorkConn : Type 0 where
  pub run_id : String
  pub signed : Signed

-- Control, as far as the manager of controls goes: the run id of its login, whether Replaced was called,
-- whether Start was, whether it has ended, and whether Del was called after that.
pub record Session : Type 0 where
  pub run_id : String
  pub replaced : Bool
  pub started : Bool
  pub ended : Bool
  pub deleted : Bool

-- ControlManager, with the controls by number.
pub record Service : Type 0 where
  pub ctls_by_run_id : String → Option ℕ
  pub sessions : ℕ → Session
  pub next : ℕ

abbrev pub new_session : String → Session
new_session run_id = record {
  run_id = run_id;
  replaced = false;
  started = false;
  ended = false;
  deleted = false;
}

abbrev pub new_service : Service
new_service = record { ctls_by_run_id = λ run_id. none; sessions = λ id. new_session ""; next = 0 }

pub data LoginError : Type 0 where
  plugin_failed : PluginError → LoginError
  no_rand_id version_too_old : LoginError
  auth_failed : AuthError → LoginError

pub data WorkConnError : Type 0 where
  no_client_control : WorkConnError
  plugin_refused : PluginError → WorkConnError
  invalid_work_conn : AuthError → WorkConnError

-- Control.Replaced, for the control that Add finds, if there is one.
abbrev pub replace_old : Option ℕ → (ℕ → Session) → ℕ → Session
replace_old none sessions = sessions
replace_old (some old) sessions = update sessions old (record (sessions old) { replaced = true })

-- ControlManager.Add: the control that was there, and the new state.
unfoldable pub add_ctl : String → ℕ → Service → Option ℕ × Service
add_ctl run_id id s =
    let old = s.ctls_by_run_id run_id in
    (
      old,
      record s {
        sessions = replace_old old s.sessions;
        ctls_by_run_id = update_name s.ctls_by_run_id run_id (some id);
      },
    )

-- ControlManager.Del
unfoldable pub del_ctl : String → ℕ → Service → Service
del_ctl run_id id s = elim (s.ctls_by_run_id run_id) [
  | none ↦ s
  | some c ↦
      if c == id then record s { ctls_by_run_id = update_name s.ctls_by_run_id run_id none } else s
]

-- ControlManager.GetByID
abbrev pub get_by_id : String → Service → Option ℕ
get_by_id run_id s = s.ctls_by_run_id run_id

-- NewControl
unfoldable pub new_ctl : String → Service → ℕ × Service
new_ctl run_id s = (
  s.next,
  record s { sessions = update s.sessions s.next (new_session run_id); next = s.next + 1 },
)

-- The run id of a login, made up if it has none.
abbrev pub run_id_of : Option String → String → Outcome LoginError String
run_id_of rand run_id =
    if not (str_eq run_id "")
    then ok run_id
    else elim rand [ none ↦ err no_rand_id | some r ↦ ok r ]

abbrev pub check_auth : Option AuthError → Outcome LoginError (Unit {0})
check_auth none = ok tt
check_auth (some e) = err (auth_failed e)

abbrev pub check_version : Bool → Outcome LoginError (Unit {0})
check_version compatible = if compatible then ok tt else err version_too_old

-- The new control of a login that passed.
abbrev pub admit : Outcome LoginError String → Service → Outcome LoginError (ℕ × Option ℕ) × Service
admit (err e) s = (err e, s)
admit (ok run_id) s =
    let (id, made) = new_ctl run_id s in
    let (old, added) = add_ctl run_id id made in (ok (id, old), added)

module _ (digest : String → String) (auth : TokenAuth) where
  -- The tests of RegisterControl, which answer with the run id.
  unfoldable pub check_login : Option String → Login → Outcome LoginError String
  check_login rand m = do
    run_id ← run_id_of rand m.run_id
    done ← check_version (compat m.version)
    also ← check_auth (verify_login digest auth m.signed)
    ok run_id

  -- RegisterControl up to its wait: the new control, and the one whose end it waits for.
  unfoldable pub register_control :
      Option String → Login → Service → Outcome LoginError (ℕ × Option ℕ) × Service
  unfolding check_login new_ctl add_ctl
  register_control rand m s = admit (check_login rand m) s

  abbrev pub register_after :
      Option String
      → Outcome PluginError Login
      → Service
      → Outcome LoginError (ℕ × Option ℕ) × Service
  register_after rand (err e) s = (err (plugin_failed e), s)
  register_after rand (ok m) s = admit (check_login rand m) s

  -- handleConnection on a Login.
  unfoldable pub handle_login :
      Plugins.Manager Login
      → Option String
      → Login
      → Service
      → Outcome LoginError (ℕ × Option ℕ) × Service
  unfolding check_login new_ctl add_ctl
  handle_login plugins rand m s = register_after rand (on_login plugins m) s

  abbrev pub check_work_conn : ℕ → Outcome PluginError NewWorkConn → Outcome WorkConnError ℕ
  check_work_conn id (err e) = err (plugin_refused e)
  check_work_conn id (ok m) = elim (verify_new_work_conn digest auth m.signed) [
    | some e ↦ err (invalid_work_conn e)
    | none ↦ ok id
  ]

  -- RegisterWorkConn up to the pool of the control that it answers with.
  unfoldable pub find_work_conn :
      Plugins.Manager NewWorkConn → NewWorkConn → Service → Outcome WorkConnError ℕ
  find_work_conn plugins m s = elim (get_by_id m.run_id s) [
    | none ↦ err no_client_control
    | some id ↦ check_work_conn id (on_new_work_conn plugins m)
  ]

-- The end of RegisterControl, once the control that it waits for has ended.
unfoldable pub start_control : ℕ → Service → Service
start_control id s = record s {
  sessions = update s.sessions id (record (s.sessions id) { started = true });
}

-- The end of stoper, which WaitClosed waits for.
unfoldable pub end_control : ℕ → Service → Service
end_control id s = record s {
  sessions = update s.sessions id (record (s.sessions id) { ended = true });
}

-- The goroutine of RegisterControl after WaitClosed.
unfoldable pub delete_ended : ℕ → Service → Service
unfolding del_ctl
delete_ended id s =
    let left = del_ctl (s.sessions id).run_id id s in
    record left {
      sessions = update left.sessions id (record (left.sessions id) { deleted = true });
    }

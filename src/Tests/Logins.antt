-- ===== src/Tests/Logins.antt =====
-- Logins with tokens and versions. The digest is the identity.
use frp.Prelude.{◌++◌, ◌≡◌, refl, String, pos, true, false, some, [], err}
use frp.Auth.{TokenAuth, Signed, set_login}
use frp.Plugins.{
  new_work_conn, ping, login, new_proxy, new_user_conn, Plugin, rejected, new_manager, register,
  on_login, on_new_proxy, on_ping, on_new_work_conn, on_new_user_conn, on_close_proxy,
}
use frp.Plugins.Chain.{then_asks, register-asked}
use frp.Version.Order.{Numbers, print_version}
use frp.Logins.{Login, Service, new_service, no_client_control, handle_login, find_work_conn}
use frp.Logins.Listed.{Reach, start, logging_in, IsListed, Reach-IsListed}

abbrev digest : String → String
digest text = text

abbrev auth : TokenAuth
auth = record {
  authenticate_heart_beats = false;
  authenticate_new_work_conns = true;
  token = "secret";
}

abbrev message : Signed
message = record { privilege_key = ""; timestamp = pos 5 }

abbrev current : Numbers
current = record { first = 0; second = 43; third = 0 }

abbrev login_message : String → Login
login_message run_id = record {
  run_id = run_id;
  version = print_version current;
  signed = set_login digest auth message;
}

abbrev first : Service
first = (handle_login digest auth new_manager (some "r1") (login_message "") new_service).1

first-Reach : Reach digest auth first
first-Reach = logging_in new_manager (some "r1") (login_message "") new_service start

Reach-IsListed_example : IsListed first
Reach-IsListed_example = Reach-IsListed digest auth first-Reach

-- A plugin of one kind of message that refuses what it is told of as another.
abbrev strict : Plugin String
strict = record {
  name = "strict";
  is_support = λ op. elim op [ new_work_conn ↦ true | _ ↦ false ];
  handle = λ op content. elim op [
    | new_work_conn ↦
        some (record { reject = false; reject_reason = ""; unchange = true; ret_content = content })
    | _ ↦ some (record {
      reject = true;
      reject_reason = "unknown operation";
      unchange = true;
      ret_content = content;
    })
  ];
}

refused_as_ping :
    on_new_work_conn (register strict new_manager) "conn" ≡ err (rejected "unknown operation")
unfolding on_new_work_conn register
refused_as_ping = refl

register-asked_example :
    (on_login {A = String} (register strict new_manager) "c"
      ≡ then_asks login login strict false (on_login {A = String} new_manager "c"))
    × (on_new_proxy {A = String} (register strict new_manager) "c"
        ≡ then_asks new_proxy new_proxy strict false (on_new_proxy {A = String} new_manager "c"))
    × (on_ping {A = String} (register strict new_manager) "c"
        ≡ then_asks ping ping strict false (on_ping {A = String} new_manager "c"))
    × (on_new_work_conn {A = String} (register strict new_manager) "c"
        ≡ then_asks new_work_conn ping strict true (on_new_work_conn {A = String} new_manager "c"))
    × (on_new_user_conn {A = String} (register strict new_manager) "c"
        ≡ then_asks new_user_conn new_user_conn strict false
            (on_new_user_conn {A = String} new_manager "c"))
    × (on_close_proxy {A = String} (register strict new_manager) "c"
        ≡ on_close_proxy {A = String} new_manager "c" ++ [])
register-asked_example = register-asked strict new_manager "c"

lost :
    find_work_conn digest auth new_manager (record { run_id = "r2"; signed = message }) new_service
    ≡ err no_client_control
unfolding find_work_conn
lost = refl

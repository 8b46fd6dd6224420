-- ===== src/Logins/Listed.antt =====
-- Which control stands under a run id.
use frp.Prelude.{
  ℕ, ◌<◌, ◌≡◌, refl, String, str_eq_iff, true, false, ==_iff, Option, some, Option-cases, inl, inr,
  Outcome, ok, err, update, arith,
}
use frp.Auth.{TokenAuth}
use frp.Plugins
use frp.Plugins.{PluginError, on_login}
use frp.Logins.{
  Login, Session, Service, new_service, LoginError, replace_old, add_ctl, new_ctl, check_login,
  admit, register_after, handle_login, start_control, end_control, delete_ended,
}

-- The states after any logins and ends of controls.
pub data Reach (digest : String → String) (auth : TokenAuth) : Service → Type 0 where
  start : Reach digest auth new_service
  logging_in :
      (plugins : Plugins.Manager Login) (rand : Option String) (m : Login) (s : Service)
      → Reach digest auth s
      → Reach digest auth (handle_login digest auth plugins rand m s).1
  starting : (id : ℕ) (s : Service) → Reach digest auth s → Reach digest auth (start_control id s)
  ending : (id : ℕ) (s : Service) → Reach digest auth s → Reach digest auth (end_control id s)
  deleting :
      (id : ℕ) (s : Service)
      → (s.sessions id).ended ≡ true
      → Reach digest auth s
      → Reach digest auth (delete_ended id s)

pub record IsListed (s : Service) : Type 0 where
  pub entry_run_id :
      (r : String) (id : ℕ) → s.ctls_by_run_id r ≡ some id → (s.sessions id).run_id ≡ r
  pub entry_made : (r : String) (id : ℕ) → s.ctls_by_run_id r ≡ some id → id < s.next
  pub entry_current :
      (r : String) (id : ℕ) → s.ctls_by_run_id r ≡ some id → (s.sessions id).replaced ≡ false
  pub entry_kept :
      (r : String) (id : ℕ) → s.ctls_by_run_id r ≡ some id → (s.sessions id).deleted ≡ false
  pub listed :
      (id : ℕ)
      → id < s.next
      → (s.sessions id).replaced ≡ false
      → (s.sessions id).deleted ≡ false
      → s.ctls_by_run_id (s.sessions id).run_id ≡ some id

admit-IsListed : (o : Outcome LoginError String) (s : Service) → IsListed s → IsListed (admit o s).1
unfolding new_ctl add_ctl
admit-IsListed (err e) s h = h
admit-IsListed (ok run_id) s h = elim (Option-cases (s.ctls_by_run_id run_id)) [
  | inl missing ↦
      rw (missing, replace_old)
        (record {
          entry_run_id =
              λ r id. ground (arith, h.entry_run_id r id, h.entry_made r id, str_eq_iff run_id r);
          entry_made = λ r id. ground (arith, h.entry_made r id);
          entry_current =
              λ r id. ground (arith, h.entry_current r id, h.entry_made r id, str_eq_iff run_id r);
          entry_kept =
              λ r id. ground (arith, h.entry_kept r id, h.entry_made r id, str_eq_iff run_id r);
          listed = λ id. ground (
            arith,
            h.listed id,
            str_eq_iff run_id run_id,
            str_eq_iff run_id (s.sessions id).run_id,
            ==_iff s.next id,
          );
        })
  | inr (old, found) ↦
      let made = h.entry_made run_id old found in
      let its = h.entry_run_id run_id old found in
      rw (found, replace_old)
        (record {
          entry_run_id = λ r id.
              ground
                (arith, h.entry_run_id r id, h.entry_made r id, str_eq_iff run_id r, ==_iff old id);
          entry_made = λ r id. ground (arith, h.entry_made r id);
          entry_current = λ r id. ground (
            arith,
            h.entry_current r id,
            h.entry_made r id,
            h.entry_run_id r id,
            str_eq_iff run_id r,
            ==_iff old id,
          );
          entry_kept = λ r id.
              ground
                (arith, h.entry_kept r id, h.entry_made r id, str_eq_iff run_id r, ==_iff old id);
          listed = λ id. ground (
            arith,
            h.listed id,
            str_eq_iff run_id run_id,
            str_eq_iff run_id (s.sessions id).run_id,
            ==_iff s.next id,
            ==_iff old id,
          );
        })
]

register_after-IsListed :
    (digest : String → String) (auth : TokenAuth) (rand : Option String)
    (o : Outcome PluginError Login) (s : Service)
    → IsListed s
    → IsListed (register_after digest auth rand o s).1
register_after-IsListed digest auth rand (err e) s h = h
register_after-IsListed digest auth rand (ok m) s h =
    admit-IsListed (check_login digest auth rand m) s h

-- A session changes in what the table does not read.
mark-IsListed :
    (id : ℕ) (mark : Session) (s : Service)
    → mark.run_id ≡ (s.sessions id).run_id
    → mark.replaced ≡ (s.sessions id).replaced
    → mark.deleted ≡ (s.sessions id).deleted
    → IsListed s
    → IsListed (record s { sessions = update s.sessions id mark })
mark-IsListed id mark s run_id replaced deleted h = record {
  entry_run_id = λ r j. ground (arith, h.entry_run_id r j, ==_iff id j);
  entry_made = h.entry_made;
  entry_current = λ r j. ground (arith, h.entry_current r j, ==_iff id j);
  entry_kept = λ r j. ground (arith, h.entry_kept r j, ==_iff id j);
  listed = λ j. ground (arith, h.listed j, ==_iff id j);
}

delete_ended-IsListed : (id : ℕ) (s : Service) → IsListed s → IsListed (delete_ended id s)
unfolding delete_ended
delete_ended-IsListed id s h =
    let own = (s.sessions id).run_id in
    record {
      entry_run_id = λ r j. ground (arith, h.entry_run_id r j, ==_iff id j, str_eq_iff own r);
      entry_made = λ r j. ground (arith, h.entry_made r j, ==_iff id j, str_eq_iff own r);
      entry_current = λ r j. ground (arith, h.entry_current r j, ==_iff id j, str_eq_iff own r);
      entry_kept = λ r j.
          ground (arith, h.entry_kept r j, h.entry_run_id r j, ==_iff id j, str_eq_iff own r);
      listed = λ j. ground (arith, h.listed j, ==_iff id j, str_eq_iff own (s.sessions j).run_id);
    }

-- However logins and the ends, late or early, of controls follow one another: the control under a run id
-- has that run id and was neither replaced nor deleted, and every control that was neither replaced nor
-- deleted stands under its run id. So there is one such control to a run id, and the end of a control
-- that was replaced does not remove the one that replaced it.
pub Reach-IsListed :
    (digest : String → String) (auth : TokenAuth) {s : Service} → Reach digest auth s → IsListed s
unfolding handle_login start_control end_control
Reach-IsListed digest auth start = record {
  entry_run_id = λ r id found. cc;
  entry_made = λ r id found. cc;
  entry_current = λ r id found. cc;
  entry_kept = λ r id found. cc;
  listed = λ id made. absurd (omega arith);
}
Reach-IsListed digest auth (logging_in plugins rand m s r) =
    register_after-IsListed digest auth rand (on_login plugins m) s (Reach-IsListed digest auth r)
Reach-IsListed digest auth (starting id s r) =
    mark-IsListed id (record (s.sessions id) { started = true }) s refl refl refl
      (Reach-IsListed digest auth r)
Reach-IsListed digest auth (ending id s r) =
    mark-IsListed id (record (s.sessions id) { ended = true }) s refl refl refl
      (Reach-IsListed digest auth r)
Reach-IsListed digest auth (deleting id s ended r) =
    delete_ended-IsListed id s (Reach-IsListed digest auth r)

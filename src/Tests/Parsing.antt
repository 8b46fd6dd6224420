-- ===== src/Tests/Parsing.antt =====
-- Lists of ports, and tokens.
use frp.Prelude.{
  ◌≡◌, refl, String, true, false, not, none, some, List, [], ◌∷◌, pos, show_ℤ, str_eq,
  if◌then◌else◌, arith,
}
use frp.Ranges.{numbers, invalid, endless, parse_range_numbers}
use frp.Ranges.Print.{Item, single, range, print_item, parse_range_numbers-endless}
use frp.Auth.{
  TokenAuth, Signed, login_token_mismatch, heartbeat_token_mismatch, new_work_conn_token_mismatch,
  set_login, set_ping, set_new_work_conn, verify_login, verify_ping, verify_new_work_conn,
}
use frp.Auth.Agree.{verify-set}

abbrev items : List Item
items = range 10 12 ∷ single 65535 ∷ []

-- " 3-5,8"
spaces :
    parse_range_numbers 9 (b' ' ∷ b'3' ∷ b'-' ∷ b'5' ∷ b',' ∷ b'8' ∷ [])
    ≡ numbers
        (9223372036854775811 ∷ 9223372036854775812 ∷ 9223372036854775813 ∷ 9223372036854775816 ∷ [])
unfolding parse_range_numbers
spaces = refl

-- "3-a"
letters : parse_range_numbers 9 (b'3' ∷ b'-' ∷ b'a' ∷ []) ≡ invalid []
unfolding parse_range_numbers
letters = refl

parse_range_numbers-endless_example :
    parse_range_numbers 1000 (print_item (range 9223372036854775806 9223372036854775807)) ≡ endless
parse_range_numbers-endless_example =
    parse_range_numbers-endless 1000 9223372036854775806 9223372036854775807 (omega arith)
      (omega arith)

abbrev frpc : TokenAuth
frpc = record {
  authenticate_heart_beats = true;
  authenticate_new_work_conns = false;
  token = "secret";
}

abbrev frps : TokenAuth
frps = record frpc { token = "other" }

abbrev message : Signed
message = record { privilege_key = ""; timestamp = pos 1600000000 }

-- The text itself as its digest.
abbrev plain : String → String
plain s = s

verify-set_example :
    (verify_login plain frps (set_login plain frpc message)
      ≡ (if str_eq frpc.token frps.token then none else some login_token_mismatch))
    × (verify_ping plain frps (set_ping plain (pos 1600000007) frpc message) ≡ (
        if not frps.authenticate_heart_beats
        then none
        else if str_eq frpc.token frps.token
        then none
        else some heartbeat_token_mismatch))
    × (verify_new_work_conn plain frps (set_new_work_conn plain (pos 1600000007) frpc message) ≡ (
        if not frps.authenticate_new_work_conns
        then none
        else if str_eq frpc.token frps.token
        then none
        else some new_work_conn_token_mismatch))
verify-set_example =
    verify-set plain frpc frps (pos 1600000007) message message message refl refl (λ e. e) (λ e. e)

-- A token and a timestamp are signed as one text, so another token signs another time alike.
shared_key :
    verify_login plain
      (record frps { token = "secret1" })
      (record (set_login plain frpc message) { timestamp = pos 600000000 })
    ≡ none
unfolding verify_login set_login show_ℤ
shared_key = refl

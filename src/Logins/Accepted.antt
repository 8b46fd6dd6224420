-- ===== src/Logins/Accepted.antt =====
-- Which logins frps accepts, from the version and the token of frpc.
use frp.Prelude.{◌>>=◌}
use frp.Version.Order.{Numbers}

abbrev pub oldest_numbers : Numbers
oldest_numbers = record { first = 0; second = 18; third = 0 }

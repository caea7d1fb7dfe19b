-- ===== src/Net.antt =====
-- `std::net::IpAddr` and `SocketAddr`.
use rust_ws_server.Base.{ℕ, ℕ_discrete}

-- An address as the number that its bits spell.
pub data IpAddr : Type 0 where
  v4 : ℕ → IpAddr
  v6 : ℕ → IpAddr

unfoldable pub IpAddr-discrete : Discrete IpAddr
unfolding ℕ_discrete
IpAddr-discrete = hlevel ℕ_discrete

pub record SocketAddr : Type 0 where
  pub ip : IpAddr
  pub port : ℕ

-- ===== src/Tests/NetworkGuard.antt =====
-- The guard at 172.20.0.1.
use bevoac_dev.Prelude.{◌≡◌, refl, true, arith}
use bevoac_dev.Api.Hosts.{is_private_ipv4}
use bevoac_dev.Worker.NetworkGuard.{is_blocked_ipv4}
use bevoac_dev.Worker.NetworkGuard.Ranges.{dotted, is_blocked_ipv4-private}

is_blocked_ipv4-private_example : is_blocked_ipv4 (dotted 172 20 0 1) ≡ true
unfolding is_private_ipv4
is_blocked_ipv4-private_example =
    is_blocked_ipv4-private 172 20 0 1 (omega arith) (omega arith) (omega arith) (omega arith) refl

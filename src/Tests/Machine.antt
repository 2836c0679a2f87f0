-- ===== src/Tests/Machine.antt =====
-- The listener and the counters of the machine, at concrete inputs.
use osprey.Prelude.{
  ℕ, ◌*◌, ◌/◌, ◌==◌, ◌≡◌, ◌≢◌, refl, Bool, arith, true, false, some, List, [], ◌∷◌, ok, min,
}
use osprey.Prelude.Int.{pos}
use osprey.Metrics.{Sample}
use osprey.Metrics.Collect.{Floats, Drives, Collector, Readings, InterfaceRow, sample}
use osprey.Metrics.Collect.Laws.{Grounded, sample-Grounded}
use osprey.Host.Lan.{
  IpAddr, v4, v6, BindResult, bound, bind, AcceptResult, accepted, would_block, accept_timeout,
  is_private,
}
use osprey.Host.Lan.Laws.{
  IsPrivate, AllPrivate, BindsAsTold, bind-AllPrivate, accept_timeout-IsPrivate,
}
use osprey.Tests.Fixtures.{State}

abbrev home : IpAddr
home = v4 192 168 1 20

abbrev public : IpAddr
public = v4 8 8 8 8

-- The first sweep meets a peer with a public address.
abbrev sweeps : List (List (AcceptResult State) × ℕ)
sweeps =
    (accepted tt public true ∷ would_block ∷ [], 10)
    ∷ (accepted tt (v6 0 0 0 0 0 65535 49320 276) true ∷ [], 35)
    ∷ []

let_in : accept_timeout 250 sweeps ≡ some (ok (some (tt, v6 0 0 0 0 0 65535 49320 276)))
unfolding accept_timeout is_private
let_in = refl

accept_timeout-IsPrivate_example : IsPrivate (v6 0 0 0 0 0 65535 49320 276)
accept_timeout-IsPrivate_example =
    accept_timeout-IsPrivate 250 sweeps tt (v6 0 0 0 0 0 65535 49320 276) let_in

abbrev bind_address : IpAddr → ℕ → BindResult
bind_address ip port = bound ip 47010 true

binds_as_told : BindsAsTold bind_address
binds_as_told ip actual port actual_port ready h = ground (arith, h)

abbrev text_le : IpAddr → IpAddr → Bool
text_le a b = true

abbrev listening : List (IpAddr × ℕ)
listening = (home, 47010) ∷ []

bound_home : bind bind_address text_le (some (public ∷ home ∷ [])) 47010 ≡ ok listening
unfolding bind
bound_home = refl

bind-AllPrivate_example : AllPrivate listening × (listening ≢ [])
bind-AllPrivate_example =
    bind-AllPrivate bind_address binds_as_told text_le (public ∷ home ∷ []) 47010 listening
      bound_home

-- Whole numbers in place of the floating point ones.
abbrev floats : Floats
floats = record {
  of_u64 = λ n. n;
  seconds = λ n. n / 1000000000;
  divide = λ a b. a / b;
  multiply = λ a b. a * b;
  clamp = λ x low high. min x high;
  round = λ x. x;
  to_u64 = λ x. x;
  not_positive = λ x. x == 0;
}

abbrev drives : Drives
drives = record { is_fixed = λ bit. true; space = λ bit. some (1000, 400); label = λ bit. "C:" }

abbrev row : InterfaceRow
row = record {
  loopback = false;
  up = true;
  flags = 0;
  index = 9;
  in_octets = 5000;
  out_octets = 700;
}

abbrev readings : Readings
readings = record {
  cpu = some (record { idle = (0, 50); kernel = (0, 60); user = (0, 40) });
  memory = some (16000, 6000);
  net = some (row ∷ record row { loopback = true } ∷ [], 2000000000);
  ts_ms = pos 5;
  drive_mask = 4;
}

abbrev collector : Collector
collector = record {
  previous_cpu = some (record { idle = 0; kernel = 0; user = 0 });
  previous_net = some (record { rx_bytes = 1000; tx_bytes = 500; at = 0; interfaces = 9 ∷ [] });
}

abbrev next : Collector
next = record {
  previous_cpu = some (record { idle = 50; kernel = 60; user = 40 });
  previous_net =
      some (record { rx_bytes = 5000; tx_bytes = 700; at = 2000000000; interfaces = 9 ∷ [] });
}

abbrev taken : Sample
taken = record {
  ts_ms = pos 5;
  cpu_percent = 0;
  mem_used_bytes = 10000;
  mem_total_bytes = 16000;
  disks = (record { label = "C:"; used_bytes = 600; total_bytes = 1000 }) ∷ [];
  net_rx_bytes_per_sec = some 2000;
  net_tx_bytes_per_sec = some 100;
}

sampled : sample floats drives readings collector ≡ (next, ok taken)
unfolding sample
sampled = refl

sample-Grounded_example : Grounded floats drives readings collector next taken
sample-Grounded_example = sample-Grounded floats drives readings collector next taken sampled

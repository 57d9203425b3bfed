-- ===== src/Server/Backoff/Shares.antt =====
-- internal/server/middleware.go: how many responses ask for a backoff.
use riposo.Prelude.{ℕ, zero, suc, ◌+◌, ◌*◌, ◌%◌, Bool, true, false, ◌&&◌, leb, if◌then◌else◌}
use riposo.Server.Backoff.{Settings, show_backoff}

-- How many of the next responses ask for a backoff, by the counter.
pub shown : Settings → ℕ → ℕ → ℕ
shown w zero counter = 0
shown w (suc n) counter =
    let (here, counter') = show_backoff w counter in
    let rest = shown w n counter' in if here then suc rest else rest

-- Whether a response is among those, by its number.
is_shown : ℕ → ℕ → Bool
is_shown pct i = leb 100 (pct * (i % 100) % 100 + pct)

abbrev one : Bool → ℕ
one true = 1
one false = 0

total : ℕ → ℕ → ℕ → ℕ
total pct zero i = 0
total pct (suc n) i = one (is_shown pct (suc i)) + total pct n (suc i)

below : ℕ → (ℕ → Bool) → Bool
below zero test = true
below (suc n) test = test n && below n test

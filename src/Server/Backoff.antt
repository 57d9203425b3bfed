-- ===== src/Server/Backoff.antt =====
-- internal/server/middleware.go: the headers Backoff and Retry-After.
pub mod Shares
use riposo.Prelude.{
  ℕ, ◌+◌, ◌*◌, ◌%◌, ◌^◌, Bool, true, false, not, ◌&&◌, List, [], ◌∷◌, ltb, leb, if◌then◌else◌,
  is_empty, Text, bytes, Dict, insert,
}

-- The values of the headers, empty where they are not to be sent, and the percentage of responses that
-- ask for a backoff.
pub record Settings : Type 0 where
  pub backoff_val : Text
  pub backoff_pct : ℕ
  pub retry_after_val : Text

-- The durations in whole seconds, as numbers that are not negative, and the percentage as a uint32.
unfoldable pub backoff : (ℕ → Text) → ℕ → ℕ → ℕ → Settings
backoff format_int seconds pct retry_after = record {
  backoff_val = if leb 1 seconds then format_int seconds else [];
  backoff_pct = if leb 1 seconds then pct % 2 ^ 32 else 0;
  retry_after_val = if leb 1 retry_after then format_int retry_after else [];
}

-- The result, and the counter that all responses share.
unfoldable pub show_backoff : Settings → ℕ → Bool × ℕ
show_backoff w counter =
    if ltb 0 w.backoff_pct && ltb w.backoff_pct 100
    then (let counter' = (counter + 1) % 2 ^ 32 in
        let inc = counter' % 100 in
        (leb 100 ((w.backoff_pct * inc % 2 ^ 32 % 100 + w.backoff_pct) % 2 ^ 32), counter'))
    else (not (is_empty w.backoff_val), counter)

unfoldable pub show_retry_after : Settings → Bool
show_retry_after w = not (is_empty w.retry_after_val)

-- The first `WriteHeader` of a response, on its headers and the counter.
unfoldable pub write_header : Settings → ℕ → Dict Text × ℕ → Dict Text × ℕ
write_header w code (h, counter) =
    if leb 200 code && ltb code 400
    then (let (shown, counter') = show_backoff w counter in
        ((if shown then insert (bytes "Backoff") w.backoff_val h else h), counter'))
    else if leb 500 code
    then (
      (if show_retry_after w then insert (bytes "Retry-After") w.retry_after_val h else h),
      counter,
    )
    else (h, counter)

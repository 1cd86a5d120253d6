-- ===== src/Main/Latency.antt =====
-- src/main.rs: `percentile` and `udp_rtt_client`. What the socket gives for each request is an argument:
-- the time that passed, and the datagram; the sends are taken to succeed. Numbers of the type `usize` have 64 bits.
use meshlet.Common.{
  ℕ, zero, suc, ◌+◌, ◌-◌, ◌*◌, ◌/◌, Bool, true, false, not, Option, none, some, List, [], ◌∷◌, ltb,
  leb, eqb, if◌then◌else◌, Bytes, length, get_elem?, take, ◌==◌, nat_eq, list_eq, pair_eq, Duration,
  to_be_bytes,
}
use meshlet.Common.Outcome.{
  Outcome, done, ◌>>=◌, ◌>>◌, panic, expect, require, zero_samples, no_samples, percentile_range,
  index_range, sample_count, no_echo, echo_size, echo_mismatch,
}
use meshlet.Text.Decimal.{max_u64}

abbrev pub rtt_warmup_samples : ℕ
rtt_warmup_samples = 100

abbrev pub at_most : ℕ → ℕ → ℕ
at_most max n = if leb n max then n else max

abbrev pub is_empty {ℓ} : {A : Type ℓ} → List A → Bool
is_empty [] = true
is_empty (x ∷ xs) = false

-- `usize::saturating_mul` and `div_ceil`
abbrev pub nearest_rank : ℕ → ℕ → ℕ
nearest_rank len percent = (at_most max_u64 (len * percent) + 99) / 100

-- `sorted[i]`
abbrev pub index {ℓ} : {A : Type ℓ} → List A → ℕ → Outcome A
index xs i = expect (get_elem? xs i) index_range

unfoldable pub percentile : List Duration → ℕ → Outcome Duration
percentile sorted percent = do
  require (not (is_empty sorted)) no_samples
  require (leb percent 100) percentile_range
  index sorted (nearest_rank (length sorted) percent - 1)

-- `sort_unstable`: equal durations cannot be told apart.
unfoldable pub insert_sorted : Duration → List Duration → List Duration
insert_sorted x [] = x ∷ []
insert_sorted x (y ∷ ys) = let rest = insert_sorted x ys in if leb x y then x ∷ y ∷ ys else y ∷ rest

unfoldable pub sort : List Duration → List Duration
unfolding insert_sorted
sort [] = []
sort (x ∷ xs) = insert_sorted x (sort xs)

-- One answer: the elapsed time, and the datagram before it is cut to the buffer of 8 bytes.
abbrev pub Answer : Type 0
Answer = Duration × Bytes

-- The loop, for as many requests as are left and from a sequence number on: the latencies that it
-- keeps. A missing answer is the panic on the timeout.
unfoldable pub measure : ℕ → ℕ → List Answer → Outcome (List Duration)
measure zero sequence answers = done []
measure (suc left) sequence [] = panic no_echo
measure (suc left) sequence ((elapsed, datagram) ∷ answers) = do
  let request = to_be_bytes 8 sequence
  let response = take 8 datagram
  require (eqb (length response) (length request)) echo_size
  require (response == request) echo_mismatch
  latencies ← measure left (suc sequence) answers
  done (if leb rtt_warmup_samples sequence then elapsed ∷ latencies else latencies)

pub record Summary : Type 0 where
  pub min : Duration
  pub p50 : Duration
  pub p99 : Duration
  pub max : Duration

-- The four lines that are printed.
unfoldable pub summarize : List Duration → Outcome Summary
unfolding percentile
summarize latencies = do
  min ← index latencies 0
  p50 ← percentile latencies 50
  p99 ← percentile latencies 99
  max ← index latencies (length latencies - 1)
  done (record { min = min; p50 = p50; p99 = p99; max = max })

-- `RTT_WARMUP_SAMPLES.checked_add(samples)`
abbrev pub total_samples : ℕ → Option ℕ
total_samples samples =
    if leb (rtt_warmup_samples + samples) max_u64 then some (rtt_warmup_samples + samples) else none

unfoldable pub udp_rtt_client : ℕ → List Answer → Outcome Summary
unfolding measure sort summarize
udp_rtt_client samples answers = do
  require (ltb 0 samples) zero_samples
  total ← expect (total_samples samples) sample_count
  latencies ← measure total 0 answers
  summarize (sort latencies)

-- ===== src/Main/RoundTrips.antt =====
-- src/main.rs: what `udp_rtt_client` reports when its peer is `udp_bench_server`.
use meshlet.Common.{
  ℕ, zero, suc, ◌+◌, ◌-◌, ◌*◌, ◌/◌, ◌≤◌, ◌<◌, ◌≡◌, refl, sym, ap, ◌∙◌, inl, inr, true, List, [],
  ◌∷◌, arith, leb, if◌then◌else◌, lt→ltb, Bool-cases, Bytes, length, drop, eq_refl, nat_eq, list_eq,
  pair_eq, Duration, to_be_bytes, length-to_be_bytes,
}
use meshlet.Common.Outcome.{done}
use meshlet.Main.Sorting.{length-sort, IsPlaced-sort}
use meshlet.Main.Sockets.{udp_bench_server, bench_echo}
use meshlet.Net.Socket.{SocketAddr}
use meshlet.Text.Sizes.{take_whole}
use meshlet.Main.Latency.{
  rtt_warmup_samples, nearest_rank, sort, Answer, measure, Summary, summarize, udp_rtt_client,
}
use meshlet.Text.Decimal.{max_u64}
use meshlet.Main.Ranks.{IsPlaced, index-done, percentile-index, rank_inside, rank_exact}

-- Every request comes back.
abbrev echoes : ℕ → List Duration → List Answer
echoes sequence [] = []
echoes sequence (elapsed ∷ es) = (elapsed, to_be_bytes 8 sequence) ∷ echoes (suc sequence) es

drop_nil : (n : ℕ) → ◌≡◌ {A = List Duration} (drop n []) []
drop_nil zero = refl
drop_nil (suc n) = refl

drop-suc :
    (sequence : ℕ) (e : Duration) (es : List Duration)
    → drop (rtt_warmup_samples - sequence) (e ∷ es) ≡ (
        if leb rtt_warmup_samples sequence
        then e ∷ drop (rtt_warmup_samples - suc sequence) es
        else drop (rtt_warmup_samples - suc sequence) es)
drop-suc sequence e es = elim (Bool-cases (leb rtt_warmup_samples sequence)) [
  | inl warm ↦
      let here : rtt_warmup_samples - sequence ≡ 0 = ground (arith, warm) in
      let next : rtt_warmup_samples - suc sequence ≡ 0 = ground (arith, warm) in
      rw (warm, here, next) refl
  | inr cold ↦
      let here : rtt_warmup_samples - sequence ≡ suc (rtt_warmup_samples - suc sequence) =
        ground (arith, cold) in
      rw (cold, here) refl
]

measure-echoes :
    (left sequence : ℕ) (es : List Duration)
    → length es ≡ left
    → measure left sequence (echoes sequence es) ≡ done (drop (rtt_warmup_samples - sequence) es)
unfolding measure
measure-echoes zero sequence [] h = ap done (sym (drop_nil (rtt_warmup_samples - sequence)))
measure-echoes zero sequence (e ∷ es) h = absurd (omega arith)
measure-echoes (suc left) sequence [] h = absurd (omega arith)
measure-echoes (suc left) sequence (e ∷ es) h =
    rw
      (
        take_whole 8 (to_be_bytes 8 sequence) (omega (arith, length-to_be_bytes 8 sequence)),
        eq_refl (length (to_be_bytes 8 sequence)),
        eq_refl (to_be_bytes 8 sequence),
        measure-echoes left (suc sequence) es (omega arith),
        drop-suc sequence e es,
      )
      refl

-- What is reported of latencies, of which there are some.
summarize-sort :
    (xs : List Duration)
    → 0 < length xs
    → length xs * 100 ≤ max_u64
    → (r : Summary) × (summarize (sort xs) ≡ done r)
      × IsPlaced 0 r.min xs
      × IsPlaced ((length xs * 50 + 99) / 100 - 1) r.p50 xs
      × IsPlaced ((length xs * 99 + 99) / 100 - 1) r.p99 xs
      × IsPlaced (length xs - 1) r.max xs
unfolding summarize
summarize-sort xs h fits =
    let n = length (sort xs) in
    let size = length-sort xs in
    let (a, ea, fa) = index-done (sort xs) 0 (omega arith) in
    let (b, eb, fb) =
      index-done (sort xs) (nearest_rank n 50 - 1) (rank_inside n 50 (omega arith) (omega arith)) in
    let (c, ec, fc) =
      index-done (sort xs) (nearest_rank n 99 - 1) (rank_inside n 99 (omega arith) (omega arith)) in
    let (d, ed, fd) = index-done (sort xs) (n - 1) (omega arith) in
    let p50 = percentile-index (sort xs) 50 (omega arith) (omega arith) ∙ eb in
    let p99 = percentile-index (sort xs) 99 (omega arith) (omega arith) ∙ ec in
    let exact50 = rank_exact n 50 (omega arith) (omega arith) in
    let exact99 = rank_exact n 99 (omega arith) (omega arith) in
    (
      record { min = a; p50 = b; p99 = c; max = d },
      rw (ea, p50, p99, ed) refl,
      IsPlaced-sort xs 0 a fa,
      omega (arith, IsPlaced-sort xs (nearest_rank n 50 - 1) b fb, exact50, size),
      omega (arith, IsPlaced-sort xs (nearest_rank n 99 - 1) c fc, exact99, size),
      omega (arith, IsPlaced-sort xs (n - 1) d fd, size),
    )

length-drop : (n : ℕ) (xs : List Duration) → length (drop n xs) ≡ length xs - n
length-drop zero xs = omega arith
length-drop (suc n) [] = omega arith
length-drop (suc n) (x ∷ xs) = omega (arith, length-drop n xs)

udp_rtt_client-echoes :
    (samples : ℕ) (es : List Duration)
    → 0 < samples
    → samples * 100 ≤ max_u64
    → length es ≡ 100 + samples
    → udp_rtt_client samples (echoes 0 es) ≡ summarize (sort (drop 100 es))
unfolding udp_rtt_client
udp_rtt_client-echoes samples es some_samples fits all =
    let room : leb (rtt_warmup_samples + samples) max_u64 ≡ true = ground arith in
    rw (lt→ltb 0 samples some_samples, room, measure-echoes (rtt_warmup_samples + samples) 0 es all)
      refl

-- The requests of a client from a sequence number on.
abbrev pub requests : SocketAddr → ℕ → ℕ → List (Bytes × SocketAddr)
requests client sequence zero = []
requests client sequence (suc left) =
    (to_be_bytes 8 sequence, client) ∷ requests client (suc sequence) left

-- The replies, each with the time that it took.
abbrev pub answers : List Duration → List (Bytes × SocketAddr) → List Answer
answers (elapsed ∷ es) ((reply, _) ∷ replies) = (elapsed, reply) ∷ answers es replies
answers _ _ = []

answers-echoes :
    (client : SocketAddr) (es : List Duration) (sequence left : ℕ)
    → length es ≡ left
    → answers es (udp_bench_server (requests client sequence left)) ≡ echoes sequence es
unfolding udp_bench_server bench_echo
answers-echoes client [] sequence zero h = refl
answers-echoes client [] sequence (suc left) h = absurd (omega arith)
answers-echoes client (e ∷ es) sequence zero h = absurd (omega arith)
answers-echoes client (e ∷ es) sequence (suc left) h =
    rw
      (
        take_whole 2048 (to_be_bytes 8 sequence) (omega (arith, length-to_be_bytes 8 sequence)),
        answers-echoes client es (suc sequence) left (omega arith),
      )
      refl

-- Against `udp_bench_server`, and with not so many samples that a product with 100 passes 64
-- bits, the client reports on the latencies behind the 100 of the warm-up, in whatever order they
-- came: the least and the greatest, the median and the 99th percentile, each of the last two by the
-- nearest rank, which is the share of the samples rounded up. What it reports is the sample at that
-- place of the sorted samples: so many are at most as large, and no more are smaller.
pub udp_rtt_client_reports :
    (client : SocketAddr) (samples : ℕ) (es : List Duration)
    → 0 < samples
    → samples * 100 ≤ max_u64
    → length es ≡ 100 + samples
    → (r : Summary) × (udp_rtt_client samples
          (answers es (udp_bench_server (requests client 0 (100 + samples))))
        ≡ done r)
      × IsPlaced 0 r.min (drop 100 es)
      × IsPlaced ((samples * 50 + 99) / 100 - 1) r.p50 (drop 100 es)
      × IsPlaced ((samples * 99 + 99) / 100 - 1) r.p99 (drop 100 es)
      × IsPlaced (samples - 1) r.max (drop 100 es)
udp_rtt_client_reports client samples es some_samples fits all =
    let size : length (drop 100 es) ≡ samples = omega (arith, length-drop 100 es) in
    let (r, run, least, median, most, greatest) =
      summarize-sort (drop 100 es) (omega arith) (omega arith) in
    (
      r,
      ap (udp_rtt_client samples) (answers-echoes client es 0 (100 + samples) all)
          ∙ udp_rtt_client-echoes samples es some_samples fits all
          ∙ run,
      least,
      omega (arith, median, size),
      omega (arith, most, size),
      omega (arith, greatest, size),
    )

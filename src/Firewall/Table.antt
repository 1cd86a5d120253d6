-- ===== src/Firewall/Table.antt =====
-- src/firewall.rs: the table of allowed replies and its operations.
use meshlet.Common.{
  ℕ, Bool, true, false, not, none, some, [], ltb, eqb, length, nat_eq, list_eq, pair_eq, Instant,
  Duration, checked_add,
}
use meshlet.Common.HashMap.{HashMap, get, insert, retain}
use meshlet.Common.Outcome.{
  Outcome, done, ◌>>=◌, expect, assert, zero_flow_timeout, flow_expiration,
}
use meshlet.Firewall.Flow.{FlowKey, reverse, flow_eq}

pub record Firewall : Type 0 where
  pub flow_timeout : Duration
  pub allowed_replies : HashMap FlowKey Instant

unfoldable pub new : Duration → Outcome Firewall
new timeout =
    assert (not (eqb timeout 0)) zero_flow_timeout
      (record { flow_timeout = timeout; allowed_replies = [] })

unfoldable pub remove_expired : Firewall → Instant → Firewall
remove_expired fw now = record fw {
  allowed_replies = retain (λ expires_at. ltb now expires_at) fw.allowed_replies;
}

unfoldable pub observe_outbound : Firewall → FlowKey → Instant → Outcome Firewall
observe_outbound fw flow now = do
  let fw' = remove_expired fw now
  expires_at ← expect (checked_add now fw'.flow_timeout) flow_expiration
  done (record fw' { allowed_replies = insert (reverse flow) expires_at fw'.allowed_replies })

abbrev pub contains_key : FlowKey → HashMap FlowKey Instant → Bool
contains_key k m = elim (get k m) [ none ↦ false | some _ ↦ true ]

unfoldable pub allow_inbound : Firewall → FlowKey → Instant → Bool × Firewall
allow_inbound fw flow now =
    let fw' = remove_expired fw now in (contains_key flow fw'.allowed_replies, fw')

unfoldable pub tracked_reply_flows : Firewall → ℕ
tracked_reply_flows fw = length fw.allowed_replies

-- ===== src/Firewall/Replies.antt =====
-- src/firewall.rs: which inbound flows the table lets in after a history of traffic. The histories
-- are those that a caller such as `firewall_demo` makes; the newest event stands first.
use meshlet.Common.{
  ◌+◌, ◌≤◌, ◌≡◌, refl, ap, ◌∙◌, Bool, false, Option, none, some, List, [], ◌∷◌, arith, Instant,
  Duration, ltb, if◌then◌else◌, ◌==◌, ◌<◌, instant_limit,
}
use meshlet.Common.HashMap.{
  insert, IsMap, keep, get, get-insert, get-retain, insert-IsMap, retain-IsMap,
}
use meshlet.Common.Outcome.{>>=-eq-done, Outcome, done, ◌>>=◌}
use meshlet.Firewall.Flow.{FlowKey, flow_eq, flow_beq_iff, reverse, reverse-reverse}
use meshlet.Firewall.Table.{Firewall, new, remove_expired, observe_outbound, allow_inbound}

pub data Event : Type 0 where
  outbound : FlowKey → Instant → Event
  inbound : FlowKey → Instant → Event

abbrev pub time : Event → Instant
time (outbound _ t) = t
time (inbound _ t) = t

unfoldable pub step : Firewall → Event → Outcome Firewall
step fw (outbound flow now) = observe_outbound fw flow now
step fw (inbound flow now) = done (allow_inbound fw flow now).1

unfoldable pub after : Duration → List Event → Outcome Firewall
unfolding step
after timeout [] = new timeout
after timeout (e ∷ h) = do fw ← after timeout h; step fw e

-- The time of the newest event.
abbrev pub clock : List Event → Instant
clock [] = 0
clock (e ∷ h) = time e

-- `Instant` is monotonic: no event is older than the one before it.
abbrev pub IsOrdered : List Event → Type 0
IsOrdered [] = Unit
IsOrdered (e ∷ h) = (clock h ≤ time e) × IsOrdered h

-- When the reverse of `flow` last went out.
unfoldable pub last_outbound : FlowKey → List Event → Option Instant
last_outbound flow [] = none
last_outbound flow (outbound f t ∷ h) = if f == reverse flow then some t else last_outbound flow h
last_outbound flow (inbound f t ∷ h) = last_outbound flow h

-- The specification: the reverse flow went out less than the timeout ago.
unfoldable pub is_recent : Duration → FlowKey → List Event → Instant → Bool
is_recent timeout flow h now = elim (last_outbound flow h) [
  | none ↦ false
  | some t ↦ ltb now (t + timeout)
]

reverse_beq : (f g : FlowKey) → (reverse f == g) ≡ (f == reverse g)
reverse_beq f g = ground (
  arith,
  flow_beq_iff (reverse f) g,
  flow_beq_iff f (reverse g),
  reverse-reverse f,
  reverse-reverse g,
  ap reverse,
)

-- What a table entry says at time `now`.
abbrev live : Instant → Option Instant → Bool
live now none = false
live now (some expires_at) = ltb now expires_at

live-keep :
    (t now : Instant) (o : Option Instant) → t ≤ now → live now (keep (ltb t) o) ≡ live now o
live-keep t now none h = refl
live-keep t now (some x) h = ground arith

-- The table and the history agree at every time from now on.
record Agrees (timeout : Duration) (h : List Event) (fw : Firewall) : Type 0 where
  distinct : IsMap fw.allowed_replies
  same_timeout : fw.flow_timeout ≡ timeout
  verdicts :
      (k : FlowKey) (now : Instant)
      → clock h ≤ now
      → live now (get k fw.allowed_replies) ≡ is_recent timeout k h now

new-Agrees : (timeout : Duration) {fw : Firewall} → new timeout ≡ done fw → Agrees timeout [] fw
unfolding new is_recent last_outbound get
new-Agrees timeout e = record {
  distinct = ground arith;
  same_timeout = ground arith;
  verdicts = λ k now h. ground arith;
}

module _ {timeout : Duration} {h : List Event} {fw : Firewall} (a : Agrees timeout h fw) where
  pruned_verdicts :
      (k : FlowKey) (t now : Instant)
      → clock h ≤ t
      → t ≤ now
      → live now (get k (remove_expired fw t).allowed_replies) ≡ is_recent timeout k h now
  unfolding remove_expired
  pruned_verdicts k t now p q =
      rw (get-retain k (ltb t) fw.allowed_replies a.distinct)
        (live-keep t now (get k fw.allowed_replies) q ∙ a.verdicts k now (omega arith))

  pruned-IsMap : (t : Instant) → IsMap (remove_expired fw t).allowed_replies
  unfolding remove_expired
  pruned-IsMap t = retain-IsMap (ltb t) fw.allowed_replies a.distinct

  pruned_timeout : (t : Instant) → (remove_expired fw t).flow_timeout ≡ timeout
  unfolding remove_expired
  pruned_timeout t = a.same_timeout

  step-Agrees :
      (e : Event) {fw' : Firewall}
      → clock h ≤ time e
      → step fw e ≡ done fw'
      → Agrees timeout (e ∷ h) fw'
  unfolding step observe_outbound allow_inbound
  step-Agrees (outbound f t) {fw'} p e = record {
    distinct = ground (
      arith,
      pruned-IsMap t,
      insert-IsMap (reverse f) (t + (remove_expired fw t).flow_timeout)
          (remove_expired fw t).allowed_replies (pruned-IsMap t),
    );
    same_timeout = ground (arith, pruned_timeout t);
    verdicts = λ k now q.
        unfold is_recent last_outbound in
        ground (
          arith,
          reverse_beq f k,
          pruned_timeout t,
          pruned_verdicts k t now p q,
          get-insert k (reverse f) (t + timeout) (remove_expired fw t).allowed_replies,
        );
  }
  step-Agrees (inbound f t) {fw'} p e = record {
    distinct = ground (arith, pruned-IsMap t);
    same_timeout = ground (arith, pruned_timeout t);
    verdicts =
        λ k now q. unfold is_recent last_outbound in ground (arith, pruned_verdicts k t now p q);
  }

after-Agrees :
    (timeout : Duration) (h : List Event) {fw : Firewall}
    → IsOrdered h
    → after timeout h ≡ done fw
    → Agrees timeout h fw
unfolding after
after-Agrees timeout [] o e = new-Agrees timeout e
after-Agrees timeout (x ∷ h) o e =
    let (fw', before, last) = >>=-eq-done (after timeout h) (λ fw. step fw x) e in
    step-Agrees (after-Agrees timeout h o.1 before) x o.0 last

-- After any history of traffic in the order of time that does not panic, an inbound flow is let in
-- exactly when its reverse went out less than the timeout ago, counted from the last time.
pub allow_inbound-eq-is_recent :
    (timeout : Duration) (h : List Event) (k : FlowKey) (now : Instant) {fw : Firewall}
    → IsOrdered h
    → clock h ≤ now
    → after timeout h ≡ done fw
    → (allow_inbound fw k now).0 ≡ is_recent timeout k h now
unfolding allow_inbound remove_expired
allow_inbound-eq-is_recent timeout h k now {fw} o p e =
    let a = after-Agrees timeout h o e in
    ground (arith, a.verdicts k now p, get-retain k (ltb now) fw.allowed_replies a.distinct)

-- Every event of the history leaves room for the timeout before the clock's limit.
abbrev pub HasRoom : Duration → List Event → Type 0
HasRoom timeout [] = Unit
HasRoom timeout (e ∷ h) = (time e + timeout < instant_limit) × HasRoom timeout h

step_total :
    (timeout : Duration) (fw : Firewall) (e : Event)
    → fw.flow_timeout ≡ timeout
    → time e + timeout < instant_limit
    → (fw' : Firewall) × (step fw e ≡ done fw') × (fw'.flow_timeout ≡ timeout)
unfolding step observe_outbound allow_inbound remove_expired
step_total timeout fw (outbound f t) s r = (
  record fw {
    allowed_replies = insert (reverse f) (t + timeout) (remove_expired fw t).allowed_replies;
  },
  ground arith,
  s,
)
step_total timeout fw (inbound f t) s r = (remove_expired fw t, refl, s)

-- The firewall never panics, under a timeout that is not zero and with every deadline within the
-- clock's range; its timeout stays the one it was made with.
pub after_total :
    (timeout : Duration) (h : List Event)
    → 0 < timeout
    → HasRoom timeout h
    → (fw : Firewall) × (after timeout h ≡ done fw) × (fw.flow_timeout ≡ timeout)
unfolding after new
after_total timeout [] p r =
    (record { flow_timeout = timeout; allowed_replies = [] }, ground arith, refl)
after_total timeout (e ∷ h) p r =
    let (fw, before, same) = after_total timeout h p r.1 in
    let (fw', last, same') = step_total timeout fw e same r.0 in (fw', rw before last, same')

-- ===== src/RateLimit/Manager.antt =====
-- pkg/ratelimit/ratelimit.go: named policies, and the circuit that sends requests to the local backend
-- for a while after the shared one has failed.
pub mod Failover
use cordis.Common.{
  ℕ, ◌+◌, Bool, true, false, not, ◌&&◌, ◌||◌, ◌==◌, nat_eq, Option, none, some, ltb, if◌then◌else◌,
  String,
}
use cordis.RateLimit.{Policy, Decision, LocalBackend, refused, take_local}

-- `unavailable_to` is none where the code has the zero time.
pub record Circuit : Type 0 where
  pub unavailable_to : Option ℕ
  pub probing : Bool

pub record Manager : Type 0 where
  pub circuit : Circuit
  pub fallback : LocalBackend

pub record Options : Type 0 where
  pub has_primary : Bool
  pub policies : String → Option Policy
  pub retry_interval : ℕ

-- What the shared backend answers: a decision, the end of the context, or any other error.
pub data Answer : Type 0 where
  decided : Decision → Answer
  interrupted failed : Answer

pub data TakeError : Type 0 where
  unknown_policy cost_not_positive context_ended : TakeError

pub data Taken : Type 0 where
  decision : Decision → Taken
  take_error : TakeError → Taken

unfoldable pub begin_primary_attempt : Bool → ℕ → Circuit → Circuit × Bool
begin_primary_attempt has_primary now c =
    if has_primary
    then elim c.unavailable_to [
      | none ↦ (c, true)
      | some until ↦
          if ltb now until || c.probing then (c, false) else (record c { probing = true }, true)
    ]
    else (c, false)

unfoldable pub finish_primary_attempt : ℕ → Bool → ℕ → Circuit → Circuit
finish_primary_attempt retry_interval is_success now c = record {
  unavailable_to = if is_success then none else some (now + retry_interval);
  probing = false;
}

unfoldable pub cancel_primary_attempt : Circuit → Circuit
cancel_primary_attempt c = record c { probing = false }

abbrev pub flagged : Option Decision → Taken
flagged none = take_error context_ended
flagged (some d) = decision (record d { fallback = true })

unfoldable pub take_fallback : Bool → ℕ → String → Policy → ℕ → Manager → Manager × Taken
take_fallback is_canceled now key policy cost m =
    let (l, d) = take_local is_canceled now key policy cost m.fallback in
    (record m { fallback = l }, flagged d)

-- `Manager.Take` for a bucket's key, with the answer that the shared backend would give, the time of
-- the attempt and the time after it; a negative cost is refused as 0 is.
unfoldable pub take_bucket :
    Options → Bool → String → Policy → ℕ → ℕ → Answer → ℕ → Manager → Manager × Taken
unfolding begin_primary_attempt finish_primary_attempt cancel_primary_attempt take_fallback
take_bucket o is_canceled key policy cost begins answer ends m =
    if ltb policy.limit cost
    then (m, decision (refused policy))
    else let (c, attempts) = begin_primary_attempt o.has_primary begins m.circuit in
      let m' : Manager = record m { circuit = c } in
      if attempts
      then elim answer [
        | decided d ↦ (
          record m' { circuit = finish_primary_attempt o.retry_interval true ends c },
          decision d,
        )
        | interrupted ↦ (record m' { circuit = cancel_primary_attempt c }, take_error context_ended)
        | failed ↦
            take_fallback is_canceled ends key policy cost
              (record m' { circuit = finish_primary_attempt o.retry_interval false ends c })
      ]
      else take_fallback is_canceled begins key policy cost m'

-- `bucket_key` is the prefix, the name of the policy and the digest of the key, of which SHA-256 is a
-- library's.
module _ (bucket_key : String → String → String) where
  unfoldable pub take :
      Options → Bool → String → String → ℕ → ℕ → Answer → ℕ → Manager → Manager × Taken
  unfolding take_bucket
  take o is_canceled policy_name key cost begins answer ends m = elim (o.policies policy_name) [
    | none ↦ (m, take_error unknown_policy)
    | some policy ↦
        if cost == 0
        then (m, take_error cost_not_positive)
        else take_bucket o is_canceled (bucket_key policy_name key) policy cost begins answer ends m
  ]

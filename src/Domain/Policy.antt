-- ===== src/Domain/Policy.antt =====
-- `evaluate_policy` of shared/domain.py, and when it allows.
use cryptogpt_one_intent_wal.Base.{
  String, Bool, true, false, not, ◌||◌, Option, none, some, str_eq, if◌then◌else◌, Result, ok, err,
  ◌>>=◌, ◌>>◌, ◌≡◌, ◌⊎◌, inl, inr, arith, Bool-cases, Result-cases, refl,
}
use cryptogpt_one_intent_wal.Base.Int.{ℤ, pos, leb_ℤ}
use cryptogpt_one_intent_wal.Canonical.Value.{bool, int, str}
use cryptogpt_one_intent_wal.Canonical.Checks.{Host}
use cryptogpt_one_intent_wal.Canonical.Decimal.{Decimal, is_zero, decimal_string}
use cryptogpt_one_intent_wal.Domain.Checks.{Error, wrap, bounded_text, strict_int, strict_bool}

pub record PolicyInput : Type 0 where
  pub global_write_disabled : Bool
  pub feature_enabled : Bool
  pub account_model : String
  pub native_balance : String
  pub route_verified : Bool
  pub route_expiry : Option ℤ
  pub now : ℤ

pub record PolicyDecision : Type 0 where
  pub allowed : Bool
  pub reason_code : String
  pub japanese_message : String

abbrev pub deny : String → String → PolicyDecision
deny reason message = record { allowed = false; reason_code = reason; japanese_message = message }

module _ (host : Host) where
  abbrev pub optional_time : Option ℤ → Result Error (Unit {0})
  optional_time none = ok tt
  optional_time (some t) = strict_int (int t) (some (pos 0)) >>= λ _. ok tt

  -- the checks in the `try`; the result is the balance
  unfoldable pub policy_checks : PolicyInput → Result Error Decimal
  policy_checks v = do
    strict_bool (bool v.global_write_disabled)
    strict_bool (bool v.feature_enabled)
    strict_bool (bool v.route_verified)
    bounded_text host (str v.account_model) 32
    strict_int (int v.now) (some (pos 0))
    optional_time v.route_expiry
    wrap (decimal_string v.native_balance none)

abbrev pub known_account_model : String → Bool
known_account_model s =
    str_eq s "EOA" || str_eq s "ERC4337" || str_eq s "SPONSORED" || str_eq s "RELAYER"

abbrev pub allow : PolicyDecision
allow = record { allowed = true; reason_code = "POLICY_ALLOWED"; japanese_message = "確認画面へ進めます。" }

-- the tests of the fee route that a zero balance needs
abbrev pub decide_route : Bool → Option ℤ → ℤ → PolicyDecision
decide_route false expiry now = deny "FEE_ROUTE_UNVERIFIED" "手数料ルートを確認できません。手動確認に戻ります。"
decide_route true none now = deny "FEE_ROUTE_EXPIRY_MISSING" "手数料ルートの期限を確認できません。"
decide_route true (some expiry) now =
    if leb_ℤ expiry now then deny "FEE_ROUTE_EXPIRED" "手数料ルートの期限が切れています。" else allow

abbrev pub decide : PolicyInput → Result Error Decimal → PolicyDecision
decide v (err e) = deny "INVALID_POLICY_INPUT" "入力を確認できないため停止しました。"
decide v (ok balance) =
    if v.global_write_disabled
    then deny "GLOBAL_WRITE_DISABLED" "現在は送信を停止しています。"
    else if not v.feature_enabled
    then deny "FEATURE_DISABLED" "この機能はまだ利用できません。"
    else if not (known_account_model v.account_model)
    then deny "UNKNOWN_ACCOUNT_MODEL" "アカウント方式を確認できません。"
    else if is_zero balance
    then decide_route v.route_verified v.route_expiry v.now
    else allow

unfoldable pub evaluate_policy : Host → PolicyInput → PolicyDecision
evaluate_policy host v = decide v (policy_checks host v)

-- The route is verified and expires after `now`.
pub record HasLiveRoute (v : PolicyInput) : Type 0 where
  pub verified : v.route_verified ≡ true
  pub expiry : ℤ
  pub expires : v.route_expiry ≡ some expiry
  pub is_later : leb_ℤ expiry v.now ≡ false

-- The conditions under which the policy allows, with the balance that it reads.
pub record Permits (host : Host) (v : PolicyInput) : Type 0 where
  pub balance : Decimal
  pub valid : policy_checks host v ≡ ok balance
  pub writes : v.global_write_disabled ≡ false
  pub enabled : v.feature_enabled ≡ true
  pub known : known_account_model v.account_model ≡ true
  pub funded : (is_zero balance ≡ false) ⊎ HasLiveRoute v

abbrev IsAllowed : PolicyDecision → Type 0
IsAllowed d = d.allowed ≡ true

route-HasLiveRoute :
    (v : PolicyInput) (expiry : Option ℤ)
    → v.route_expiry ≡ expiry
    → IsAllowed (decide_route v.route_verified expiry v.now)
    → HasLiveRoute v
route-HasLiveRoute v none e h = absurd (ground arith)
route-HasLiveRoute v (some t) e h = record {
  verified = ground arith;
  expiry = t;
  expires = e;
  is_later = ground arith;
}

decide-Permits :
    (host : Host) (v : PolicyInput) (balance : Decimal)
    → policy_checks host v ≡ ok balance
    → IsAllowed (decide v (ok balance))
    → Permits host v
decide-Permits host v balance valid h = record {
  balance = balance;
  valid = valid;
  writes = ground arith;
  enabled = ground arith;
  known = ground arith;
  funded = elim (Bool-cases (is_zero balance)) [
    | inr funded ↦ inl funded
    | inl empty ↦ inr (route-HasLiveRoute v v.route_expiry refl (ground arith))
  ];
}

-- The policy allows exactly when its input is valid, writing and the feature are on, the account
-- model is known, and the native balance is positive or the fee route is verified and live.
pub policy_allows_exactly :
    (host : Host) (v : PolicyInput)
    → ((evaluate_policy host v).allowed ≡ true → Permits host v)
      × (Permits host v → evaluate_policy host v ≡ allow)
unfolding evaluate_policy
policy_allows_exactly host v = (
  λ h. elim (Result-cases (policy_checks host v)) [
    | inl (balance, valid) ↦ decide-Permits host v balance valid (rw valid at h)
    | inr (e, bad) ↦ absurd (ground arith)
  ],
  λ p. rw (p.valid) (elim (p.funded) [
    | inl funded ↦ rw (p.writes, p.enabled, p.known, funded) refl
    | inr route ↦ elim (Bool-cases (is_zero p.balance)) [
      | inl empty ↦
          rw (p.writes, p.enabled, p.known, empty, route.verified, route.expires, route.is_later)
            refl
      | inr funded ↦ rw (p.writes, p.enabled, p.known, funded) refl
    ]
  ]),
)

-- ===== src/Messages/TenantRate/Accounting.antt =====
-- The bucket of a tenant covers what the turns of the readers have let through.
use rust_ws_server.Base.{
  ℕ, ◌+◌, ◌≤◌, max, ◌≡◌, refl, sym, ◌∙◌, ap, subst, Bool-cases, inl, inr, Option, some, Text,
  Text-discrete, arith, if◌then◌else◌, ite, if_pos, if_neg,
}
use rust_ws_server.Base.Map.{Map, get, insert, get-insert_self, get-insert_ne}
use rust_ws_server.Bucket.{TokenBucket, try_consume}
use rust_ws_server.Config.{Config}
use rust_ws_server.External.{External}
use rust_ws_server.IpLimiter.{or_default}
use rust_ws_server.Messages.{count_in}
use rust_ws_server.Messages.Reader.{Incoming, reader_turn}
use rust_ws_server.Messages.TenantRate.Spending.{
  Covers, later-Covers, consumed-IsSpent, found-IsSpent,
}
use rust_ws_server.RateLimiter.{RateLimiter}
use rust_ws_server.State.{AppState, tenant_bucket, check_tenant_rate}
use rust_ws_server.Messages.TenantRate.{
  is_checked, is_handled, buckets-Effects, checked-Effects, unchecked-Effects,
}

module _ {ext : External} where
  check_tenant_rate_lem :
      (s : AppState ext) (tenant : Text) (now rate : ℕ) (burst : Option ℕ)
      (limits : Map Text TokenBucket)
      → s.tenant_rate_limits ≡ some limits
      → s.config.tenant_max_messages_per_second ≡ some rate
      → s.config.tenant_message_burst ≡ burst
      → let (s', ok) = check_tenant_rate s tenant now in
        let (b, ok') = try_consume (tenant_bucket limits tenant rate burst now) now in
        (s'.tenant_rate_limits ≡ some (insert Text-discrete tenant b limits))
        × (s'.config ≡ s.config)
        × (ok ≡ ok')
  unfolding check_tenant_rate
  check_tenant_rate_lem s tenant now rate burst limits e e' e'' = (
    rw (e, check_tenant_rate, e', e'') refl,
    ground arith,
    rw (e, check_tenant_rate, e', e'') refl,
  )

module _ (config : Config) (rate : ℕ) (tenant : Text) (start : ℕ) where
  abbrev burst : ℕ
  burst = or_default config.tenant_message_burst (max rate 1)

  -- A check for the tenant, and one for another.
  rated-Covers :
      (limits : Map Text TokenBucket) (other : Text) (now end n : ℕ)
      → start ≤ end
      → now ≤ end
      → Covers rate burst start now n (get Text-discrete tenant limits)
      → let (b', ok) =
          try_consume (tenant_bucket limits other rate config.tenant_message_burst end) end in
        Covers rate burst start end
          (n + ite (Text-discrete other tenant) (if ok then 1 else 0) 0)
          (get Text-discrete tenant (insert Text-discrete other b' limits))
  rated-Covers limits other now end n le le' c =
      let found = tenant_bucket limits other rate config.tenant_message_burst end in
      let (b, ok) = try_consume found end in
      elim (Text-discrete other tenant) [
        | yes same ↦
            let own =
              subst (λ k. Covers rate burst start now n (get Text-discrete k limits)) (sym same)
                c in
            rw (if_pos _ same) (
              inr (
                b,
                subst (λ k. get Text-discrete k (insert Text-discrete other b limits) ≡ some b) same
                    (get-insert_self Text-discrete other b limits),
                consumed-IsSpent rate burst start end end n found (omega arith) (
                    found-IsSpent limits other rate config.tenant_message_burst start now end n le
                      le' own),
              ))
        | no differ ↦
            rw
              (
                if_neg _ differ,
                get-insert_ne Text-discrete tenant other b limits (λ e. differ (sym e)),
              )
              (subst (λ k. Covers rate burst start end k (get Text-discrete tenant limits))
                (omega arith) (later-Covers rate burst start now end n _ le' c))
      ]

  module _ {ext : External} (limited : config.tenant_max_messages_per_second ≡ some rate) where
    -- The bucket of the tenant covers what was let through.
    pub record IsAccounted (now n : ℕ) (s : AppState ext) : Type 0 where
      pub settings : s.config ≡ config
      pub limits : Map Text TokenBucket
      pub kept : s.tenant_rate_limits ≡ some limits
      pub covers : Covers rate burst start now n (get Text-discrete tenant limits)

    same-IsAccounted :
        (now n : ℕ) (s t : AppState ext)
        → t.tenant_rate_limits ≡ s.tenant_rate_limits
        → t.config ≡ s.config
        → IsAccounted now n s
        → IsAccounted now n t
    same-IsAccounted now n s t e e' a = record {
      settings = e' ∙ a.settings;
      limits = a.limits;
      kept = e ∙ a.kept;
      covers = a.covers;
    }

    pub unchanged-IsAccounted :
        (last now n : ℕ) {s t : AppState ext}
        → last ≤ now
        → (t.tenant_rate_limits ≡ s.tenant_rate_limits) × (t.config ≡ s.config)
        → IsAccounted last n s
        → IsAccounted now n t
    unchanged-IsAccounted last now n le (e, e') a = record {
      settings = e' ∙ a.settings;
      limits = a.limits;
      kept = e ∙ a.kept;
      covers = later-Covers rate burst start last now n _ le a.covers;
    }

    -- One check.
    rated-IsAccounted :
        (s : AppState ext) (other : Text) (last now n : ℕ)
        → start ≤ now
        → last ≤ now
        → IsAccounted last n s
        → let (s', ok) = check_tenant_rate s other now in
          IsAccounted now (n + ite (Text-discrete other tenant) (if ok then 1 else 0) 0) s'
    rated-IsAccounted s other last now n le le' a =
        let (kept, settings, answer) =
          check_tenant_rate_lem s other now rate config.tenant_message_burst a.limits a.kept
            (ap (λ c. c.tenant_max_messages_per_second) a.settings ∙ limited)
            (ap (λ c. c.tenant_message_burst) a.settings) in
        let bucket =
          (try_consume (tenant_bucket a.limits other rate config.tenant_message_burst now) now).0 in
        let after = insert Text-discrete other bucket a.limits in
        record {
          settings = settings ∙ a.settings;
          limits = after;
          kept = kept;
          covers =
              subst
                (λ ok.
                  Covers rate burst start now
                    (n + ite (Text-discrete other tenant) (if ok then 1 else 0) 0)
                    (get Text-discrete tenant after))
                (sym answer) (rated-Covers a.limits other last now n le le' a.covers);
        }

    -- A turn of a reader.
    pub reader_turn-IsAccounted :
        (s : AppState ext) (limiter : RateLimiter) (tx : ℕ) (key other client : Text)
        (incoming : Incoming) (last now n : ℕ)
        → start ≤ now
        → last ≤ now
        → IsAccounted last n s
        → IsAccounted now
            (n
              + ite
                  (Text-discrete other tenant)
                  (if is_handled s limiter other incoming now then 1 else 0)
                  0)
            (reader_turn s limiter tx key other client incoming now).state
    reader_turn-IsAccounted s limiter tx key other client incoming last now n le le' a =
        let s' = (reader_turn s limiter tx key other client incoming now).state in
        let counted_in =
          unchanged-IsAccounted last now n {s = s} {t = count_in s} le' (refl, refl) a in
        elim (Bool-cases (is_checked s limiter incoming now)) [
          | inl e ↦
              rw (is_handled, e)
                (unchanged-IsAccounted now now _ (omega arith)
                  (buckets-Effects (checked-Effects s limiter tx key other client incoming now e))
                  (rated-IsAccounted (count_in s) other now now n le (omega arith) counted_in))
          | inr e ↦
              rw (is_handled, e)
                (subst (λ k. IsAccounted now k s') (ground arith)
                  (unchanged-IsAccounted last now n le'
                    (buckets-Effects
                      (unchecked-Effects s limiter tx key other client incoming now e))
                    a))
        ]
